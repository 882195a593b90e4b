-- ===== src/Basic/Encode/Write.antt =====
-- Writing into the encoder's buffer: several writes in a row are one write of the bytes joined.
use dbuf_demo_go.Common.{ℕ, ◌+◌, ◌<◌, ◌≡◌, refl, ap, ◌∙◌}
use dbuf_demo_go.Common.{[], ◌∷◌, ◌++◌, Bytes, arith}
use dbuf_demo_go.Common.{length, set, length-set, length-append, IsU32}
use dbuf_demo_go.Basic.Error.{◌>>=◌}
use dbuf_demo_go.Basic.Wire.{header}
use dbuf_demo_go.Basic.Encode.{EncoderState, copy, write_bytes, write_initial}

pub length-copy : (buf : Bytes) (i : ℕ) (b : Bytes) → length (copy buf i b) ≡ length buf
length-copy buf i [] = refl
length-copy buf i (x ∷ b) = length-copy (set buf i x) (i + 1) b ∙ length-set buf i x

pub copy-append :
    (buf : Bytes) (i : ℕ) (xs ys : Bytes)
    → copy buf i (xs ++ ys) ≡ copy (copy buf i xs) (i + length xs) ys
copy-append buf i [] ys = ap (λ k. copy buf k ys) (omega arith)
copy-append buf i (x ∷ xs) ys =
    copy-append (set buf i x) (i + 1) xs ys
    ∙ ap (λ k. copy (copy (set buf i x) (i + 1) xs) k ys) (omega arith)

pub write_bytes-append :
    (d : EncoderState) (xs ys : Bytes)
    → write_bytes d (xs ++ ys) ≡ (write_bytes d xs >>= λ d'. write_bytes d' ys)
unfolding write_bytes
write_bytes-append d xs ys =
    ground (
      arith,
      length-append xs ys,
      copy-append d.bytes d.index xs ys,
      length-copy d.bytes d.index xs,
    )

-- The initial byte and the bytes behind it are the header of the format, or nothing is written.
pub write_initial-header :
    (d : EncoderState) (t n : ℕ)
    → t < 8
    → IsU32 n
    → write_initial d t n ≡ write_bytes d (header t n)
unfolding write_initial write_bytes header
write_initial-header d t n ht hn = ground arith
