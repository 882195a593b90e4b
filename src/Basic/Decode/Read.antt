-- ===== src/Basic/Decode/Read.antt =====
-- Reading bytes of the buffer: `reader front xs` has read `front` and has `xs` before it.
use dbuf_demo_go.Common.{ℕ, suc, ◌+◌, ◌≤◌, ◌≡◌, refl, sym}
use dbuf_demo_go.Common.{
  [], ◌∷◌, ◌++◌, Bytes, arith, length, length-append, append_assoc, false, true,
}
use dbuf_demo_go.Common.{get_or-append, take, drop, take-append-drop, length-take}
use dbuf_demo_go.Common.{lt→leb, le→leb}
use dbuf_demo_go.Basic.Decode.{DecoderState, at_end, current, advance, shift_in, read_missing}

abbrev pub reader : Bytes → Bytes → DecoderState
reader front xs = record { bytes = front ++ xs; index = length front }

-- A state whose index is in bounds is such a reader.
pub reader_of :
    (d : DecoderState)
    → d.index ≤ length d.bytes
    → d ≡ reader (take d.index d.bytes) (drop d.index d.bytes)
reader_of d h = λ i. record {
  bytes = sym (take-append-drop d.index d.bytes) i;
  index = sym (length-take d.index d.bytes h) i;
}

pub reader-at_end : (front : Bytes) → at_end (reader front []) ≡ true
reader-at_end front = le→leb _ _ (omega (arith, length-append front []))

pub reader_more : (front : Bytes) (x : ℕ) (xs : Bytes) → at_end (reader front (x ∷ xs)) ≡ false
reader_more front x xs = lt→leb _ _ (omega (arith, length-append front (x ∷ xs)))

pub reader-current : (front : Bytes) (x : ℕ) (xs : Bytes) → current (reader front (x ∷ xs)) ≡ x
reader-current front x xs = get_or-append front xs x 0

pub reader-advance :
    (front : Bytes) (x : ℕ) (xs : Bytes)
    → advance (reader front (x ∷ xs)) ≡ reader (front ++ x ∷ []) xs
reader-advance front x xs =
    λ i. record { bytes = sym (append_assoc front (x ∷ []) xs) i; index = path i }
  where
    path : length front + 1 ≡ length (front ++ x ∷ [])
    path = omega (arith, length-append front (x ∷ []))

pub read_missing_step :
    (m v : ℕ) (front : Bytes) (x : ℕ) (xs : Bytes)
    → read_missing (suc m) v (reader front (x ∷ xs))
      ≡ read_missing m (shift_in v x) (reader (front ++ x ∷ []) xs)
unfolding read_missing
read_missing_step m v front x xs =
    rw (reader_more front x xs, reader-current front x xs, reader-advance front x xs) refl

pub read_missing_end :
    (m v : ℕ) (front : Bytes)
    → read_missing (suc m) v (reader front []) ≡ (v, suc m, reader front [])
unfolding read_missing
read_missing_end m v front = rw (reader-at_end front) refl

read_none : (v : ℕ) (d : DecoderState) → read_missing 0 v d ≡ (v, 0, d)
unfolding read_missing
read_none v d = refl
