-- ===== src/Protocol/Stream/RoundTrip.antt =====
-- The start of a stream as a sender writes it.
use dbuf_demo_go.Common.{ℕ, ◌/◌, ◌^◌, ◌≤◌, ◌<◌, ◌≡◌, refl, ap, arith}
use dbuf_demo_go.Common.{true, false, inl, inr, if◌then◌else◌, ltb, ◌==◌, ◌||◌, Bool-cases}
use dbuf_demo_go.Common.{[], ◌∷◌, ◌++◌, Bytes, length, IsU32, ltb→le, ltb→lt, le→ltb, lt→ltb}
use dbuf_demo_go.Basic.ParseType
use dbuf_demo_go.Basic.Val.{InitialDecode, zero_initial}
use dbuf_demo_go.Basic.Wire.{header}
use dbuf_demo_go.Basic.Error.{ok, ◌>>=◌, GoError}
use dbuf_demo_go.Basic.Encode.{measure_extra_value}
use dbuf_demo_go.Basic.Decode.{DecoderState, decode_initial, start_initial, read_extra_value}
use dbuf_demo_go.Basic.Decode.{read_missing, resume_initial}
use dbuf_demo_go.Basic.Decode.Header.{header_byte, header_rest, header_parts, initial_of}
use dbuf_demo_go.Protocol.Names
use dbuf_demo_go.Protocol.Reader.{Reader, read_full, map_err, read_full_append}
use dbuf_demo_go.Protocol.Stream.{decoder, part_error, read_rest, read_stream_group}
use dbuf_demo_go.Protocol.Stream.{header_initial, header_initial_from, read_header_initial}

-- What the decoder makes of the first byte of a header alone.
unfoldable initial_part : ℕ → ℕ → InitialDecode
initial_part t n = record {
  value =
      if ltb n 24
      then n
      else if ltb n (2 ^ 10)
      then n / 256
      else if ltb n (2 ^ 17)
      then n / 65536
      else 0;
  type = t;
  missing_extra_length = length (header_rest n);
  extra_length = length (header_rest n);
}

decode_first :
    (t n : ℕ)
    → t < 8
    → IsU32 n
    → (d : DecoderState) × (decode_initial (decoder (header_byte t n ∷ [])) zero_initial
        ≡ ok (initial_part t n, d))
unfolding decode_initial start_initial read_extra_value read_missing header_byte header_rest
    initial_part
decode_first t n h k = (record { bytes = header_byte t n ∷ []; index = 1 }, ground arith)

decode_rest :
    (t n : ℕ)
    → IsU32 n
    → 24 ≤ n
    → (d : DecoderState) × (decode_initial (decoder (header_rest n)) (initial_part t n)
        ≡ ok (initial_of t n, d))
unfolding decode_initial resume_initial read_missing header_rest initial_part measure_extra_value
decode_rest t n k h =
    (record { bytes = header_rest n; index = length (header_rest n) }, ground arith)

-- A reader of bytes, behind which the error `e` stands.
abbrev pub stream : Bytes → GoError → Reader
stream b e = record { bytes = b; last = e }

part_append :
    (name : ℕ) (b rest : Bytes) (e : GoError)
    → map_err (part_error name) (read_full (length b) (stream (b ++ rest) e))
      ≡ ok (b, stream rest e)
part_append name b rest e = ap (map_err (part_error name)) (read_full_append b rest e)

read_rest_header :
    (name t n : ℕ) (rest : Bytes) (e : GoError)
    → IsU32 n
    → 24 ≤ n
    → read_rest name (initial_part t n) (stream (header_rest n ++ rest) e)
      ≡ ok (initial_of t n, stream rest e)
unfolding read_rest
read_rest_header name t n rest e k h =
    let (d, run) = decode_rest t n k h in
    let all : map_err (part_error name)
          (read_full (initial_part t n).missing_extra_length (stream (header_rest n ++ rest) e))
        ≡ ok (header_rest n, stream rest e) =
      unfold initial_part in part_append name (header_rest n) rest e in
    rw (all, run) refl

initial_part_test : (t u n : ℕ) → ((initial_part t n).type == u) ≡ (t == u)
unfolding initial_part
initial_part_test t u n = refl

-- A number below 24 is in the first byte, and another has bytes behind it.
part_small : (t n : ℕ) → n < 24 → (header_rest n ≡ []) × (initial_part t n ≡ initial_of t n)
unfolding header_rest initial_part measure_extra_value
part_small t n h = ground arith

part_large : (t n : ℕ) → 24 ≤ n → 0 < (initial_part t n).missing_extra_length
unfolding header_rest initial_part
part_large t n h = ground arith

-- A stream group that the sender has written as an unsigned integer is what `ReadStreamGroup`
-- returns, and the rest of the stream is left.
pub read_stream_group-header :
    (n : ℕ) (rest : Bytes) (e : GoError)
    → IsU32 n
    → read_stream_group (stream (header ParseType.uint n ++ rest) e)
      ≡ ok (record { stream_group = n; first_byte = 0; use_first_byte = false }, stream rest e)
unfolding read_stream_group
read_stream_group-header n rest e k =
    let b = header_byte ParseType.uint n in
    let (d, run) = decode_first ParseType.uint n (omega arith) k in
    rw
      (
        header_parts ParseType.uint n,
        part_append Names.stream_group (b ∷ []) (header_rest n ++ rest) e,
        run,
        initial_part_test ParseType.uint ParseType.uint n,
      )
      (elim (Bool-cases (ltb n 24)) [
        | inl h ↦
            let (none_left, whole) = part_small ParseType.uint n (ltb→lt n 24 h) in
            rw (whole, none_left) refl
        | inr h ↦
            rw
              (
                (==_ne (initial_part ParseType.uint n).missing_extra_length
                    (part_large ParseType.uint n (ltb→le n 24 h))),
                read_rest_header Names.stream_group ParseType.uint n rest e k (ltb→le n 24 h),
              )
              refl
      ])
  where
    ==_ne : (m : ℕ) → 0 < m → (m == 0) ≡ false
    ==_ne m h = ground arith

-- An accepted type and length pass the test of the header.
header_accepted :
    (t n : ℕ) (r : Reader)
    → ((t == ParseType.array) || (t == ParseType.map)) ≡ true
    → n ≤ Names.max_header_size
    → header_initial (initial_of t n) r ≡ ok (initial_of t n, r)
unfolding header_initial
header_accepted t n r h k = rw (h, le→ltb Names.max_header_size n k) refl

-- The initial of a header, its first byte having been read.
header_initial_from-header :
    (t n : ℕ) (rest : Bytes) (e : GoError)
    → t < 8
    → ((t == ParseType.array) || (t == ParseType.map)) ≡ true
    → n ≤ Names.max_header_size
    → header_initial_from (header_byte t n ∷ []) (stream (header_rest n ++ rest) e)
      ≡ ok (initial_of t n, stream rest e)
unfolding header_initial_from
header_initial_from-header t n rest e ht h k =
    let (d, run) = decode_first t n ht (omega arith) in
    rw run (elim (Bool-cases (ltb n 24)) [
      | inl s ↦
          let (none_left, whole) = part_small t n (ltb→lt n 24 s) in
          rw (whole, none_left) (header_accepted t n (stream rest e) h k)
      | inr s ↦
          rw
            (
              lt→ltb 0 (initial_part t n).missing_extra_length (part_large t n (ltb→le n 24 s)),
              read_rest_header Names.header t n rest e (omega arith) (ltb→le n 24 s),
            )
            (header_accepted t n (stream rest e) h k)
    ])

-- The header of an array or a map of a length up to `MaxHeaderSize` is accepted with its type and
-- length, the rest of the stream is left, and it makes no difference whether the stream starts with
-- it, `ReadStreamGroup` having taken its first byte, or not.
pub read_header_initial-header :
    (t n : ℕ) (rest : Bytes) (e : GoError)
    → t < 8
    → ((t == ParseType.array) || (t == ParseType.map)) ≡ true
    → n ≤ Names.max_header_size
    → (read_header_initial (stream (header t n ++ rest) e) 0 false
        ≡ ok (initial_of t n, stream rest e))
      × ((read_stream_group (stream (header t n ++ rest) e) >>= λ g.
            read_header_initial g.1 g.0.first_byte g.0.use_first_byte)
          ≡ ok (initial_of t n, stream rest e))
unfolding read_header_initial read_stream_group
read_header_initial-header t n rest e ht h k =
    let b = header_byte t n in
    let (d, run) = decode_first t n ht (omega arith) in
    (
      rw (header_parts t n, read_full_append (b ∷ []) (header_rest n ++ rest) e)
          (header_initial_from-header t n rest e ht h k),
      rw
          (
            header_parts t n,
            part_append Names.stream_group (b ∷ []) (header_rest n ++ rest) e,
            run,
            initial_part_test t ParseType.uint n,
            not_uint,
          )
          (header_initial_from-header t n rest e ht h k),
    )
  where
    not_uint : (t == ParseType.uint) ≡ false
    not_uint = ground arith
