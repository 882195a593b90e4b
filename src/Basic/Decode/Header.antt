-- ===== src/Basic/Decode/Header.antt =====
-- The decoder on the header of a value: it reads back the type and the number.
use dbuf_demo_go.Common.{ℕ, zero, suc, ◌+◌, ◌-◌, ◌*◌, ◌/◌, ◌%◌, ◌^◌, ◌≤◌, ◌<◌, ◌≡◌, ap, ◌∙◌, sym}
use dbuf_demo_go.Common.{[], ◌∷◌, ◌++◌, Bytes, arith, length, append_assoc}
use dbuf_demo_go.Common.{IsU32, ltb, if◌then◌else◌}
use dbuf_demo_go.Common.{append-nil, ltb→lt, ltb→le, Bool-cases, inl, inr}
use dbuf_demo_go.Basic.Const.{single_byte_threshold}
use dbuf_demo_go.Basic.Val.{InitialDecode}
use dbuf_demo_go.Basic.Wire.{header}
use dbuf_demo_go.Basic.Encode.{measure_extra_value}
use dbuf_demo_go.Basic.Decode.{shift_in, read_missing}
use dbuf_demo_go.Basic.Decode.{read_extra_value, start_initial}
use dbuf_demo_go.Basic.Decode.Read.{reader, read_missing_step}

-- What the decoder makes of the header of a value of type `t` and number `n`.
abbrev pub initial_of : ℕ → ℕ → InitialDecode
initial_of t n = record {
  value = n;
  type = t;
  missing_extra_length = 0;
  extra_length = measure_extra_value n single_byte_threshold - 1;
}

-- Bytes that are all there, read by `read_missing`.
read_all : ℕ → ℕ → Bytes → ℕ × ℕ
read_all m v [] = (v, m)
read_all zero v (x ∷ xs) = (v, 0)
read_all (suc m) v (x ∷ xs) = read_all m (shift_in v x) xs

read_missing_all :
    (v : ℕ) (front xs rest : Bytes)
    → read_missing (length xs) v (reader front (xs ++ rest))
      ≡ ((read_all (length xs) v xs).0, 0, reader (front ++ xs) rest)
unfolding read_all
read_missing_all v front [] rest =
    unfold read_missing in (λ i. (v, 0, reader (sym (append-nil front) i) rest))
read_missing_all v front (x ∷ xs) rest =
    read_missing_step (length xs) v front x (xs ++ rest)
    ∙ read_missing_all (shift_in v x) (front ++ x ∷ []) xs rest
    ∙ ap (λ f. ((read_all (length xs) (shift_in v x) xs).0, 0, reader f rest))
        (append_assoc front (x ∷ []) xs)

module _ (t n : ℕ) (front rest : Bytes) (i : InitialDecode) (ht : t < 8) where
  start_small :
      n < 24
      → start_initial (t * 32 + n) (reader front rest) i
        ≡ (record i { type = t; value = n }, reader front rest)
  unfolding start_initial
  start_small h = ground arith

  start_two :
      24 ≤ n
      → n < 2 ^ 10
      → start_initial (t * 32 + 24 + n / 256) (reader front (n % 256 ∷ rest)) i
        ≡ (initial_of t n, reader (front ++ n % 256 ∷ []) rest)
  unfolding start_initial read_extra_value measure_extra_value read_all
  start_two h k = ground (arith, read_missing_all (n / 256) front (n % 256 ∷ []) rest)

  start_three :
      2 ^ 10 ≤ n
      → n < 2 ^ 17
      → start_initial (t * 32 + 28 + n / 65536) (reader front (n / 256 % 256 ∷ n % 256 ∷ rest)) i
        ≡ (initial_of t n, reader (front ++ n / 256 % 256 ∷ n % 256 ∷ []) rest)
  unfolding start_initial read_extra_value measure_extra_value read_all
  start_three h k =
      ground (arith, read_missing_all (n / 65536) front (n / 256 % 256 ∷ n % 256 ∷ []) rest)

  start_four :
      2 ^ 17 ≤ n
      → n < 2 ^ 24
      → start_initial
          (t * 32 + 30)
          (reader front (n / 65536 % 256 ∷ n / 256 % 256 ∷ n % 256 ∷ rest))
          i
        ≡ (initial_of t n, reader (front ++ n / 65536 % 256 ∷ n / 256 % 256 ∷ n % 256 ∷ []) rest)
  unfolding start_initial read_extra_value measure_extra_value read_all
  start_four h k =
      ground (arith, read_missing_all 0 front (n / 65536 % 256 ∷ n / 256 % 256 ∷ n % 256 ∷ []) rest)

  start_five :
      2 ^ 24 ≤ n
      → IsU32 n
      → start_initial
          (t * 32 + 31)
          (reader front (n / 16777216 % 256 ∷ n / 65536 % 256 ∷ n / 256 % 256 ∷ n % 256 ∷ rest))
          i
        ≡ (
          initial_of t n,
          reader
              (front ++ n / 16777216 % 256 ∷ n / 65536 % 256 ∷ n / 256 % 256 ∷ n % 256 ∷ [])
              rest,
        )
  unfolding start_initial read_extra_value measure_extra_value read_all
  start_five h k = ground (
    arith,
    read_missing_all 0 front (n / 16777216 % 256 ∷ n / 65536 % 256 ∷ n / 256 % 256 ∷ n % 256 ∷ [])
        rest,
  )

-- The first byte of a header, and the bytes behind it.
unfoldable pub header_byte : ℕ → ℕ → ℕ
header_byte t n =
    if ltb n 24
    then t * 32 + n
    else if ltb n (2 ^ 10)
    then t * 32 + 24 + n / 256
    else if ltb n (2 ^ 17)
    then t * 32 + 28 + n / 65536
    else if ltb n (2 ^ 24)
    then t * 32 + 30
    else t * 32 + 31

unfoldable pub header_rest : ℕ → Bytes
header_rest n =
    if ltb n 24
    then []
    else if ltb n (2 ^ 10)
    then n % 256 ∷ []
    else if ltb n (2 ^ 17)
    then n / 256 % 256 ∷ n % 256 ∷ []
    else if ltb n (2 ^ 24)
    then n / 65536 % 256 ∷ n / 256 % 256 ∷ n % 256 ∷ []
    else n / 16777216 % 256 ∷ n / 65536 % 256 ∷ n / 256 % 256 ∷ n % 256 ∷ []

pub header_parts : (t n : ℕ) → header t n ≡ header_byte t n ∷ header_rest n
unfolding header header_byte header_rest
header_parts t n = ground arith

-- The initial after its first byte has been read. `i` is the initial before: a number below 24 leaves
-- its lengths alone, and so `i` has to have none.
pub start_header :
    (t n : ℕ) (front rest : Bytes) (i : InitialDecode)
    → t < 8
    → IsU32 n
    → i.missing_extra_length ≡ 0
    → i.extra_length ≡ 0
    → start_initial (header_byte t n) (reader front (header_rest n ++ rest)) i
      ≡ (initial_of t n, reader (front ++ header_rest n) rest)
unfolding header_byte header_rest
start_header t n front rest i ht hn hm he = elim (Bool-cases (ltb n 24)) [
  | inl s ↦
      rw (s, start_small t n front rest i ht (ltb→lt n 24 s), append-nil)
        (unfold measure_extra_value in ground arith)
  | inr s ↦ elim (Bool-cases (ltb n (2 ^ 10))) [
    | inl s' ↦ rw (s, s') (start_two t n front rest i ht (ltb→le n 24 s) (ltb→lt n _ s'))
    | inr s' ↦ elim (Bool-cases (ltb n (2 ^ 17))) [
      | inl s₃ ↦ rw (s, s', s₃) (start_three t n front rest i ht (ltb→le n _ s') (ltb→lt n _ s₃))
      | inr s₃ ↦ elim (Bool-cases (ltb n (2 ^ 24))) [
        | inl s₄ ↦
            rw (s, s', s₃, s₄) (start_four t n front rest i ht (ltb→le n _ s₃) (ltb→lt n _ s₄))
        | inr s₄ ↦ rw (s, s', s₃, s₄) (start_five t n front rest i ht (ltb→le n _ s₄) hn)
      ]
    ]
  ]
]
