-- ===== src/Basic/Float/RoundTrip.antt =====
-- A float comes back from its value.
use dbuf_demo_go.Common.{
  ℕ, ◌/◌, ◌^◌, ◌<◌, ◌≡◌, ap, ◌∙◌, arith, true, false, Bool-cases, inl, inr, ◌==◌, to_byte, IsU64,
  IsU32, take,
}
use dbuf_demo_go.Basic.Val
use dbuf_demo_go.Basic.Val.{DbufVal}
use dbuf_demo_go.Basic.Error.{ok}
use dbuf_demo_go.Basic.Number.{big_endian}
use dbuf_demo_go.Basic.Float.{
  Floats, big_endian16, big_endian32, from_big_endian, without_zero, trimmed, float32_val, float64,
  get_float64,
}

==_zero : (n : ℕ) → (n == 0) ≡ true → n ≡ 0
==_zero n h = ground arith

module _ (f : Floats) where
  open f use {
    Float64, Float32, Float16, is_nan, nan, equal64, equal32, narrow, widen, to_half, of_half,
    bits64, bits32, bits16, of_bits64, of_bits32, of_bits16,
  }

  -- What the code relies on: a number comes back from its bits, and one that equals itself after it was
  -- narrowed and widened is itself, with the sign of its zero.
  pub record IsFloats : Type 0 where
    pub small64 : (v : Float64) → IsU64 (bits64 v)
    pub small32 : (v : Float32) → IsU32 (bits32 v)
    pub small16 : (v : Float16) → bits16 v < 2 ^ 16
    pub of_bits64-bits64 : (v : Float64) → of_bits64 (bits64 v) ≡ v
    pub of_bits32-bits32 : (v : Float32) → of_bits32 (bits32 v) ≡ v
    pub of_bits16-bits16 : (v : Float16) → of_bits16 (bits16 v) ≡ v
    pub exact64 : (v : Float64) → equal64 (widen (narrow v)) v ≡ true → widen (narrow v) ≡ v
    pub exact32 : (v : Float32) → equal32 (of_half (to_half v)) v ≡ true → of_half (to_half v) ≡ v

  get_float64-float16 :
      (n : ℕ)
      → n < 2 ^ 16
      → get_float64 f (Val.float (without_zero 1 (big_endian16 n)))
        ≡ ok (widen (of_half (of_bits16 n)))
  unfolding get_float64 from_big_endian
  get_float64-float16 n h = elim (Bool-cases (to_byte n == 0)) [
    | inl z ↦
        rw z
          (ap (λ k. ok (widen (of_half (of_bits16 k)))) (omega (arith, h, ==_zero (to_byte n) z)))
    | inr z ↦ rw z (ap (λ k. ok (widen (of_half (of_bits16 k)))) (omega (arith, h)))
  ]

  get_float64-float32 :
      (n : ℕ)
      → IsU32 n
      → get_float64 f (Val.float (without_zero 3 (big_endian32 n))) ≡ ok (widen (of_bits32 n))
  unfolding get_float64 from_big_endian
  get_float64-float32 n h = elim (Bool-cases (to_byte n == 0)) [
    | inl z ↦ rw z (ap (λ k. ok (widen (of_bits32 k))) (omega (arith, h, ==_zero (to_byte n) z)))
    | inr z ↦ rw z (ap (λ k. ok (widen (of_bits32 k))) (omega (arith, h)))
  ]

  get_float64-float64_bits :
      (n : ℕ)
      → IsU64 n
      → get_float64 f (Val.float (take (trimmed 3 8 (big_endian n)) (big_endian n)))
        ≡ ok (of_bits64 n)
  unfolding get_float64 from_big_endian trimmed
  get_float64-float64_bits n h = elim (Bool-cases (to_byte n == 0)) [
    | inr z ↦ rw z (ap (λ k. ok (of_bits64 k)) (omega (arith, h)))
    | inl z ↦ rw z (elim (Bool-cases (to_byte (n / 2 ^ 8) == 0)) [
      | inr y ↦ rw y (ap (λ k. ok (of_bits64 k)) (omega (arith, h, ==_zero (to_byte n) z)))
      | inl y ↦ rw y (elim (Bool-cases (to_byte (n / 2 ^ 16) == 0)) [
        | inr x ↦ rw x (
            ap (λ k. ok (of_bits64 k))
              (omega (arith, h, ==_zero (to_byte n) z, ==_zero (to_byte (n / 2 ^ 8)) y)))
        | inl x ↦ rw x (
            ap (λ k. ok (of_bits64 k))
              (omega (
                arith,
                h,
                ==_zero (to_byte n) z,
                ==_zero (to_byte (n / 2 ^ 8)) y,
                ==_zero (to_byte (n / 2 ^ 16)) x,
              )))
      ])
    ])
  ]

  -- A float32 comes back as a float64.
  get_float64-float32_val :
      IsFloats → (x : Float32) → get_float64 f (float32_val f x) ≡ ok (widen x)
  unfolding float32_val
  get_float64-float32_val laws x = elim (Bool-cases (equal32 (of_half (to_half x)) x)) [
    | inl e ↦ rw e (
        get_float64-float16 (bits16 (to_half x)) (laws.small16 (to_half x))
        ∙ ap (λ h. ok (widen (of_half h))) (laws.of_bits16-bits16 (to_half x))
        ∙ ap (λ y. ok (widen y)) (laws.exact32 x e))
    | inr e ↦ rw e (
        get_float64-float32 (bits32 x) (laws.small32 x)
        ∙ ap (λ y. ok (widen y)) (laws.of_bits32-bits32 x))
  ]

  -- `GetFloat64` gives a number back from what `Float64` has made of it, in two, four or eight bytes
  -- less the zeros at their end.
  pub get_float64-float64 :
      (val : Float64) → IsFloats → is_nan val ≡ false → get_float64 f (float64 f val) ≡ ok val
  unfolding float64
  get_float64-float64 val laws number = elim (Bool-cases (equal64 (widen (narrow val)) val)) [
    | inl e ↦
        rw (number, e) (get_float64-float32_val laws (narrow val) ∙ ap ok (laws.exact64 val e))
    | inr e ↦
        rw (number, e)
          (get_float64-float64_bits (bits64 val) (laws.small64 val)
            ∙ ap ok (laws.of_bits64-bits64 val))
  ]
