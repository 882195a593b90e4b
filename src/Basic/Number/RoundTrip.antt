-- ===== src/Basic/Number/RoundTrip.antt =====
-- The integers of a value come back from it.
use dbuf_demo_go.Common.{ℕ, ◌+◌, ◌/◌, ◌^◌, ◌<◌, ◌≡◌, refl, ap, ◌∙◌, arith}
use dbuf_demo_go.Common.{
  IsU64, to_byte, leb→lt, ◌==◌, false, IsByte, [], ◌∷◌, Bytes, Bool-cases, inl, inr, leb,
}
use dbuf_demo_go.Basic.Const.{max_u32}
use dbuf_demo_go.Basic.Error.{ok}
use dbuf_demo_go.Basic.Number.{big_endian, leading, signed_integer, uint64}
use dbuf_demo_go.Basic.Number.{shift_bytes, rejects_u64, get_u64}

shift_zero : (b : Bytes) → shift_bytes 0 (0 ∷ b) ≡ shift_bytes 0 b
unfolding shift_bytes
shift_zero b = refl

pub shift_bytes-big_endian : (val : ℕ) → IsU64 val → shift_bytes 0 (big_endian val) ≡ val
unfolding shift_bytes
shift_bytes-big_endian val h = omega arith

pub shift_zero_front : (a : ℕ) (b : Bytes) → a ≡ 0 → shift_bytes 0 (a ∷ b) ≡ shift_bytes 0 b
shift_zero_front a b e = rw e (shift_zero b)

==_ne : (d : ℕ) → 0 < d → (d == 0) ≡ false
==_ne d h = ground arith

module _ (a b c d e f g h : ℕ) where
  bytes8 : Bytes
  bytes8 = a ∷ b ∷ c ∷ d ∷ e ∷ f ∷ g ∷ h ∷ []

  -- A byte among the first four is not 0.
  get_u64-signed :
      IsByte a
      → IsByte b
      → IsByte c
      → IsByte d
      → 0 < a + b + c + d
      → get_u64 (signed_integer (leading 0 7 bytes8) bytes8) ≡ ok (shift_bytes 0 bytes8)
  unfolding bytes8 signed_integer leading get_u64 rejects_u64
  get_u64-signed ha hb hc hd k = elim (Bool-cases (a == 0)) [
    | inr p ↦ rw p (ground arith)
    | inl p ↦ rw p (elim (Bool-cases (b == 0)) [
      | inr q ↦ rw q (ground (arith, shift_zero_front a (b ∷ c ∷ d ∷ e ∷ f ∷ g ∷ h ∷ [])))
      | inl q ↦ rw q (elim (Bool-cases (c == 0)) [
        | inr r ↦ rw r (
            ground (
              arith,
              shift_zero_front a (b ∷ c ∷ d ∷ e ∷ f ∷ g ∷ h ∷ []),
              shift_zero_front b (c ∷ d ∷ e ∷ f ∷ g ∷ h ∷ []),
            ))
        | inl r ↦
            rw (r, ==_ne d (ground arith))
              (ground (
                arith,
                shift_zero_front a (b ∷ c ∷ d ∷ e ∷ f ∷ g ∷ h ∷ []),
                shift_zero_front b (c ∷ d ∷ e ∷ f ∷ g ∷ h ∷ []),
                shift_zero_front c (d ∷ e ∷ f ∷ g ∷ h ∷ []),
              ))
      ])
    ])
  ]

-- A uint64 comes back from its value.
pub get_u64-uint64 : (val : ℕ) → IsU64 val → get_u64 (uint64 val) ≡ ok val
unfolding uint64 bytes8
get_u64-uint64 val h = elim (Bool-cases (leb val max_u32)) [
  | inl small ↦ rw small (unfold get_u64 in refl)
  | inr large ↦ rw large (
      get_u64-signed (to_byte (val / 2 ^ 56)) (to_byte (val / 2 ^ 48)) (to_byte (val / 2 ^ 40))
        (to_byte (val / 2 ^ 32)) (to_byte (val / 2 ^ 24)) (to_byte (val / 2 ^ 16))
        (to_byte (val / 2 ^ 8)) (to_byte val) (omega arith) (omega arith) (omega arith)
        (omega arith) (omega (arith, leb→lt _ _ large))
      ∙ ap ok (shift_bytes-big_endian val h))
]
