-- ===== src/Basic/Number/Signed.antt =====
-- An int64 comes back from its value.
use dbuf_demo_go.Common.{ℕ, ◌+◌, ◌-◌, ◌*◌, ◌/◌, ◌^◌, ◌≤◌, ◌<◌, ◌≡◌, ◌≢◌, refl, ap, ◌∙◌, arith}
use dbuf_demo_go.Common.{IsU64, IsByte, ◌==◌, false, [], ◌∷◌, Bytes, Bool-cases, inl, inr, leb}
use dbuf_demo_go.Common.{to_byte, leb→lt, leb→le, ==_iff}
use dbuf_demo_go.Basic.Const.{max_u32}
use dbuf_demo_go.Basic.Error.{ok}
use dbuf_demo_go.Basic.Number.{big_endian, leading, signed_integer, int64, negative_integer}
use dbuf_demo_go.Basic.Number.{is_negative, shift_bytes, rejects_i64, get_i64}
use dbuf_demo_go.Basic.Number.RoundTrip.{shift_zero_front, shift_bytes-big_endian}

shift_ff : (b : Bytes) → shift_bytes (2 ^ 64 - 1) (0xff ∷ b) ≡ shift_bytes (2 ^ 64 - 1) b
unfolding shift_bytes
shift_ff b = refl

-- A leading 0xff changes nothing about a negative number.
shift_ff_front :
    (a : ℕ) (b : Bytes) → a ≡ 0xff → shift_bytes (2 ^ 64 - 1) (a ∷ b) ≡ shift_bytes (2 ^ 64 - 1) b
shift_ff_front a b e = rw e (shift_ff b)

shift_bytes-negative : (val : ℕ) → IsU64 val → shift_bytes (2 ^ 64 - 1) (big_endian val) ≡ val
unfolding shift_bytes
shift_bytes-negative val h = omega arith

==_ne : (m n : ℕ) → m ≢ n → (m == n) ≡ false
==_ne m n h = ground arith

module _ (a b c d e f g h : ℕ) where
  bytes8 : Bytes
  bytes8 = a ∷ b ∷ c ∷ d ∷ e ∷ f ∷ g ∷ h ∷ []

  get_i64-signed :
      a < 128
      → IsByte b
      → IsByte c
      → IsByte d
      → 0 < a + b + c + d
      → get_i64 (signed_integer (leading 0 7 bytes8) bytes8) ≡ ok (shift_bytes 0 bytes8)
  unfolding bytes8 signed_integer leading get_i64 rejects_i64
  get_i64-signed ha hb hc hd k =
      let fa = shift_zero_front a (b ∷ c ∷ d ∷ e ∷ f ∷ g ∷ h ∷ []) in
      let fb = shift_zero_front b (c ∷ d ∷ e ∷ f ∷ g ∷ h ∷ []) in
      let fc = shift_zero_front c (d ∷ e ∷ f ∷ g ∷ h ∷ []) in
      elim (Bool-cases (a == 0)) [
        | inr p ↦ rw p (ground arith)
        | inl p ↦ rw p (elim (Bool-cases (b == 0)) [
          | inr q ↦ rw q (ground arith)
          | inl q ↦ rw q (elim (Bool-cases (c == 0)) [
            | inr r ↦ rw r (ground arith)
            | inl r ↦
                rw
                  (
                    r,
                    ==_ne d 0 (omega (arith, (==_iff a 0).0 p, (==_iff b 0).0 q, (==_iff c 0).0 r)),
                  )
                  (ground arith)
          ])
        ])
      ]

  get_i64-negative :
      128 ≤ a
      → IsByte a
      → IsByte b
      → IsByte c
      → IsByte d
      → IsByte e
      → IsByte f
      → IsByte g
      → IsByte h
      → a + b + c + d + e + f + g + h < 8 * 255
      → get_i64 (negative_integer (leading 0xff 7 bytes8) bytes8)
        ≡ ok (shift_bytes (2 ^ 64 - 1) bytes8)
  unfolding bytes8 negative_integer leading get_i64 rejects_i64
  get_i64-negative la ha hb hc hd he hf hg hh k =
      let fa = shift_ff_front a (b ∷ c ∷ d ∷ e ∷ f ∷ g ∷ h ∷ []) in
      let fb = shift_ff_front b (c ∷ d ∷ e ∷ f ∷ g ∷ h ∷ []) in
      let fc = shift_ff_front c (d ∷ e ∷ f ∷ g ∷ h ∷ []) in
      let fd = shift_ff_front d (e ∷ f ∷ g ∷ h ∷ []) in
      let fe = shift_ff_front e (f ∷ g ∷ h ∷ []) in
      let ff = shift_ff_front f (g ∷ h ∷ []) in
      let fg = shift_ff_front g (h ∷ []) in
      elim (Bool-cases (a == 0xff)) [
        | inr p ↦ rw p (ground arith)
        | inl p ↦ rw p (elim (Bool-cases (b == 0xff)) [
          | inr q ↦ rw q (ground arith)
          | inl q ↦ rw q (elim (Bool-cases (c == 0xff)) [
            | inr r ↦ rw r (ground arith)
            | inl r ↦ rw r (elim (Bool-cases (d == 0xff)) [
              | inr s ↦ rw s (ground arith)
              | inl s ↦ rw s (elim (Bool-cases (e == 0xff)) [
                | inr t ↦ rw t (ground arith)
                | inl t ↦ rw t (elim (Bool-cases (f == 0xff)) [
                  | inr u ↦ rw u (ground arith)
                  | inl u ↦ rw u (elim (Bool-cases (g == 0xff)) [
                    | inr v ↦ rw v (ground arith)
                    | inl v ↦ rw v (ground arith)
                  ])
                ])
              ])
            ])
          ])
        ])
      ]

-- The bytes of a negative number other than -1.
negative_bytes :
    (val : ℕ)
    → IsU64 val
    → 2 ^ 63 ≤ val
    → val ≢ 2 ^ 64 - 1
    → get_i64 (negative_integer (leading 0xff 7 (big_endian val)) (big_endian val)) ≡ ok val
unfolding bytes8
negative_bytes val h neg ne =
    get_i64-negative (to_byte (val / 2 ^ 56)) (to_byte (val / 2 ^ 48)) (to_byte (val / 2 ^ 40))
      (to_byte (val / 2 ^ 32)) (to_byte (val / 2 ^ 24)) (to_byte (val / 2 ^ 16))
      (to_byte (val / 2 ^ 8)) (to_byte val) (omega arith) (omega arith) (omega arith) (omega arith)
      (omega arith) (omega arith) (omega arith) (omega arith) (omega arith) (omega arith)
    ∙ ap ok (shift_bytes-negative val h)

positive_bytes :
    (val : ℕ)
    → val < 2 ^ 63
    → max_u32 < val
    → get_i64 (signed_integer (leading 0 7 (big_endian val)) (big_endian val)) ≡ ok val
unfolding bytes8
positive_bytes val h large =
    get_i64-signed (to_byte (val / 2 ^ 56)) (to_byte (val / 2 ^ 48)) (to_byte (val / 2 ^ 40))
      (to_byte (val / 2 ^ 32)) (to_byte (val / 2 ^ 24)) (to_byte (val / 2 ^ 16))
      (to_byte (val / 2 ^ 8)) (to_byte val) (omega arith) (omega arith) (omega arith) (omega arith)
      (omega arith)
    ∙ ap ok (shift_bytes-big_endian val (omega arith))

-- An int64, given as its bit pattern, comes back from its value.
pub get_i64-int64 : (val : ℕ) → IsU64 val → get_i64 (int64 val) ≡ ok val
unfolding int64
get_i64-int64 val h = elim (Bool-cases (is_negative val)) [
  | inl neg ↦ elim (Bool-cases (val == 2 ^ 64 - 1)) [
    | inl one ↦
        rw (neg, one) (unfold get_i64 in (ap ok (omega (arith, (==_iff val (2 ^ 64 - 1)).0 one))))
    | inr other ↦
        rw (neg, other)
          (negative_bytes val h (leb→le _ _ neg) (λ e. cc ((==_iff val (2 ^ 64 - 1)).1 e)))
  ]
  | inr pos ↦ elim (Bool-cases (leb val max_u32)) [
    | inl small ↦ rw (pos, small) (unfold get_i64 in refl)
    | inr large ↦
        let below : val < 2 ^ 63 = leb→lt _ _ pos in
        rw (pos, large, ==_ne val (2 ^ 64 - 1) (omega arith))
          (positive_bytes val below (leb→lt _ _ large))
  ]
]
