-- ===== src/Common/Dict.antt =====
-- Go maps as association lists over a type of keys with an equality test. The order of the entries is
-- left open by Go, and nothing here depends on it.
use Prim.Native.Nat.{ℕ, ◌+◌, ◌≤◌}
use mathlib.Core.Path.{◌≡◌, refl, subst}
use mathlib.Core.Logic.{◌↔◌, inl, inr}
use mathlib.Core.Bool.{Bool, true, false}
use mathlib.Core.Option.{Option, none, some}
use mathlib.Core.List.{List, [], ◌∷◌}
use native.Mathlib.Omega.{arith}
use dbuf_demo_go.Common.Tests.{if◌then◌else◌, ◌==◌, ==_iff, Bool-cases}

pub record Eq {ℓ} (A : Type ℓ) : Type ℓ where
  pub beq : A → A → Bool
  pub beq_iff : (a b : A) → (beq a b ≡ true) ↔ (a ≡ b)

instance abbrev pub nat_eq : Eq ℕ
nat_eq = record { beq = ◌==◌; beq_iff = ==_iff }

abbrev pub Dict {ℓ κ} : Type ℓ → Type κ → Type (ℓ ⊔ κ)
Dict K V = List (K × V)

pub beq_self {ℓ} : {K : Type ℓ} ⦃e : Eq K⦄ (k : K) → e.beq k k ≡ true
beq_self ⦃e⦄ k = (e.beq_iff k k).1 refl

-- The measure of a value that may be missing, and is 0 then.
abbrev pub size_of {κ} : {V : Type κ} → (V → ℕ) → Option V → ℕ
size_of size none = 0
size_of size (some v) = size v

module _ {ℓ κ} {K : Type ℓ} {V : Type κ} ⦃e : Eq K⦄ where
  abbrev pub get : Dict K V → K → Option V
  get [] k = none
  get ((j, v) ∷ d) k = let rest = get d k in if e.beq j k then some v else rest

  -- `d[k] = v`
  abbrev pub put : Dict K V → K → V → Dict K V
  put [] k v = (k, v) ∷ []
  put ((j, w) ∷ d) k v = let rest = put d k v in if e.beq j k then (j, v) ∷ d else (j, w) ∷ rest

  pub get-put_self : (d : Dict K V) (k : K) (v : V) → get (put d k v) k ≡ some v
  get-put_self [] k v = rw (beq_self k)
  get-put_self ((j, w) ∷ d) k v = elim (Bool-cases (e.beq j k)) [
    | inl h ↦ rw (h, h)
    | inr h ↦ rw (h, h) (get-put_self d k v)
  ]

  pub get-put_ne :
      (d : Dict K V) (k q : K) (v : V) → e.beq k q ≡ false → get (put d k v) q ≡ get d q
  get-put_ne [] k q v h = rw h
  get-put_ne ((j, w) ∷ d) k q v h = elim (Bool-cases (e.beq j k)) [
    | inl same ↦ let eq : j ≡ k = (e.beq_iff j k).0 same in rw (same, eq, h) refl
    | inr other ↦ elim (Bool-cases (e.beq j q)) [
      | inl found ↦ rw (other, found)
      | inr onward ↦ rw (other, onward) (get-put_ne d k q v h)
    ]
  ]

  -- The sum of a measure of the values.
  abbrev pub sum : (V → ℕ) → Dict K V → ℕ
  sum size [] = 0
  sum size ((j, v) ∷ d) = size v + sum size d

  pub sum-put :
      (size : V → ℕ) (d : Dict K V) (k : K) (v : V)
      → sum size (put d k v) + size_of size (get d k) ≡ sum size d + size v
  sum-put size [] k v = omega arith
  sum-put size ((j, w) ∷ d) k v = elim (Bool-cases (e.beq j k)) [
    | inl h ↦ rw h (omega arith)
    | inr h ↦ rw h (omega (arith, sum-put size d k v))
  ]

  -- What holds of every value of a dictionary.
  abbrev pub AllValues {ι} : (V → Type ι) → Dict K V → Type ι
  AllValues P [] = Unit {ι}
  AllValues P ((j, v) ∷ d) = P v × AllValues P d

  pub put-AllValues {ι} :
      (P : V → Type ι) (d : Dict K V) (k : K) (v : V)
      → AllValues P d
      → P v
      → AllValues P (put d k v)
  put-AllValues P [] k v h p = (p, tt)
  put-AllValues P ((j, w) ∷ d) k v h p = elim (Bool-cases (e.beq j k)) [
    | inl same ↦ rw same (p, h.1)
    | inr other ↦ rw other (h.0, put-AllValues P d k v h.1 p)
  ]

  pub get-AllValues {ι} :
      (P : V → Type ι) (d : Dict K V) (k : K) (v : V) → AllValues P d → get d k ≡ some v → P v
  get-AllValues P [] k v h found = absurd cc
  get-AllValues P ((j, w) ∷ d) k v h found = elim (Bool-cases (e.beq j k)) [
    | inl same ↦
        let found' : some w ≡ some v = rw same at found in subst P (some_injective found') h.0
    | inr other ↦ get-AllValues P d k v h.1 (rw other at found)
  ]
    where
      some_injective : {a b : V} → some a ≡ some b → a ≡ b
      some_injective q = cc

  pub size_of-le-sum : (size : V → ℕ) (d : Dict K V) (k : K) → size_of size (get d k) ≤ sum size d
  size_of-le-sum size [] k = omega arith
  size_of-le-sum size ((j, w) ∷ d) k = elim (Bool-cases (e.beq j k)) [
    | inl h ↦ rw h (omega arith)
    | inr h ↦ rw h (omega (arith, size_of-le-sum size d k))
  ]
