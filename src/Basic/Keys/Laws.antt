-- ===== src/Basic/Keys/Laws.antt =====
-- What the searches for keys find, in terms of the pairs of a key and a value.

use dbuf_demo_go.Common.{ℕ, suc, ◌+◌, ◌%◌, ◌≡◌, ◌≢◌, ◌↔◌, refl, arith, true, false}
use dbuf_demo_go.Common.{
  if◌then◌else◌, List, [], ◌∷◌, Bytes, Option, none, some, length, Bool-cases,
}
use dbuf_demo_go.Common.{inl, inr, All, lt→ltb, le→ltb}
use dbuf_demo_go.Basic.Val.{DbufVal, DbufValString, to_dbuf_val_string}
use dbuf_demo_go.Basic.Compare.{equal}
use dbuf_demo_go.Basic.Keys.{bytes_equal, key_equal, has_key, validate_from, validate_keys_unique}
use dbuf_demo_go.Basic.Keys.{find_from, find_key}

pub bytes_equal→eq : (a b : Bytes) → bytes_equal a b ≡ true → a ≡ b
unfolding bytes_equal
bytes_equal→eq [] [] h = refl
bytes_equal→eq [] (y ∷ b) h = cc
bytes_equal→eq (x ∷ a) [] h = cc
bytes_equal→eq (x ∷ a) (y ∷ b) h = ground (arith, bytes_equal→eq a b)

pub bytes_equal_self : (a : Bytes) → bytes_equal a a ≡ true
unfolding bytes_equal
bytes_equal_self [] = refl
bytes_equal_self (x ∷ a) = ground (arith, bytes_equal_self a)

pub key_equal→eq : (a b : DbufValString) → key_equal a b ≡ true → a ≡ b
unfolding key_equal
key_equal→eq a b h = ground (arith, bytes_equal→eq a.string b.string)

pub key_equal_self : (a : DbufValString) → key_equal a a ≡ true
unfolding key_equal
key_equal_self a = ground (arith, bytes_equal_self a.string)

-- The keys of a sequence, in the order of the stream.
abbrev pub keys : List DbufVal → List DbufValString
keys [] = []
keys (k ∷ []) = to_dbuf_val_string k ∷ []
keys (k ∷ v ∷ seq) = to_dbuf_val_string k ∷ keys seq

-- No key of the list is one of `m`, and no two of the list are the same.
abbrev pub AreNew : List DbufValString → List DbufValString → Type 0
AreNew m [] = Unit {0}
AreNew m (k ∷ ks) = All (λ j. j ≢ k) m × AreNew (k ∷ m) ks

has_key→All :
    (m : List DbufValString) (k : DbufValString) → has_key m k ≡ false → All (λ j. j ≢ k) m
unfolding has_key
has_key→All [] k h = tt
has_key→All (j ∷ m) k h = elim (Bool-cases (key_equal j k)) [
  | inl same ↦ absurd (ground arith)
  | inr other ↦ ((λ e. cc (key_equal_self k)), has_key→All m k (ground arith))
]

All→has_key :
    (m : List DbufValString) (k : DbufValString) → All (λ j. j ≢ k) m → has_key m k ≡ false
unfolding has_key
All→has_key [] k h = refl
All→has_key (j ∷ m) k h = elim (Bool-cases (key_equal j k)) [
  | inl same ↦ absurd (h.0 (key_equal→eq j k same))
  | inr other ↦ rw other (All→has_key m k h.1)
]

validate_from_iff :
    (m : List DbufValString) (seq : List DbufVal)
    → (validate_from m seq ≡ none) ↔ AreNew m (keys seq)
unfolding validate_from
validate_from_iff m [] = ((λ _. tt), λ _. refl)
validate_from_iff m (k ∷ []) = elim (Bool-cases (has_key m (to_dbuf_val_string k))) [
  | inl old ↦ rw old ((λ e. cc), λ new. cc (All→has_key m (to_dbuf_val_string k) new.0))
  | inr new ↦ rw new ((λ _. (has_key→All m _ new, tt)), λ _. refl)
]
validate_from_iff m (k ∷ v ∷ seq) = elim (Bool-cases (has_key m (to_dbuf_val_string k))) [
  | inl old ↦ rw old ((λ e. cc), λ new. cc (All→has_key m (to_dbuf_val_string k) new.0))
  | inr new ↦
      let (forth, back) = validate_from_iff (to_dbuf_val_string k ∷ m) seq in
      rw new ((λ e. (has_key→All m _ new, forth e)), λ h. back h.1)
]

-- `ValidateKeysUnique` reports no error exactly when no two keys of the sequence, the elements at its
-- even positions, are the same.
pub validate_keys_unique_iff :
    (seq : List DbufVal) → (validate_keys_unique seq ≡ none) ↔ AreNew [] (keys seq)
unfolding validate_keys_unique
validate_keys_unique_iff seq = validate_from_iff [] seq

-- The position of the first key that equals `val` and has a value behind it, counted from `i`.
abbrev pub first_pair : ℕ → List DbufVal → DbufVal → Option ℕ
first_pair i [] val = none
first_pair i (k ∷ []) val = none
first_pair i (k ∷ v ∷ seq) val =
    let rest = first_pair (suc (suc i)) seq val in if equal k val then some i else rest

find_from-first_pair :
    (i n : ℕ) (seq : List DbufVal) (val : DbufVal)
    → i % 2 ≡ 0
    → i + length seq ≡ n
    → find_from i n seq val ≡ first_pair i seq val
unfolding find_from
find_from-first_pair i n [] val h e = refl
find_from-first_pair i n (k ∷ []) val h e = rw (le→ltb (i + 1) n (omega arith)) (ground arith)
find_from-first_pair i n (k ∷ v ∷ seq) val h e =
    let ih = find_from-first_pair (suc (suc i)) n seq val (omega arith) (omega arith) in
    let odd : suc i % 2 ≡ 1 = omega arith in rw (lt→ltb (i + 1) n (omega arith)) (ground arith)

-- `FindKey` gives the position of the first key that equals `val` and has a value behind it.
pub find_key-first_pair :
    (seq : List DbufVal) (val : DbufVal) → find_key seq val ≡ first_pair 0 seq val
unfolding find_key
find_key-first_pair seq val =
    find_from-first_pair 0 (length seq) seq val (omega arith) (omega arith)
