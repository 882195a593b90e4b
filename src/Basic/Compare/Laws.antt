-- ===== src/Basic/Compare/Laws.antt =====
-- `Equal`, `SliceEqual` and `Compare`, beside the keys of the program's maps and an order of values.
use Prim.Native.Nat.{Ordering}
use dbuf_demo_go.Common.{
  ◌≡◌, ◌↔◌, ◌<◌, ℕ, refl, ap, subst, arith, true, ◌==◌, ltb, Bool-cases, inl, inr,
}
use dbuf_demo_go.Common.{List, [], ◌∷◌, Bytes, length, map, &&-eq_true}
use dbuf_demo_go.Basic.Val.{DbufVal, DbufValString, contents, to_dbuf_val_string}
use dbuf_demo_go.Basic.Compare.{compare_bytes, compare, is_eq, equal, slice_equal}

compare_bytes-eq : (a b : Bytes) → length a ≡ length b → compare_bytes a b ≡ Ordering.eq → a ≡ b
unfolding compare_bytes
compare_bytes-eq [] [] e h = refl
compare_bytes-eq [] (y ∷ b) e h = absurd (omega arith)
compare_bytes-eq (x ∷ a) [] e h = absurd (omega arith)
compare_bytes-eq (x ∷ a) (y ∷ b) e h = ground (arith, compare_bytes-eq a b (omega arith))

compare_bytes_self : (a : Bytes) → compare_bytes a a ≡ Ordering.eq
unfolding compare_bytes
compare_bytes_self [] = refl
compare_bytes_self (x ∷ a) = ground (arith, compare_bytes_self a)

-- `Equal` decides whether two values have the same map key: the same type, number and bytes, where
-- nil is as good as the empty slice.
pub equal_iff : (a b : DbufVal) → (equal a b ≡ true) ↔ (to_dbuf_val_string a ≡ to_dbuf_val_string b)
unfolding equal compare
equal_iff a b = (forth, back)
  where
    forth : is_eq (compare a b) ≡ true → to_dbuf_val_string a ≡ to_dbuf_val_string b
    forth h = ground (arith, compare_bytes-eq (contents a.slice) (contents b.slice))

    back : to_dbuf_val_string a ≡ to_dbuf_val_string b → is_eq (compare a b) ≡ true
    back e =
        let same_type : a.type ≡ b.type = ap (λ (k : DbufValString). k.type) e in
        let same_value : a.value ≡ b.value = ap (λ (k : DbufValString). k.value) e in
        let same_bytes : contents a.slice ≡ contents b.slice =
          ap (λ (k : DbufValString). k.string) e in
        ground (arith, ap length same_bytes, compare_bytes_self (contents b.slice))

slice_equal→keys :
    (a b : List DbufVal)
    → slice_equal a b ≡ true
    → map to_dbuf_val_string a ≡ map to_dbuf_val_string b
unfolding slice_equal
slice_equal→keys [] [] h = refl
slice_equal→keys [] (y ∷ b) h = cc
slice_equal→keys (x ∷ a) [] h = cc
slice_equal→keys (x ∷ a) (y ∷ b) h =
    let (first, rest) = &&-eq_true (equal x y) (slice_equal a b) h in
    cc ((equal_iff x y).0 first, slice_equal→keys a b rest)

keys→slice_equal :
    (a b : List DbufVal)
    → map to_dbuf_val_string a ≡ map to_dbuf_val_string b
    → slice_equal a b ≡ true
unfolding slice_equal
keys→slice_equal [] [] h = refl
keys→slice_equal [] (y ∷ b) h = cc
keys→slice_equal (x ∷ a) [] h = cc
keys→slice_equal (x ∷ a) (y ∷ b) h = rw ((equal_iff x y).1 (cc), keys→slice_equal a b (cc)) refl

-- `SliceEqual` decides whether two sequences have the same keys, one by one.
pub slice_equal_iff :
    (a b : List DbufVal)
    → (slice_equal a b ≡ true) ↔ (map to_dbuf_val_string a ≡ map to_dbuf_val_string b)
slice_equal_iff a b = (slice_equal→keys a b, keys→slice_equal a b)

abbrev pub flip : Ordering → Ordering
flip Ordering.lt = Ordering.gt
flip Ordering.eq = Ordering.eq
flip Ordering.gt = Ordering.lt

compare_bytes-flip :
    (a b : Bytes) → length a ≡ length b → compare_bytes b a ≡ flip (compare_bytes a b)
unfolding compare_bytes
compare_bytes-flip [] [] e = refl
compare_bytes-flip [] (y ∷ b) e = absurd (omega arith)
compare_bytes-flip (x ∷ a) [] e = absurd (omega arith)
compare_bytes-flip (x ∷ a) (y ∷ b) e = ground (arith, compare_bytes-flip a b)

-- `Compare` the other way round gives the other sign.
pub compare-flip : (a b : DbufVal) → compare b a ≡ flip (compare a b)
unfolding compare
compare-flip a b = ground (arith, compare_bytes-flip (contents a.slice) (contents b.slice))

-- Two sequences of bytes with a common start, and then a smaller byte in the first of them.
pub data IsLess : Bytes → Bytes → Type 0 where
  smaller : {x y : ℕ} (a b : Bytes) → x < y → IsLess (x ∷ a) (y ∷ b)
  same_byte : {a b : Bytes} (x : ℕ) → IsLess a b → IsLess (x ∷ a) (x ∷ b)

-- The order of values: by the type, then by the number, then by the length of the bytes, and then by
-- the first byte in which they differ.
pub data IsBefore (a b : DbufVal) : Type 0 where
  by_type : a.type < b.type → IsBefore a b
  by_value : a.type ≡ b.type → a.value < b.value → IsBefore a b
  by_length :
      a.type ≡ b.type
      → a.value ≡ b.value
      → length (contents a.slice) < length (contents b.slice)
      → IsBefore a b
  by_bytes :
      a.type ≡ b.type
      → a.value ≡ b.value
      → length (contents a.slice) ≡ length (contents b.slice)
      → IsLess (contents a.slice) (contents b.slice)
      → IsBefore a b

compare_bytes-IsLess :
    (a b : Bytes) → length a ≡ length b → compare_bytes a b ≡ Ordering.lt → IsLess a b
unfolding compare_bytes
compare_bytes-IsLess [] b e h = absurd cc
compare_bytes-IsLess (x ∷ a) [] e h = absurd (omega arith)
compare_bytes-IsLess (x ∷ a) (y ∷ b) e h = elim (Bool-cases (x == y)) [
  | inl same ↦
      let eq : x ≡ y = ground arith in
      let rest : compare_bytes a b ≡ Ordering.lt = ground arith in
      subst (λ z. IsLess (x ∷ a) (z ∷ b)) eq
        (same_byte x (compare_bytes-IsLess a b (omega arith) rest))
  | inr other ↦ let less : x < y = ground arith in smaller a b less
]

compare-IsBefore : (a b : DbufVal) → compare a b ≡ Ordering.lt → IsBefore a b
unfolding compare
compare-IsBefore a b h = elim (Bool-cases (ltb a.type b.type)) [
  | inl l ↦ by_type (ground arith)
  | inr l ↦
      let e : a.type ≡ b.type = ground arith in
      elim (Bool-cases (ltb a.value b.value)) [
        | inl m ↦ by_value e (ground arith)
        | inr m ↦
            let e' : a.value ≡ b.value = ground arith in
            elim (Bool-cases (ltb (length (contents a.slice)) (length (contents b.slice)))) [
              | inl k ↦ by_length e e' (ground arith)
              | inr k ↦
                  let e'' : length (contents a.slice) ≡ length (contents b.slice) = ground arith in
                  by_bytes e e' e''
                    (compare_bytes-IsLess (contents a.slice) (contents b.slice) e'' (ground arith))
            ]
      ]
]

-- What the sign that `Compare` gives says of two values.
abbrev pub Says : Ordering → DbufVal → DbufVal → Type 0
Says Ordering.lt a b = IsBefore a b
Says Ordering.eq a b = to_dbuf_val_string a ≡ to_dbuf_val_string b
Says Ordering.gt a b = IsBefore b a

compare-Says_of : (a b : DbufVal) (o : Ordering) → compare a b ≡ o → Says o a b
unfolding equal
compare-Says_of a b Ordering.lt h = compare-IsBefore a b h
compare-Says_of a b Ordering.eq h = (equal_iff a b).0 (rw h refl)
compare-Says_of a b Ordering.gt h = compare-IsBefore b a (rw (compare-flip a b, h) refl)

-- The sign of `Compare` is -1 if the first value is before the second by type, number, length and
-- bytes, in this order, 0 if they have the same map key, and 1 if the second is before the first.
pub compare-Says : (a b : DbufVal) → Says (compare a b) a b
compare-Says a b = compare-Says_of a b (compare a b) refl
