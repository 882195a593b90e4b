-- ===== src/Protocol/Path/Split.antt =====
-- How `GetPathProperties` takes a reference apart.
use dbuf_demo_go.Common.{
  ℕ, suc, ◌≡◌, refl, ap, subst, ◌≤◌, ltb→le, Bool, true, false, not, ltb, ◌==◌,
}
use dbuf_demo_go.Common.{List, [], ◌∷◌, ◌++◌, Option, none, some, length, All, ◌⊎◌, inl, inr}
use dbuf_demo_go.Common.{Bool-cases, get_or}
use dbuf_demo_go.Basic.ParseType
use dbuf_demo_go.Basic.Val
use dbuf_demo_go.Basic.Val.{DbufVal, contents, to_dbuf_val_string}
use dbuf_demo_go.Basic.Error.{ok, GoError}
use dbuf_demo_go.Basic.Compare.{equal}
use dbuf_demo_go.Basic.Decode.{DecodedSequence, decode_sequence}
use dbuf_demo_go.Protocol.Names
use dbuf_demo_go.Protocol.Reader.{Gives, Gives-mono, if-Gives, bind-Gives, gives_ok}
use dbuf_demo_go.Protocol.Stream.{decoder}
use dbuf_demo_go.Protocol.Body.{Headers, lookup, zero_val}
use dbuf_demo_go.Protocol.Path.{PathProperties, reference_key, operation_key, values_of, items_of}
use dbuf_demo_go.Protocol.Path.{marker_index, split_at, reference_parts, read_reference}
use dbuf_demo_go.Protocol.Path.{operation_parts, read_operation, get_path_properties}

abbrev pub is_marker : DbufVal → Bool
is_marker v = equal v (Val.registry Names.authority_marker)

-- The authority is what stands before the first marker, and the path what stands behind it; without a
-- marker all is authority.
abbrev pub IsSplit : List DbufVal → PathProperties → Type 0
IsSplit sv p =
    All (λ v. is_marker v ≡ false) p.authority
    × (((sv ≡ p.authority) × (p.sub_path ≡ []))
        ⊎ ((m : DbufVal) × (is_marker m ≡ true) × (sv ≡ p.authority ++ m ∷ p.sub_path)))

marker_index-IsSplit : (sv : List DbufVal) → IsSplit sv (split_at sv (marker_index sv))
unfolding marker_index split_at
marker_index-IsSplit [] = (tt, inl (refl, refl))
marker_index-IsSplit (h ∷ sv) = elim (Bool-cases (is_marker h)) [
  | inl e ↦ rw e (tt, inr (h, e, refl))
  | inr e ↦ rw e (onward e (marker_index sv) (marker_index-IsSplit sv))
]
  where
    onward :
        is_marker h ≡ false
        → (o : Option ℕ) → IsSplit sv (split_at sv o)
        → IsSplit (h ∷ sv) (split_at (h ∷ sv) (elim o [ none ↦ none | some i ↦ some (suc i) ]))
    onward e none x = ((e, x.0), inl (refl, refl))
    onward e (some i) (before, inl (whole, nothing)) =
        ((e, before), inl (ap (λ t. h ∷ t) whole, nothing))
    onward e (some i) (before, inr (m, is, parts)) =
        ((e, before), inr (m, is, ap (λ t. h ∷ t) parts))

-- The items of the value `v` are those of its slice.
abbrev IsItemsOf : DbufVal → List DbufVal → Type 0
IsItemsOf v seq =
    (d : DecodedSequence) × (decode_sequence (decoder (contents v.slice)) ≡ ok d)
    × (d.error ≡ none)
    × (seq ≡ d.seq)

items_of-IsItemsOf : (key v : DbufVal) → Gives (IsItemsOf v) (items_of key v)
unfolding items_of
items_of-IsItemsOf key v =
    bind-Gives (IsItemsOf v) (decode_sequence (decoder (contents v.slice))) _
      (λ d e. values d e d.error refl)
  where
    values :
        (d : DecodedSequence)
        → decode_sequence (decoder (contents v.slice)) ≡ ok d
        → (o : Option GoError) → d.error ≡ o
        → Gives (IsItemsOf v) (values_of key o d.seq)
    values d e none e' = (d, e, e', refl)
    values d e (some x) e' = tt

-- The parts of a reference: its first item is the host, and it has a second.
abbrev pub IsReference : List DbufVal → PathProperties → Type 0
IsReference sv p =
    (equal (get_or sv 0 zero_val) (Val.registry Names.host) ≡ true) × (2 ≤ length sv) × IsSplit sv p

reference_parts-IsReference : (sv : List DbufVal) → Gives (IsReference sv) (reference_parts sv)
unfolding reference_parts
reference_parts-IsReference sv =
    if-Gives P (ltb (length sv) 1) _ _ (λ e. tt)
      (λ e.
        if-Gives P (not (equal (get_or sv 0 zero_val) (Val.registry Names.host))) _ _ (λ h. tt)
          (λ h.
            if-Gives P (ltb (length sv) 2) _ _ (λ l. tt)
              (λ l. (negated _ h, ltb→le (length sv) 2 l, marker_index-IsSplit sv))))
  where
    P : PathProperties → Type 0
    P = IsReference sv

    negated : (b : Bool) → not b ≡ false → b ≡ true
    negated true e = refl
    negated false e = absurd cc

-- The properties of a path for the value `v` of the header `reference`.
abbrev pub IsPathOf : DbufVal → PathProperties → Type 0
IsPathOf v p =
    (d : DecodedSequence) × (decode_sequence (decoder (contents v.slice)) ≡ ok d)
    × (d.error ≡ none)
    × IsReference d.seq p

read_reference-IsPathOf : (v : DbufVal) → Gives (IsPathOf v) (read_reference (some v))
unfolding read_reference
read_reference-IsPathOf v =
    if-Gives (IsPathOf v) (v.type == ParseType.array) _ _
      (λ a. bind-Gives (IsPathOf v) (items_of reference_key v) reference_parts (λ sv e.
        let (d, run, no_error, same) =
          gives_ok (IsItemsOf v) _ sv (items_of-IsItemsOf reference_key v) e in
        Gives-mono (IsReference sv) (IsPathOf v) (reference_parts sv)
          (λ p h. (d, run, no_error, subst (λ s. IsReference s p) same h))
          (reference_parts-IsReference sv)))
      (λ a. tt)

operation_parts-IsPathOf :
    (v : DbufVal) (out : PathProperties) (sv : List DbufVal)
    → IsPathOf v out
    → Gives (IsPathOf v) (operation_parts out sv)
unfolding operation_parts
operation_parts-IsPathOf v out [] h = tt
operation_parts-IsPathOf v out (id ∷ params) h =
    if-Gives (IsPathOf v) (id.type == ParseType.registry) _ _ (λ r. h) (λ r. tt)

-- The operation leaves the authority and the path alone.
read_operation-IsPathOf :
    (v : DbufVal) (out : PathProperties) (op : Option DbufVal)
    → IsPathOf v out
    → Gives (IsPathOf v) (read_operation out op)
unfolding read_operation
read_operation-IsPathOf v out none h = h
read_operation-IsPathOf v out (some op) h =
    if-Gives (IsPathOf v) (op.type == ParseType.registry) _ _ (λ r. h)
      (λ r.
        if-Gives (IsPathOf v) (op.type == ParseType.array) _ _
          (λ a.
            bind-Gives (IsPathOf v) (items_of operation_key op) _
              (λ sv e. operation_parts-IsPathOf v (record out { has_operation = true }) sv h))
          (λ a. tt))

-- If the headers have a `reference` and `GetPathProperties` returns no error, the bytes of the
-- reference decode to at least two items, of which the first is the host; the authority is what stands
-- before the first authority marker and the path what stands behind it, and without a marker all is
-- authority and the path is empty.
pub get_path_properties-IsPathOf :
    (headers : Headers) (v : DbufVal)
    → lookup headers (to_dbuf_val_string reference_key) ≡ some v
    → Gives (IsPathOf v) (get_path_properties headers)
unfolding get_path_properties
get_path_properties-IsPathOf headers v given = rw given (
    bind-Gives (IsPathOf v) (read_reference (some v)) _ (λ out e.
      read_operation-IsPathOf v out (lookup headers (to_dbuf_val_string operation_key))
        (gives_ok (IsPathOf v) _ out (read_reference-IsPathOf v) e)))
