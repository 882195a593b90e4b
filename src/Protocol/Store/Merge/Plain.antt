-- ===== src/Protocol/Store/Merge/Plain.antt =====
-- The merge of the headers of a request that has no reference of its own.
use dbuf_demo_go.Common.{ℕ, ◌≡◌, refl, ◌∙◌, subst, if◌then◌else◌, Bool-cases}
use dbuf_demo_go.Common.{List, [], ◌∷◌, Option, none, some, Option-cases, inl, inr}
use dbuf_demo_go.Common.Dict
use dbuf_demo_go.Common.Dict.{get-put_self, get-put_ne, beq_self}
use dbuf_demo_go.Basic.Val.{DbufVal, DbufValString, to_dbuf_val_string}
use dbuf_demo_go.Basic.Compare.{equal}
use dbuf_demo_go.Basic.Keys.{key_equal}
use dbuf_demo_go.Basic.Keys.Equality.{key_eq, key_equal_iff}
use dbuf_demo_go.Protocol.Reader.{Gives, Gives-mono}
use dbuf_demo_go.Protocol.Body.{Headers, lookup}
use dbuf_demo_go.Protocol.Path.{reference_key}
use dbuf_demo_go.Protocol.Store.Merge.{View, merge, reference_for}

-- The value of the first pair with the key `k`.
abbrev pub paired : List View → DbufValString → Option DbufVal
paired [] k = none
paired (h ∷ []) k = none
paired (h ∷ v ∷ views) k =
    let rest = paired views k in if key_equal (to_dbuf_val_string h.val) k then some v.val else rest

-- The headers `m'` are those of the request and the protected ones, and no key is in both.
abbrev pub IsUnion : Headers → List View → Headers → Type 0
IsUnion m views m' =
    (k : DbufValString)
    → (lookup m k ≡ none → lookup m' k ≡ paired views k)
      × ((v : DbufVal) → lookup m k ≡ some v → (lookup m' k ≡ some v) × (paired views k ≡ none))

no_reference : (h : DbufVal) → reference_for h none ≡ none
no_reference h = elim (Bool-cases (equal h reference_key)) [ inl e ↦ rw e | inr e ↦ rw e ]

-- A protected header that the request lacks is put into the headers.
put-IsUnion :
    (m m' : Headers) (h v : View) (views : List View)
    → lookup m (to_dbuf_val_string h.val) ≡ none
    → IsUnion (Dict.put m (to_dbuf_val_string h.val) v.val) views m'
    → IsUnion m (h ∷ v ∷ views) m'
put-IsUnion m m' h v views fresh u k = elim (Bool-cases (key_equal (to_dbuf_val_string h.val) k)) [
  | inl same ↦
      let eq : to_dbuf_val_string h.val ≡ k = (key_equal_iff _ k).0 same in
      (
        λ _.
            rw same
              ((u k).1 v.val (
                subst (λ q. lookup (Dict.put m (to_dbuf_val_string h.val) v.val) q ≡ some v.val) eq
                  (get-put_self m (to_dbuf_val_string h.val) v.val))).0,
        λ w found. absurd (cc (subst (λ q. lookup m q ≡ none) eq fresh)),
      )
  | inr other ↦
      let kept = get-put_ne m (to_dbuf_val_string h.val) k v.val other in
      (
        λ missing. rw other ((u k).0 (kept ∙ missing)),
        λ w found. rw other ((u k).1 w (kept ∙ found)),
      )
]

-- If the request has no reference, and the headers merge without an error: a key of the request has
-- the value of the request, any other key that of the first protected header with it, if there is
-- one, and no key is in both.
pub merge-IsUnion :
    (room : ℕ) (views : List View) (m : Headers)
    → Gives (IsUnion m views) (merge room none [] views m)
unfolding merge
merge-IsUnion room [] m = λ k. (λ missing. missing, λ v found. (found, refl))
merge-IsUnion room (h ∷ []) m =
    let no_ref = no_reference h.val in
    rw no_ref (elim (Option-cases (lookup m (to_dbuf_val_string h.val))) [
      | inl e ↦ rw e tt
      | inr (v, e) ↦ rw e tt
    ])
merge-IsUnion room (h ∷ v ∷ views) m =
    let no_ref = no_reference h.val in
    rw no_ref (elim (Option-cases (lookup m (to_dbuf_val_string h.val))) [
      | inl e ↦ rw e (
          Gives-mono (IsUnion (Dict.put m (to_dbuf_val_string h.val) v.val) views)
            (IsUnion m (h ∷ v ∷ views))
            (merge room none [] views (Dict.put m (to_dbuf_val_string h.val) v.val))
            (λ m' u. put-IsUnion m m' h v views e u)
            (merge-IsUnion room views (Dict.put m (to_dbuf_val_string h.val) v.val)))
      | inr (w, e) ↦ rw e tt
    ])
