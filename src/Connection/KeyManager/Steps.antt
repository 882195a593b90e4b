-- ===== src/Connection/KeyManager/Steps.antt =====
-- A `TestKeyManager` over a sequence of calls.
use dbuf_demo_go.Common.{◌≡◌, ◌⊎◌, inl, inr, refl, sym, subst, true, Bool-cases}
use dbuf_demo_go.Common.{Option, none, some, Bytes, List, ◌∷◌}
use dbuf_demo_go.Common.Dict
use dbuf_demo_go.Common.Dict.{Dict}
use dbuf_demo_go.Basic.Val.{DbufValSeq}
use dbuf_demo_go.Basic.Error.{Result, ok, err, panic, stuck}
use dbuf_demo_go.Basic.Encode.{encode_full_seq}
use dbuf_demo_go.Basic.Keys.{bytes_equal}
use dbuf_demo_go.Basic.Keys.Equality.{bytes_eq, bytes_equal_iff}
use dbuf_demo_go.Protocol.Action.{continue-keeps}
use dbuf_demo_go.Connection.KeyManager.{
  KeyInit, TestKeyManager, put_key, create_key, get_key, init_identity, get_signature, Generated,
  create_at, init_at,
}
use dbuf_demo_go.Connection.KeyManager.Spec.{
  Status, absent, created, identified, Call, create, identify, ask_key, ask_signature, Key, answer,
  created_of,
}
use dbuf_demo_go.Connection.KeyManager.Refinement.{
  status, status_of, run, IsAnswered, run-IsAnswered,
}

abbrev pub key_in : Status → Option Key
key_in absent = none
key_in (created k) = some k
key_in (identified k i) = some k

abbrev pub identity_in : Status → Option DbufValSeq
identity_in absent = none
identity_in (created k) = none
identity_in (identified k i) = some i

-- A key that is there stays, and so does an identity.
abbrev pub Extends : Status → Status → Type 0
Extends s s' =
    ((k : Key) → key_in s ≡ some k → key_in s' ≡ some k)
    × ((i : DbufValSeq) → identity_in s ≡ some i → identity_in s' ≡ some i)

module _ (sign : Bytes → Bytes → Bytes) where
  -- The states of a key manager that calls lead to.
  pub data Reach (m : TestKeyManager) : TestKeyManager → Type 0 where
    here : Reach m m
    next :
        {m' : TestKeyManager}
        → Reach m m'
        → (c : Call) (ref : DbufValSeq) → Reach m (run sign c ref m').1

  created_of-Extends : (g : Result Generated) → Extends absent (created_of g).1
  created_of-Extends (ok pair) = (λ k e. absurd cc, λ i e. absurd cc)
  created_of-Extends (err x) = (λ k e. e, λ i e. e)
  created_of-Extends panic = (λ k e. e, λ i e. e)
  created_of-Extends stuck = (λ k e. e, λ i e. e)

  answer-Extends : (c : Call) (s : Status) → Extends s (answer sign c s).1
  answer-Extends (create g) absent = created_of-Extends g
  answer-Extends (create g) (created k) = (λ k e. e, λ i e. e)
  answer-Extends (create g) (identified k i) = (λ k e. e, λ i e. e)
  answer-Extends (identify i) absent = (λ k e. e, λ i e. e)
  answer-Extends (identify i) (created k) = (λ k e. e, λ i e. absurd cc)
  answer-Extends (identify i) (identified k j) = (λ k e. e, λ i e. e)
  answer-Extends ask_key absent = (λ k e. e, λ i e. e)
  answer-Extends ask_key (created k) = (λ k e. e, λ i e. e)
  answer-Extends ask_key (identified k i) = (λ k e. e, λ i e. e)
  answer-Extends (ask_signature m) absent = (λ k e. e, λ i e. e)
  answer-Extends (ask_signature m) (created k) = (λ k e. e, λ i e. e)
  answer-Extends (ask_signature m) (identified k i) = (λ k e. e, λ i e. e)

  -- A call leaves the key manager as it is or puts one key into it.
  run-keeps :
      (P : TestKeyManager → Type 0) (m : TestKeyManager) (c : Call) (ref : DbufValSeq)
      → P m
      → ((k : Bytes) (ki : KeyInit) → encode_full_seq ref ≡ ok k → P (put_key k ki m))
      → P (run sign c ref m).1
  unfolding create_key init_identity get_key get_signature
  run-keeps P m (create g) ref h put =
      let inner : P (create_key g ref m).1 =
        continue-keeps P _ (encode_full_seq ref) m h (λ k e. at_key k e (Dict.get m.keys k)) in
      continue-keeps P _ (create_key g ref m).0 _ inner (λ a e. inner)
    where
      at_key :
          (k : Bytes)
          → encode_full_seq ref ≡ ok k
          → (o : Option KeyInit) → P (create_at g ref k o m).1
      at_key k e none = continue-keeps P _ g m h (λ pair e'. put k _ e)
      at_key k e (some ki) = h
  run-keeps P m (identify i) ref h put =
      let inner : P (init_identity ref i m).1 =
        continue-keeps P _ (encode_full_seq ref) m h (λ k e. at_key k e (Dict.get m.keys k)) in
      continue-keeps P _ (init_identity ref i m).0 _ inner (λ a e. inner)
    where
      at_key :
          (k : Bytes) → encode_full_seq ref ≡ ok k → (o : Option KeyInit) → P (init_at i k o m).1
      at_key k e none = h
      at_key k e (some ki) = elim (Bool-cases ki.has_identity) [
        | inl f ↦ rw f h
        | inr f ↦ rw f (put k _ e)
      ]
  run-keeps P m ask_key ref h put =
      let inner : P (get_key ref m).1 = continue-keeps P _ (encode_full_seq ref) m h (λ k e. h) in
      continue-keeps P _ (get_key ref m).0 _ inner (λ a e. inner)
  run-keeps P m (ask_signature t) ref h put =
      let inner : P (get_signature sign ref t m).1 =
        continue-keeps P _ (encode_full_seq ref) m h (λ k e. h) in
      continue-keeps P _ (get_signature sign ref t m).0 _ inner (λ a e. inner)

  -- A call for a reference that is not encoded leaves the key manager as it is.
  run-unencoded :
      (m : TestKeyManager) (c : Call) (ref : DbufValSeq)
      → ((k : Bytes) → ¬ (encode_full_seq ref ≡ ok k))
      → (run sign c ref m).1 ≡ m
  run-unencoded m c ref h = run-keeps (λ m'. m' ≡ m) m c ref refl (λ k ki e. absurd (h k e))

  run-Extends :
      (m : TestKeyManager) (c : Call) (ref : DbufValSeq) (q : Bytes)
      → Extends (status m q) (status (run sign c ref m).1 q)
  run-Extends m c ref q = by_encoding (encode_full_seq ref) refl
    where
      Goal : TestKeyManager → Type 0
      Goal m' = Extends (status m q) (status m' q)

      same : Goal m
      same = (λ k e. e, λ i e. e)

      encoded : (k : Bytes) → IsAnswered sign m k c (run sign c ref m) → Goal (run sign c ref m).1
      encoded k a = elim (Bool-cases (bytes_equal k q)) [
        | inl e ↦
            subst (λ k'. Extends (status m k') (status (run sign c ref m).1 k'))
              ((bytes_equal_iff k q).0 e)
              (subst (Extends (status m k)) (sym a.same_status) (answer-Extends c (status m k)))
        | inr e ↦ subst (λ o. Extends (status m q) (status_of o)) (sym (a.others_kept q e)) same
      ]

      by_encoding : (r : Result Bytes) → encode_full_seq ref ≡ r → Goal (run sign c ref m).1
      by_encoding (ok k) e = encoded k (run-IsAnswered sign m c ref k e)
      by_encoding (err x) e = subst Goal (sym (run-unencoded m c ref (λ k e'. cc))) same
      by_encoding panic e = subst Goal (sym (run-unencoded m c ref (λ k e'. cc))) same
      by_encoding stuck e = subst Goal (sym (run-unencoded m c ref (λ k e'. cc))) same

  pub Reach-Extends :
      {m m' : TestKeyManager} → Reach m m' → (q : Bytes) → Extends (status m q) (status m' q)
  Reach-Extends here q = (λ k e. e, λ i e. e)
  Reach-Extends (next {m'} r c ref) q =
      let (keys, ids) = Reach-Extends r q in
      let (keys', ids') = run-Extends m' c ref q in
      (λ k e. keys' k (keys k e), λ i e. ids' i (ids i e))

  -- The last call of `DataChangeFunc` had the keys as they are, unless they are as they were at first.
  abbrev pub IsReported : TestKeyManager → TestKeyManager → Type 0
  IsReported m m' =
      (m'.keys ≡ m.keys) ⊎ ((old : List (Dict Bytes KeyInit)) × (m'.data_changes ≡ m'.keys ∷ old))

  -- If `DataChangeFunc` is set: after any sequence of calls it has last been called with the keys as they
  -- are, unless they are as they were at first.
  pub Reach-IsReported :
      (m m' : TestKeyManager) → m.has_data_change_func ≡ true → Reach m m' → IsReported m m'
  Reach-IsReported m m' f r = (reported r).0
    where
      P : TestKeyManager → Type 0
      P m₁ = IsReported m m₁ × (m₁.has_data_change_func ≡ true)

      reported : {m₁ : TestKeyManager} → Reach m m₁ → P m₁
      reported here = (inl refl, f)
      reported (next {m' = m₁} r' c ref) =
          let h = reported r' in
          run-keeps P m₁ c ref h (λ k ki e. rw h.1 (inr (m₁.data_changes, refl), refl))
