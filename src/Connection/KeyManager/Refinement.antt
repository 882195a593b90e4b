-- ===== src/Connection/KeyManager/Refinement.antt =====
-- `TestKeyManager` as the state machines of Connection/KeyManager/Spec.antt, one for each authority.
use dbuf_demo_go.Common.{◌≡◌, refl, ◌∙◌, ap, sym, true, false, if◌then◌else◌, inl, inr, Bool-cases}
use dbuf_demo_go.Common.{Option, none, some, Bytes}
use dbuf_demo_go.Common.Dict
use dbuf_demo_go.Common.Dict.{Dict, get-put_self, get-put_ne}
use dbuf_demo_go.Basic.Val.{DbufValSeq}
use dbuf_demo_go.Basic.Error.{Result, ok, err, panic, stuck}
use dbuf_demo_go.Basic.Encode.{encode_full_seq}
use dbuf_demo_go.Basic.Keys.{bytes_equal}
use dbuf_demo_go.Basic.Keys.Equality.{bytes_eq}
use dbuf_demo_go.Protocol.Action.{Action, pure, ◌>>=◌}
use dbuf_demo_go.Connection.KeyManager.{
  KeyInit, TestKeyManager, data_change, put_key, create_key, get_key, init_identity, get_signature,
  Generated,
}
use dbuf_demo_go.Connection.KeyManager.Spec.{
  Status, absent, created, identified, Call, create, identify, ask_key, ask_signature, Answer,
  key_made, done, key, signature, Key, answer,
}

abbrev pub key_part : KeyInit → Key
key_part ki = record {
  key_id = ki.key_id;
  public_key_data = ki.public_key_data;
  private_key = ki.private_key;
}

abbrev pub status_of : Option KeyInit → Status
status_of none = absent
status_of (some ki) =
    if ki.has_identity then identified (key_part ki) ki.identity else created (key_part ki)

-- The status of the authority with the encoded reference `k`.
abbrev pub status : TestKeyManager → Bytes → Status
status m k = status_of (Dict.get m.keys k)

module _ (sign : Bytes → Bytes → Bytes) where
  -- A call for the authority of a reference.
  abbrev pub run : Call → DbufValSeq → Action TestKeyManager Answer
  run (create g) ref = do made ← create_key g ref; pure (key_made made)
  run (identify i) ref = do u ← init_identity ref i; pure (done u)
  run ask_key ref = do k ← get_key ref; pure (key k)
  run (ask_signature m) ref = do s ← get_signature sign ref m; pure (signature s)

  pub keys-data_change : (m : TestKeyManager) → (data_change m).keys ≡ m.keys
  keys-data_change m = elim (Bool-cases m.has_data_change_func) [ inl e ↦ rw e | inr e ↦ rw e ]

  get-put_key :
      (m : TestKeyManager) (k : Bytes) (ki : KeyInit) → Dict.get ((put_key k ki m).keys) k ≡ some ki
  get-put_key m k ki =
      ap (λ d. Dict.get d k) (keys-data_change (record m { keys = Dict.put m.keys k ki }))
      ∙ get-put_self m.keys k ki

  -- What is said of a call with the answer and the key manager in `r`, for the key `k`.
  pub record IsAnswered (m : TestKeyManager) (k : Bytes) (c : Call)
      (r : Result Answer × TestKeyManager) : Type 0 where
    pub same_answer : r.0 ≡ (answer sign c (status m k)).0
    pub same_status : status r.1 k ≡ (answer sign c (status m k)).1
    pub others_kept :
        (q : Bytes) → bytes_equal k q ≡ false → Dict.get (r.1.keys) q ≡ Dict.get m.keys q

  -- A call that leaves the key manager as it is.
  unchanged :
      (m : TestKeyManager) (k : Bytes) (c : Call) (a : Result Answer)
      → answer sign c (status m k) ≡ (a, status m k)
      → IsAnswered m k c (a, m)
  unchanged m k c a e = record {
    same_answer = sym (ap (λ (p : Result Answer × Status). p.0) e);
    same_status = sym (ap (λ (p : Result Answer × Status). p.1) e);
    others_kept = λ q d. refl;
  }

  -- A call that puts a key into the map.
  changed :
      (m : TestKeyManager) (k : Bytes) (c : Call) (a : Answer) (ki : KeyInit)
      → answer sign c (status m k) ≡ (ok a, status_of (some ki))
      → IsAnswered m k c (ok a, put_key k ki m)
  changed m k c a ki e = record {
    same_answer = sym (ap (λ (p : Result Answer × Status). p.0) e);
    same_status =
        ap status_of (get-put_key m k ki) ∙ sym (ap (λ (p : Result Answer × Status). p.1) e);
    others_kept = λ q d.
        ap (λ d'. Dict.get d' q) (keys-data_change (record m { keys = Dict.put m.keys k ki }))
        ∙ get-put_ne m.keys k q ki d;
  }

  -- A case for each status of the authority.
  by_status :
      (o : Option KeyInit) (P : Type 0)
      → (o ≡ none → P)
      → ((ki : KeyInit) → o ≡ some ki → ki.has_identity ≡ false → P)
      → ((ki : KeyInit) → o ≡ some ki → ki.has_identity ≡ true → P)
      → P
  by_status none P x y z = x refl
  by_status (some ki) P x y z = elim (Bool-cases ki.has_identity) [
    | inl f ↦ z ki refl f
    | inr f ↦ y ki refl f
  ]

  create-IsAnswered :
      (m : TestKeyManager) (g : Result Generated) (ref : DbufValSeq) (k : Bytes)
      → encode_full_seq ref ≡ ok k
      → IsAnswered m k (create g) (run (create g) ref m)
  unfolding create_key
  create-IsAnswered m g ref k h =
      by_status (Dict.get m.keys k) _ (λ e. fresh g e)
        (λ ki e f. rw (h, e) (unchanged m k (create g) _ (rw (e, f) refl)))
        (λ ki e f. rw (h, e) (unchanged m k (create g) _ (rw (e, f) refl)))
    where
      fresh :
          (g : Result Generated)
          → Dict.get m.keys k ≡ none
          → IsAnswered m k (create g) (run (create g) ref m)
      fresh (ok pair) e = rw (h, e) (changed m k (create (ok pair)) _ _ (rw e refl))
      fresh (err x) e = rw (h, e) (unchanged m k (create (err x)) _ (rw e refl))
      fresh panic e = rw (h, e) (unchanged m k (create panic) _ (rw e refl))
      fresh stuck e = rw (h, e) (unchanged m k (create stuck) _ (rw e refl))

  -- A call for an authority whose reference is encoded as `k` answers what the state machine of `k`
  -- answers, moves that machine as it says, and leaves the keys of the others as they are.
  pub run-IsAnswered :
      (m : TestKeyManager) (c : Call) (ref : DbufValSeq) (k : Bytes)
      → encode_full_seq ref ≡ ok k
      → IsAnswered m k c (run c ref m)
  unfolding init_identity get_key get_signature
  run-IsAnswered m (create g) ref k h = create-IsAnswered m g ref k h
  run-IsAnswered m (identify i) ref k h =
      by_status (Dict.get m.keys k) _ (λ e. rw (h, e) (unchanged m k (identify i) _ (rw e refl)))
        (λ ki e f. rw (h, e, f) (changed m k (identify i) _ _ (rw (e, f) refl)))
        (λ ki e f. rw (h, e, f) (unchanged m k (identify i) _ (rw (e, f) refl)))
  run-IsAnswered m ask_key ref k h =
      by_status (Dict.get m.keys k) _ (λ e. rw (h, e) (unchanged m k ask_key _ (rw e refl)))
        (λ ki e f. rw (h, e, f) (unchanged m k ask_key _ (rw (e, f) refl)))
        (λ ki e f. rw (h, e, f) (unchanged m k ask_key _ (rw (e, f) refl)))
  run-IsAnswered m (ask_signature t) ref k h =
      by_status (Dict.get m.keys k) _
        (λ e. rw (h, e) (unchanged m k (ask_signature t) _ (rw e refl)))
        (λ ki e f. rw (h, e) (unchanged m k (ask_signature t) _ (rw (e, f) refl)))
        (λ ki e f. rw (h, e) (unchanged m k (ask_signature t) _ (rw (e, f) refl)))
