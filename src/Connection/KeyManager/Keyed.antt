-- ===== src/Connection/KeyManager/Keyed.antt =====
-- Every key of a `TestKeyManager` stands under the encoding of its own authority reference.
use dbuf_demo_go.Common.{◌≡◌, refl, sym, subst, ap, ◌∙◌, Bool-cases, inl, inr}
use dbuf_demo_go.Common.{Option, none, some, Bytes}
use dbuf_demo_go.Common.Dict
use dbuf_demo_go.Common.Dict.{Dict, get-put_self, get-put_ne}
use dbuf_demo_go.Basic.Val.{DbufValSeq}
use dbuf_demo_go.Basic.Error.{Result, ok}
use dbuf_demo_go.Basic.Encode.{encode_full_seq}
use dbuf_demo_go.Basic.Keys.{bytes_equal}
use dbuf_demo_go.Basic.Keys.Equality.{bytes_eq, bytes_equal_iff}
use dbuf_demo_go.Protocol.Action.{continue-keeps}
use dbuf_demo_go.Connection.KeyManager.{
  KeyInit, TestKeyManager, put_key, create_key, get_key, init_identity, get_signature, Generated,
  create_at, init_at,
}
use dbuf_demo_go.Connection.KeyManager.Spec.{Call, create, identify, ask_key, ask_signature}
use dbuf_demo_go.Connection.KeyManager.Refinement.{run, keys-data_change}
use dbuf_demo_go.Connection.KeyManager.Steps.{Reach, here, next}

abbrev pub IsKeyed : Dict Bytes KeyInit → Type 0
IsKeyed keys =
    (k : Bytes) (ki : KeyInit) → Dict.get keys k ≡ some ki → encode_full_seq ki.authority_ref ≡ ok k

pub some_injective {ℓ} : {A : Type ℓ} {a b : A} → some a ≡ some b → a ≡ b
some_injective e = cc

-- What a map has under `q` after a key was put under `k`.
pub put-IsKeyed :
    (keys : Dict Bytes KeyInit) (k : Bytes) (ki : KeyInit)
    → IsKeyed keys
    → encode_full_seq ki.authority_ref ≡ ok k
    → IsKeyed (Dict.put keys k ki)
put-IsKeyed keys k ki h e q kq found = elim (Bool-cases (bytes_equal k q)) [
  | inl same ↦
      let k≡q = (bytes_equal_iff k q).0 same in
      let here' : some ki ≡ some kq =
        sym (get-put_self keys k ki) ∙ ap (Dict.get (Dict.put keys k ki)) k≡q ∙ found in
      subst (λ (x : KeyInit). encode_full_seq x.authority_ref ≡ ok q) (some_injective here')
        (e ∙ ap ok k≡q)
  | inr other ↦ h q kq (sym (get-put_ne keys k q ki other) ∙ found)
]

module _ (sign : Bytes → Bytes → Bytes) where
  abbrev K : TestKeyManager → Type 0
  K m = IsKeyed m.keys

  put_key-IsKeyed :
      (m : TestKeyManager) (k : Bytes) (ki : KeyInit)
      → K m
      → encode_full_seq ki.authority_ref ≡ ok k
      → K (put_key k ki m)
  put_key-IsKeyed m k ki h e =
      subst IsKeyed (sym (keys-data_change sign (record m { keys = Dict.put m.keys k ki })))
        (put-IsKeyed m.keys k ki h e)

  create_at-IsKeyed :
      (g : Result Generated) (ref : DbufValSeq) (k : Bytes) (o : Option KeyInit)
      (m : TestKeyManager)
      → K m
      → encode_full_seq ref ≡ ok k
      → K (create_at g ref k o m).1
  create_at-IsKeyed g ref k none m h e =
      continue-keeps K _ g m h (λ pair e'. put_key-IsKeyed m k _ h e)
  create_at-IsKeyed g ref k (some ki) m h e = h

  init_at-IsKeyed :
      (id : DbufValSeq) (k : Bytes) (o : Option KeyInit) (m : TestKeyManager)
      → K m
      → Dict.get m.keys k ≡ o
      → K (init_at id k o m).1
  init_at-IsKeyed id k none m h e = h
  init_at-IsKeyed id k (some ki) m h e = elim (Bool-cases ki.has_identity) [
    | inl f ↦ rw f h
    | inr f ↦ rw f (put_key-IsKeyed m k _ h (h k ki e))
  ]

  run-IsKeyed : (c : Call) (ref : DbufValSeq) (m : TestKeyManager) → K m → K (run sign c ref m).1
  unfolding create_key init_identity get_key get_signature
  run-IsKeyed (create g) ref m h =
      continue-keeps K _ (create_key g ref m).0 _
        (continue-keeps K _ (encode_full_seq ref) m h
          (λ k e. create_at-IsKeyed g ref k (Dict.get m.keys k) m h e))
        (λ a e.
          continue-keeps K _ (encode_full_seq ref) m h
            (λ k e'. create_at-IsKeyed g ref k (Dict.get m.keys k) m h e'))
  run-IsKeyed (identify i) ref m h =
      continue-keeps K _ (init_identity ref i m).0 _
        (continue-keeps K _ (encode_full_seq ref) m h
          (λ k e. init_at-IsKeyed i k (Dict.get m.keys k) m h refl))
        (λ a e.
          continue-keeps K _ (encode_full_seq ref) m h
            (λ k e'. init_at-IsKeyed i k (Dict.get m.keys k) m h refl))
  run-IsKeyed ask_key ref m h =
      let inner : K (get_key ref m).1 = continue-keeps K _ (encode_full_seq ref) m h (λ k e. h) in
      continue-keeps K _ (get_key ref m).0 _ inner (λ a e. inner)
  run-IsKeyed (ask_signature t) ref m h =
      let inner : K (get_signature sign ref t m).1 =
        continue-keeps K _ (encode_full_seq ref) m h (λ k e. h) in
      continue-keeps K _ (get_signature sign ref t m).0 _ inner (λ a e. inner)

  pub Reach-IsKeyed : {m m' : TestKeyManager} → Reach sign m m' → IsKeyed m.keys → IsKeyed m'.keys
  Reach-IsKeyed here h = h
  Reach-IsKeyed (next {m' = m₁} r c ref) h = run-IsKeyed c ref m₁ (Reach-IsKeyed r h)
