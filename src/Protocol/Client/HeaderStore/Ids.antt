-- ===== src/Protocol/Client/HeaderStore/Ids.antt =====
-- The ids that `HeaderStoreState` keeps.
use dbuf_demo_go.Common.{
  ℕ, ◌+◌, ◌%◌, ◌^◌, ◌<◌, ◌≤◌, ◌≡◌, ◌⊎◌, inl, inr, ◌∙◌, sym, subst, arith, Bool-cases,
}
use dbuf_demo_go.Common.{Bytes, Option, none, some}
use dbuf_demo_go.Common.Dict
use dbuf_demo_go.Common.Dict.{get-put_self, get-put_ne, Dict}
use dbuf_demo_go.Basic.Val.{DbufValSeq}
use dbuf_demo_go.Basic.Encode.{encode_full_seq}
use dbuf_demo_go.Basic.Keys.{bytes_equal}
use dbuf_demo_go.Basic.Keys.Equality.{bytes_eq, bytes_equal_iff}
use dbuf_demo_go.Basic.Error.{Result, ok, err, panic, stuck}
use dbuf_demo_go.Protocol.Reader.{Reader}
use dbuf_demo_go.Protocol.Outside.{Outside}
use dbuf_demo_go.Protocol.Client.Keys.{KeyManager, ClientState}
use dbuf_demo_go.Protocol.Client.HeaderStore.{
  HeaderStoreState, make_header_store_state, header_created, header_for, encoded_for,
  get_header_store_header,
}

-- Every id is below `n`, and no two keys have the same.
abbrev pub AreUnique : Dict Bytes ℕ → ℕ → Type 0
AreUnique ids n =
    ((b : Bytes) (id : ℕ) → Dict.get ids b ≡ some id → id < n)
    × ((b b' : Bytes) (id : ℕ) → Dict.get ids b ≡ some id → Dict.get ids b' ≡ some id → b ≡ b')

-- Where the key of an id in a longer map comes from.
get-put_cases :
    (ids : Dict Bytes ℕ) (b q : Bytes) (n id : ℕ)
    → Dict.get (Dict.put ids b n) q ≡ some id
    → ((b ≡ q) × (id ≡ n)) ⊎ (Dict.get ids q ≡ some id)
get-put_cases ids b q n id e = elim (Bool-cases (bytes_equal b q)) [
  | inl same ↦
      let eq : b ≡ q = (bytes_equal_iff b q).0 same in
      let there : Dict.get (Dict.put ids b n) q ≡ some n =
        subst (λ x. Dict.get (Dict.put ids b n) x ≡ some n) eq (get-put_self ids b n) in
      inl (eq, cc)
  | inr other ↦ inr (sym (get-put_ne ids b q n other) ∙ e)
]

put-AreUnique :
    (ids : Dict Bytes ℕ) (b : Bytes) (n : ℕ)
    → AreUnique ids n
    → AreUnique (Dict.put ids b n) (n + 1)
put-AreUnique ids b n (below, unique) = (
  λ q id e. elim (get-put_cases ids b q n id e) [
    | inl (s, i) ↦ omega (arith, i)
    | inr f ↦ omega (arith, below q id f)
  ],
  λ q q' id e e'. elim (get-put_cases ids b q n id e) [
    | inl (s, i) ↦ elim (get-put_cases ids b q' n id e') [
      | inl (s', i') ↦ sym s ∙ s'
      | inr f' ↦ absurd (omega (arith, i, below q' id f'))
    ]
    | inr f ↦ elim (get-put_cases ids b q' n id e') [
      | inl (s', i') ↦ absurd (omega (arith, i', below q id f))
      | inr f' ↦ unique q q' id f f'
    ]
  ],
)

module _ (o : Outside) (km : KeyManager) where
  -- The states after `n` calls, with any headers and any streams.
  pub data Reach (s : HeaderStoreState o km) : ℕ → HeaderStoreState o km → Type 0 where
    here : Reach s 0 s
    next :
        {n : ℕ} {s' : HeaderStoreState o km}
        → Reach s n s'
        → (stream : Result (Bytes → Result Reader)) (headers : DbufValSeq)
        → Reach s (n + 1) (get_header_store_header o km stream headers s').1

  -- What is kept by `n` calls.
  abbrev pub IsKept : ℕ → HeaderStoreState o km → Type 0
  IsKept n s = AreUnique s.store_ids s.next_store_id × (s.next_store_id ≤ n)

  weaker : (n : ℕ) (s : HeaderStoreState o km) → IsKept n s → IsKept (n + 1) s
  weaker n s (u, l) = (u, omega arith)

  header_created-IsKept :
      (n : ℕ) (b : Bytes) (s : HeaderStoreState o km) (r : Result DbufValSeq × ClientState o km)
      → n + 1 < 2 ^ 64
      → IsKept n s
      → IsKept (n + 1) (header_created o km b s r).1
  header_created-IsKept n b s (ok h, client) bound (u, l) =
      let counted : (s.next_store_id + 1) % 2 ^ 64 ≡ s.next_store_id + 1 = omega arith in
      (
        subst (AreUnique (Dict.put s.store_ids b s.next_store_id)) (sym counted)
            (put-AreUnique s.store_ids b s.next_store_id u),
        omega (arith, counted, l),
      )
  header_created-IsKept n b s (err e, client) bound h = weaker n s h
  header_created-IsKept n b s (panic, client) bound h = weaker n s h
  header_created-IsKept n b s (stuck, client) bound h = weaker n s h

  header_for-IsKept :
      (n : ℕ) (stream : Result (Bytes → Result Reader)) (headers : DbufValSeq) (b : Bytes)
      (known : Option ℕ) (s : HeaderStoreState o km)
      → n + 1 < 2 ^ 64
      → IsKept n s
      → IsKept (n + 1) (header_for o km stream headers b known s).1
  header_for-IsKept n stream headers b (some id) s bound h = weaker n s h
  header_for-IsKept n stream headers b none s bound h = header_created-IsKept n b s _ bound h

  encoded_for-IsKept :
      (n : ℕ) (stream : Result (Bytes → Result Reader)) (headers : DbufValSeq) (b : Result Bytes)
      (s : HeaderStoreState o km)
      → n + 1 < 2 ^ 64
      → IsKept n s
      → IsKept (n + 1) (encoded_for o km stream headers b s).1
  encoded_for-IsKept n stream headers (ok b) s bound h =
      header_for-IsKept n stream headers b (Dict.get s.store_ids b) s bound h
  encoded_for-IsKept n stream headers (err e) s bound h = weaker n s h
  encoded_for-IsKept n stream headers panic s bound h = weaker n s h
  encoded_for-IsKept n stream headers stuck s bound h = weaker n s h

  pub Reach-IsKept :
      {s : HeaderStoreState o km} {n : ℕ} {s' : HeaderStoreState o km} (k : ℕ)
      → Reach s n s'
      → n + k < 2 ^ 64
      → IsKept k s
      → IsKept (n + k) s'
  unfolding get_header_store_header
  Reach-IsKept {s} k here bound h =
      let same : k ≡ 0 + k = omega arith in subst (λ x. IsKept x s) same h
  Reach-IsKept k (next {n} {s'} r stream headers) bound h =
      let counted : n + k + 1 ≡ n + 1 + k = omega arith in
      subst (λ x. IsKept x (get_header_store_header o km stream headers s').1) counted
        (encoded_for-IsKept (n + k) stream headers (encode_full_seq headers) s' (omega arith)
          (Reach-IsKept k r (omega arith) h))

  pub new-IsKept : (client : ClientState o km) → IsKept 0 (make_header_store_state o km client)
  unfolding make_header_store_state
  new-IsKept client = ((λ b id e. absurd cc, λ b b' id e e'. absurd cc), omega arith)
