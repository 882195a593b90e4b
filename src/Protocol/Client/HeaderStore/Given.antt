-- ===== src/Protocol/Client/HeaderStore/Given.antt =====
-- The ids in the headers that `GetHeaderStoreHeader` gives, over any sequence of calls.
use dbuf_demo_go.Common.{
  ℕ, ◌+◌, ◌^◌, ◌<◌, ◌≡◌, ◌⊎◌, ◌↔◌, inl, inr, refl, sym, ap, ◌∙◌, subst, Bool-cases, arith,
}
use dbuf_demo_go.Common.{Bytes, Option, none, some}
use dbuf_demo_go.Common.Dict
use dbuf_demo_go.Common.Dict.{get-put_self, get-put_ne, Dict}
use dbuf_demo_go.Basic.Val
use dbuf_demo_go.Basic.Val.{DbufValSeq, leaf, nest, Sequence, item}
use dbuf_demo_go.Basic.Number.{uint64}
use dbuf_demo_go.Basic.Encode.{encode_full_seq}
use dbuf_demo_go.Basic.Keys.{bytes_equal}
use dbuf_demo_go.Basic.Keys.Equality.{bytes_eq, bytes_equal_iff}
use dbuf_demo_go.Basic.Error.{Result, ok, err, panic, stuck, wrap_with}
use dbuf_demo_go.Protocol.Reader.{map_err, Reader, Gives, gives_ok}
use dbuf_demo_go.Protocol.Outside.{Outside}
use dbuf_demo_go.Protocol.Action.{continue-Gives}
use dbuf_demo_go.Protocol.Request.Send.{wrap_action}
use dbuf_demo_go.Protocol.Store.Authentication.{
  exporter_label, exporter_output_prefix_size, exporter_output_suffix_size, create_exporter_context,
  create_signing_message, split_output,
}
use dbuf_demo_go.Protocol.Client.Keys.{KeyManager, ClientState, with_keys, get_key}
use dbuf_demo_go.Protocol.Client.HeaderStore.{
  HeaderStoreState, make_header_store_state, header_created, header_for, encoded_for,
  get_header_store_header, get_authority_ref, create_header_store_header,
  create_header_store_data_with_identity,
}
use dbuf_demo_go.Protocol.Client.HeaderStore.Ids.{
  Reach, here, next, IsKept, Reach-IsKept, new-IsKept,
}

-- A header for an id: the id itself, or an array of the id and what the server is to store for it.
abbrev pub IsFor : ℕ → DbufValSeq → Type 0
IsFor id h =
    (h ≡ leaf (uint64 id))
    ⊎ ((rest : Sequence) × (h ≡ nest Val.array (item (leaf (uint64 id)) rest)))

-- The first map has what it had before.
abbrev Extends : Dict Bytes ℕ → Dict Bytes ℕ → Type 0
Extends ids' ids = (q : Bytes) (id : ℕ) → Dict.get ids q ≡ some id → Dict.get ids' q ≡ some id

put-Extends :
    (ids : Dict Bytes ℕ) (b : Bytes) (n : ℕ)
    → Dict.get ids b ≡ none
    → Extends (Dict.put ids b n) ids
put-Extends ids b n unknown q id e = elim (Bool-cases (bytes_equal b q)) [
  | inl same ↦
      let eq : b ≡ q = (bytes_equal_iff b q).0 same in
      let there : Dict.get ids b ≡ some id = subst (λ x. Dict.get ids x ≡ some id) (sym eq) e in
      absurd (cc (unknown, there))
  | inr other ↦ get-put_ne ids b q n other ∙ e
]

data-IsFor :
    (id : ℕ) (headers identity id_key suffix signature : DbufValSeq)
    → IsFor id (create_header_store_data_with_identity id headers identity id_key suffix signature)
unfolding create_header_store_data_with_identity
data-IsFor id headers identity id_key suffix signature = inr (_, refl)

module _ (o : Outside) (km : KeyManager) where
  create_header_store_header-IsFor :
      (stream : Result (Bytes → Result Reader)) (id : ℕ) (headers : DbufValSeq)
      (c : ClientState o km)
      → Gives (IsFor id) (create_header_store_header o km stream id headers c).0
  unfolding create_header_store_header
  create_header_store_header-IsFor stream id headers c =
      continue-Gives _ _
        (map_err (wrap_with "Get authority ref failed") (get_authority_ref headers)) c
        (λ ref e₁.
          let key = wrap_action o (wrap_with "Get key failed") (get_key o km stream ref) c in
          continue-Gives _ _ key.0 key.1 (λ k e₂.
            let context =
              map_err (wrap_with "Create exporter context failed")
                (create_exporter_context headers k.0 k.1 k.2) in
            continue-Gives _ _ context key.1 (λ context e₃.
              let exported = map_err (wrap_with "Export keying material failed") (
                o.export_keying_material exporter_label context
                  (exporter_output_prefix_size + exporter_output_suffix_size)) in
              continue-Gives _ _ exported key.1 (λ output e₄.
                continue-Gives _ _ (split_output o output) key.1 (λ halves e₅.
                  let signed =
                    wrap_action o (wrap_with "Get signature failed")
                      (with_keys o km
                        (km.get_signature ref (create_signing_message context halves.0)))
                      key.1 in
                  continue-Gives _ _ signed.0 signed.1 (λ signature e₆.
                    data-IsFor id headers k.0 k.1 (leaf (Val.bytes halves.1)) signature))))))

  -- What a call for the encoded headers `b` does: the ids of before stay, and a header that is given
  -- is one for the id that `b` then has.
  abbrev DoesFor :
      Bytes → HeaderStoreState o km → Result DbufValSeq × HeaderStoreState o km → Type 0
  DoesFor b s x =
      Extends x.1.store_ids s.store_ids
      × Gives (λ h. (id : ℕ) × (Dict.get x.1.store_ids b ≡ some id) × IsFor id h) x.0

  header_created-DoesFor :
      (b : Bytes) (s : HeaderStoreState o km) (r : Result DbufValSeq × ClientState o km)
      → Dict.get s.store_ids b ≡ none
      → Gives (IsFor s.next_store_id) r.0
      → DoesFor b s (header_created o km b s r)
  header_created-DoesFor b s (ok h, client) unknown made = (
    put-Extends s.store_ids b s.next_store_id unknown,
    (s.next_store_id, get-put_self s.store_ids b s.next_store_id, made),
  )
  header_created-DoesFor b s (err e, client) unknown made = (λ q id e. e, tt)
  header_created-DoesFor b s (panic, client) unknown made = (λ q id e. e, tt)
  header_created-DoesFor b s (stuck, client) unknown made = (λ q id e. e, tt)

  header_for-DoesFor :
      (stream : Result (Bytes → Result Reader)) (headers : DbufValSeq) (b : Bytes)
      (known : Option ℕ) (s : HeaderStoreState o km)
      → Dict.get s.store_ids b ≡ known
      → DoesFor b s (header_for o km stream headers b known s)
  header_for-DoesFor stream headers b (some id) s k = (λ q id e. e, (id, k, inl refl))
  header_for-DoesFor stream headers b none s k =
      header_created-DoesFor b s _ k
        (create_header_store_header-IsFor stream s.next_store_id headers s.client)

  -- The same of a call for headers, whose encoding gives `b`.
  abbrev Does :
      Result Bytes → HeaderStoreState o km → Result DbufValSeq × HeaderStoreState o km → Type 0
  Does encoded s x =
      Extends x.1.store_ids s.store_ids
      × Gives
          (λ h.
            (b : Bytes) × (encoded ≡ ok b)
            × ((id : ℕ) × (Dict.get x.1.store_ids b ≡ some id) × IsFor id h))
          x.0

  encoded_for-Does :
      (stream : Result (Bytes → Result Reader)) (headers : DbufValSeq) (m : Result Bytes)
      (s : HeaderStoreState o km)
      → Does m s (encoded_for o km stream headers m s)
  encoded_for-Does stream headers (ok b) s =
      let (more, does) = header_for-DoesFor stream headers b _ s refl in
      (more, with_bytes b _ _ does)
    where
      with_bytes :
          (b : Bytes) (ids : Dict Bytes ℕ) (m : Result DbufValSeq)
          → Gives (λ h. (id : ℕ) × (Dict.get ids b ≡ some id) × IsFor id h) m
          → Gives
              (λ h.
                (b' : Bytes) × (ok b ≡ ok b')
                × ((id : ℕ) × (Dict.get ids b' ≡ some id) × IsFor id h))
              m
      with_bytes b ids (ok h) g = (b, refl, g)
      with_bytes b ids (err e) g = tt
      with_bytes b ids panic g = tt
      with_bytes b ids stuck g = tt
  encoded_for-Does stream headers (err e) s = (λ q id e. e, tt)
  encoded_for-Does stream headers panic s = (λ q id e. e, tt)
  encoded_for-Does stream headers stuck s = (λ q id e. e, tt)

  get_header_store_header-Does :
      (stream : Result (Bytes → Result Reader)) (headers : DbufValSeq) (s : HeaderStoreState o km)
      → Does (encode_full_seq headers) s (get_header_store_header o km stream headers s)
  unfolding get_header_store_header
  get_header_store_header-Does stream headers s =
      encoded_for-Does stream headers (encode_full_seq headers) s

  Reach-Extends :
      {s : HeaderStoreState o km} {n : ℕ} {s' : HeaderStoreState o km}
      → Reach o km s n s'
      → Extends s'.store_ids s.store_ids
  Reach-Extends here q id e = e
  Reach-Extends (next r stream headers) q id e =
      (get_header_store_header-Does stream headers _).0 q id (Reach-Extends r q id e)

  known-again :
      (stream : Result (Bytes → Result Reader)) (headers : DbufValSeq) (b : Bytes) (id : ℕ)
      (s : HeaderStoreState o km)
      → encode_full_seq headers ≡ ok b
      → Dict.get s.store_ids b ≡ some id
      → get_header_store_header o km stream headers s ≡ (ok (leaf (uint64 id)), s)
  unfolding get_header_store_header
  known-again stream headers b id s e k = rw (e, k) refl

  -- If `GetHeaderStoreHeader` gives a header, it is a header for an id, and after any further calls
  -- with any headers a call for the same headers, on whatever stream, gives the id alone and changes
  -- nothing.
  pub get_header_store_header-again :
      (stream stream' : Result (Bytes → Result Reader)) (headers h : DbufValSeq)
      (s s' : HeaderStoreState o km) (m : ℕ)
      → (get_header_store_header o km stream headers s).0 ≡ ok h
      → Reach o km (get_header_store_header o km stream headers s).1 m s'
      → (id : ℕ) × IsFor id h
        × (get_header_store_header o km stream' headers s' ≡ (ok (leaf (uint64 id)), s'))
  get_header_store_header-again stream stream' headers h s s' m given later =
      let (b, encoded, (id, k, is)) =
        gives_ok _ _ h (get_header_store_header-Does stream headers s).1 given in
      (id, is, known-again stream' headers b id s' encoded (Reach-Extends later b id k))

  -- Two calls of one `HeaderStoreState`, with any calls before them and between them, less than
  -- 2 ^ 64 altogether: the headers that they give are headers for the same id just if they are given
  -- for headers with the same encoding.
  pub get_header_store_header-ids :
      (client : ClientState o km) (n m : ℕ) (s s' : HeaderStoreState o km)
      (stream stream' : Result (Bytes → Result Reader)) (headers headers' h h' : DbufValSeq)
      → Reach o km (make_header_store_state o km client) n s
      → (get_header_store_header o km stream headers s).0 ≡ ok h
      → Reach o km (get_header_store_header o km stream headers s).1 m s'
      → (get_header_store_header o km stream' headers' s').0 ≡ ok h'
      → n + m + 2 < 2 ^ 64
      → (id : ℕ) × (id' : ℕ) × IsFor id h
        × IsFor id' h'
        × (id < 2 ^ 64)
        × (id' < 2 ^ 64)
        × ((id ≡ id') ↔ (encode_full_seq headers ≡ encode_full_seq headers'))
  get_header_store_header-ids client n m s s' stream stream' headers headers' h h' before given
        between given' bound =
      let (b, encoded, (id, k, is)) =
        gives_ok _ _ h (get_header_store_header-Does stream headers s).1 given in
      let (more, does) = get_header_store_header-Does stream' headers' s' in
      let (b', encoded', (id', k', is')) = gives_ok _ _ h' does given' in
      let first = Reach-IsKept o km 0 before (omega (arith, bound)) (new-IsKept o km client) in
      let second =
        Reach-IsKept o km (n + 0) (next here stream headers) (omega (arith, bound)) first in
      let third = Reach-IsKept o km (1 + (n + 0)) between (omega (arith, bound)) second in
      let last : IsKept o km (1 + (m + (1 + (n + 0))))
          (get_header_store_header o km stream' headers' s').1 =
        Reach-IsKept o km (m + (1 + (n + 0))) (next here stream' headers') (omega (arith, bound))
          third in
      let ((below, unique), counted) = last in
      let kept = more b id (Reach-Extends between b id k) in
      let one : id ≡ id' → encode_full_seq headers ≡ encode_full_seq headers' =
        λ same. cc (encoded, encoded', unique b b' id kept (k' ∙ ap some (sym same))) in
      let other : encode_full_seq headers ≡ encode_full_seq headers' → id ≡ id' =
        λ same. cc (same, encoded, encoded', kept, k') in
      (
        id,
        id',
        is,
        is',
        omega (arith, below b id kept, counted, bound),
        omega (arith, below b' id' k', counted, bound),
        (one, other),
      )
