-- ===== src/Protocol/Store/Authentication/Valid.antt =====
-- What `ValidateKeyParams` has checked when it returns no error.
use dbuf_demo_go.Common.{◌≤◌, arith}
use dbuf_demo_go.Common.{
  negated, ◌+◌, ◌≡◌, ◌∙◌, refl, ap, sym, subst, Bool, true, false, not, ◌==◌, ==_iff, if◌then◌else◌,
  ltb,
}
use dbuf_demo_go.Common.{List, Bytes, length, take, drop}
use dbuf_demo_go.Basic.ParseType
use dbuf_demo_go.Basic.Val.{DbufVal, DbufValString, leaf, contents}
use dbuf_demo_go.Basic.Error.{ok, panic}
use dbuf_demo_go.Basic.Keys.{bytes_equal}
use dbuf_demo_go.Basic.Keys.Equality.{bytes_equal_iff}
use dbuf_demo_go.Protocol.Names
use dbuf_demo_go.Protocol.Outside.{Outside}
use dbuf_demo_go.Protocol.Reader.{Gives, Gives-mono, if-Gives, bind-Gives}
use dbuf_demo_go.Protocol.Store.Item.{HeaderStoreCacheItem, at, to_dbuf_seq, protected_headers}
use dbuf_demo_go.Protocol.Store.Item.{identity, identity_key}
use dbuf_demo_go.Protocol.Store.Authentication.{exporter_label, exporter_output_prefix_size}
use dbuf_demo_go.Protocol.Store.Authentication.{exporter_output_suffix_size, decoded}
use dbuf_demo_go.Protocol.Store.Authentication.{create_exporter_context, create_signing_message}
use dbuf_demo_go.Protocol.Store.Authentication.{
  verify_key, split_output, check_signature, check_key,
}
use dbuf_demo_go.Protocol.Store.Authentication.{check_key_data, check_exporter, validate_key_params}

module _ (o : Outside) where
  -- A public key of ed25519 among the items of the key data.
  pub record IsKey (stored : DbufVal) (public_key : Bytes) : Type 0 where
    pub key_array : List DbufVal
    pub kind : DbufVal
    pub key : DbufVal
    pub in_array : stored.type ≡ ParseType.array
    pub items : decoded "Decode keyArray failed" (contents stored.slice) ≡ ok key_array
    pub first : at key_array 0 ≡ ok kind
    pub second : at key_array 1 ≡ ok key
    pub is_registry : kind.type ≡ ParseType.registry
    pub is_ed25519 : kind.value ≡ Names.ed25519
    pub same : contents key.slice ≡ public_key
    pub full : length public_key ≡ 32

  -- The item carries a signature of its headers and its identity, made with the key in `key_data` for
  -- this connection.
  pub record IsSigned (ci : HeaderStoreCacheItem) (key_data : Bytes) : Type 0 where
    pub vals : List DbufVal
    pub stored : DbufVal
    pub headers : DbufValString
    pub id : DbufValString
    pub id_key : DbufValString
    pub suffix : DbufValString
    pub signature : DbufValString
    pub context : Bytes
    pub output : Bytes
    pub public_key : Bytes
    pub has_vals : decoded "Decode keyData failed" key_data ≡ ok vals
    pub has_stored : at vals 0 ≡ ok stored
    pub has_headers : protected_headers ci ≡ ok headers
    pub has_id : identity ci ≡ ok id
    pub has_id_key : identity_key ci ≡ ok id_key
    pub has_suffix : at ci.store_params 4 ≡ ok suffix
    pub has_signature : at ci.store_params 5 ≡ ok signature
    pub has_context :
        create_exporter_context
          (to_dbuf_seq headers)
          (to_dbuf_seq id)
          (to_dbuf_seq id_key)
          (leaf stored)
        ≡ ok context
    pub exported :
        o.export_keying_material exporter_label context
          (exporter_output_prefix_size + exporter_output_suffix_size)
        ≡ ok output
    pub long : exporter_output_prefix_size ≤ length output
    pub ends : drop exporter_output_prefix_size output ≡ suffix.string
    pub is_key : IsKey stored public_key
    pub verified :
        o.verify public_key
          (create_signing_message context (take exporter_output_prefix_size output))
          signature.string
        ≡ true

  -- What the check of a signature leaves: the item with its mark, and the facts behind it.
  abbrev Verified : HeaderStoreCacheItem → List DbufVal → Bytes → HeaderStoreCacheItem → Type 0
  Verified ci key_array message ci' =
      (signature : DbufValString) × (key : DbufVal) × (at ci.store_params 5 ≡ ok signature)
      × (at key_array 1 ≡ ok key)
      × (length (contents key.slice) ≡ 32)
      × (o.verify (contents key.slice) message signature.string ≡ true)
      × (ci' ≡ record ci { is_authenticated = true })

  ok_of_if : (b : Bool) (v w : Bool) → (if b then ok v else panic) ≡ ok w → (b ≡ true) × (v ≡ w)
  ok_of_if true v w e = (refl, cc)
  ok_of_if false v w e = absurd cc

  check_signature-Verified :
      (ci : HeaderStoreCacheItem) (key_array : List DbufVal) (message : Bytes)
      → Gives (Verified ci key_array message) (check_signature o ci key_array message)
  unfolding check_signature
  check_signature-Verified ci key_array message =
      let P = Verified ci key_array message in
      bind-Gives P (at ci.store_params 5) _ (λ signature e.
        bind-Gives P (at key_array 1) _ (λ key e'.
          bind-Gives P (verify_key o (contents key.slice) message signature.string) _ (λ v e₃.
            let (long, same) =
              ok_of_if (length (contents key.slice) == 32)
                (o.verify (contents key.slice) message signature.string) v e₃ in
            if-Gives P (not v) _ _ (λ r. tt)
              (λ r. (
                signature,
                key,
                e,
                e',
                (==_iff (length (contents key.slice)) 32).0 long,
                same ∙ negated v r,
                refl,
              )))))

  -- The same for the key data of the storage.
  abbrev Keyed : HeaderStoreCacheItem → DbufVal → Bytes → HeaderStoreCacheItem → Type 0
  Keyed ci stored message ci' =
      (signature : DbufValString) × (public_key : Bytes) × (at ci.store_params 5 ≡ ok signature)
      × IsKey stored public_key
      × (o.verify public_key message signature.string ≡ true)
      × (ci' ≡ record ci { is_authenticated = true })

  check_key_data-Keyed :
      (ci : HeaderStoreCacheItem) (stored : DbufVal) (message : Bytes)
      → Gives (Keyed ci stored message) (check_key_data o ci stored message)
  unfolding check_key_data check_key
  check_key_data-Keyed ci stored message =
      let P = Keyed ci stored message in
      if-Gives P (stored.type == ParseType.array) _ _
        (λ a.
          bind-Gives P (decoded "Decode keyArray failed" (contents stored.slice)) _ (λ key_array e.
            bind-Gives P (at key_array 0) _ (λ kind e'.
              if-Gives P (kind.type == ParseType.registry) _ _
                (λ r.
                  if-Gives P (kind.value == Names.ed25519) _ _
                    (λ d.
                      Gives-mono (Verified ci key_array message) P
                        (check_signature o ci key_array message)
                        (λ ci' (signature, key, s, k, long, v, same). (
                          signature,
                          contents key.slice,
                          s,
                          record {
                            key_array = key_array;
                            kind = kind;
                            key = key;
                            in_array = (==_iff stored.type ParseType.array).0 a;
                            items = e;
                            first = e';
                            second = k;
                            is_registry = (==_iff kind.type ParseType.registry).0 r;
                            is_ed25519 = (==_iff kind.value Names.ed25519).0 d;
                            same = refl;
                            full = long;
                          },
                          v,
                          same,
                        ))
                        (check_signature-Verified ci key_array message))
                    (λ d. tt))
                (λ r. tt))))
        (λ a. tt)

  ok_of_else :
      (b : Bool) (v w : Bytes × Bytes) → (if b then panic else ok v) ≡ ok w → (b ≡ false) × (v ≡ w)
  ok_of_else true v w e = absurd cc
  ok_of_else false v w e = (refl, cc)

  long_enough :
      (output : Bytes)
      → ltb (length output) exporter_output_prefix_size ≡ false
      → exporter_output_prefix_size ≤ length output
  long_enough output e = ground arith

  -- If `ValidateKeyParams` returns no error, the key data of the storage is a public key of ed25519,
  -- the item ends as the keying material does that is exported for its headers, its identity and this
  -- key, and it carries a valid signature under the key of what is exported with the rest of that
  -- material. The item is marked as authenticated, and is otherwise as it was.
  pub validate_key_params-IsSigned :
      (ci : HeaderStoreCacheItem) (key_data : Bytes)
      → Gives
          (λ ci'. IsSigned ci key_data × (ci' ≡ record ci { is_authenticated = true }))
          (validate_key_params o ci key_data)
  unfolding validate_key_params check_exporter
  validate_key_params-IsSigned ci key_data =
      let P : HeaderStoreCacheItem → Type 0 =
        λ ci'. IsSigned ci key_data × (ci' ≡ record ci { is_authenticated = true }) in
      if-Gives P (ltb (length ci.store_params) 6) _ _ (λ l. tt)
        (λ l. bind-Gives P (decoded "Decode keyData failed" key_data) _ (λ vals has_vals.
          bind-Gives P (protected_headers ci) _ (λ headers has_headers.
            bind-Gives P (identity ci) _ (λ id has_id.
              bind-Gives P (identity_key ci) _ (λ id_key has_id_key.
                bind-Gives P (at vals 0) _ (λ stored has_stored.
                  bind-Gives P (create_exporter_context _ _ _ _) _ (λ context has_context.
                    bind-Gives P (o.export_keying_material _ context _) _ (λ output exported.
                      bind-Gives P (split_output o output) _ (λ halves split.
                        bind-Gives P (at ci.store_params 4) _ (λ suffix has_suffix.
                          if-Gives P (not (bytes_equal halves.1 suffix.string)) _ _ (λ d. tt)
                            (λ d.
                              let (long, parts) =
                                ok_of_else (ltb (length output) exporter_output_prefix_size) _
                                  halves split in
                              Gives-mono (Keyed ci stored (create_signing_message context halves.0))
                                P
                                (check_key_data o ci stored
                                  (create_signing_message context halves.0))
                                (λ ci'
                                    (signature, public_key, has_signature, is_key, verified, same).
                                  (
                                    record {
                                      vals = vals;
                                      stored = stored;
                                      headers = headers;
                                      id = id;
                                      id_key = id_key;
                                      suffix = suffix;
                                      signature = signature;
                                      context = context;
                                      output = output;
                                      public_key = public_key;
                                      has_vals = has_vals;
                                      has_stored = has_stored;
                                      has_headers = has_headers;
                                      has_id = has_id;
                                      has_id_key = has_id_key;
                                      has_suffix = has_suffix;
                                      has_signature = has_signature;
                                      has_context = has_context;
                                      exported = exported;
                                      long = long_enough output long;
                                      ends =
                                          ap (λ (p : Bytes × Bytes). p.1) parts
                                          ∙ (bytes_equal_iff halves.1 suffix.string).0
                                              (negated _ d);
                                      is_key = is_key;
                                      verified =
                                          subst
                                            (λ p.
                                              o.verify public_key (create_signing_message context p)
                                                signature.string
                                              ≡ true)
                                            (sym (ap (λ (p : Bytes × Bytes). p.0) parts)) verified;
                                    },
                                    same,
                                  ))
                                (check_key_data-Keyed ci stored
                                  (create_signing_message context halves.0)))))))))))))
