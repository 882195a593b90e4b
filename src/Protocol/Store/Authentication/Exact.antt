-- ===== src/Protocol/Store/Authentication/Exact.antt =====
-- `ValidateKeyParams` accepts the signed items, and no others.
use dbuf_demo_go.Common.{◌≤◌, ◌≡◌, ◌↔◌, refl, arith, true, false, ==_iff, ltb}
use dbuf_demo_go.Common.{List, [], ◌∷◌, Bytes, length, take}
use dbuf_demo_go.Basic.ParseType
use dbuf_demo_go.Basic.Val.{DbufVal, DbufValString}
use dbuf_demo_go.Basic.Error.{ok}
use dbuf_demo_go.Basic.Keys.Equality.{bytes_equal_iff}
use dbuf_demo_go.Protocol.Names
use dbuf_demo_go.Protocol.Outside.{Outside}
use dbuf_demo_go.Protocol.Reader.{gives_ok}
use dbuf_demo_go.Protocol.Store.Item.{HeaderStoreCacheItem, at}
use dbuf_demo_go.Protocol.Store.Authentication.{
  exporter_output_prefix_size, create_signing_message, check_signature, check_key, check_key_data,
  check_exporter, validate_key_params,
}
use dbuf_demo_go.Protocol.Store.Authentication.Valid.{IsKey, IsSigned, validate_key_params-IsSigned}

-- Six parameters, if there is one at the place 5.
at-length :
    (params : List DbufValString) (v : DbufValString)
    → at params 5 ≡ ok v
    → ltb (length params) 6 ≡ false
at-length [] v e = absurd cc
at-length (a ∷ []) v e = absurd cc
at-length (a ∷ b ∷ []) v e = absurd cc
at-length (a ∷ b ∷ c ∷ []) v e = absurd cc
at-length (a ∷ b ∷ c ∷ d ∷ []) v e = absurd cc
at-length (a ∷ b ∷ c ∷ d ∷ f ∷ []) v e = absurd cc
at-length (a ∷ b ∷ c ∷ d ∷ f ∷ g ∷ params) v e = ground arith

not_short :
    (output : Bytes)
    → exporter_output_prefix_size ≤ length output
    → ltb (length output) exporter_output_prefix_size ≡ false
not_short output h = ground arith

module _ (o : Outside) where
  check_key_data-accepts :
      (ci : HeaderStoreCacheItem) (stored : DbufVal) (public_key message : Bytes)
      (signature : DbufValString)
      → IsKey o stored public_key
      → at ci.store_params 5 ≡ ok signature
      → o.verify public_key message signature.string ≡ true
      → check_key_data o ci stored message ≡ ok (record ci { is_authenticated = true })
  unfolding check_key_data check_key check_signature
  check_key_data-accepts ci stored public_key message signature k has_signature verified =
      let array = (==_iff stored.type ParseType.array).1 k.in_array in
      let registry = (==_iff k.kind.type ParseType.registry).1 k.is_registry in
      let ed25519 = (==_iff k.kind.value Names.ed25519).1 k.is_ed25519 in
      let full = (==_iff (length public_key) 32).1 k.full in
      rw
        (
          array, k.items, k.first, registry, ed25519, has_signature, k.second, k.same, full,
          verified,
        )
        refl

  -- `ValidateKeyParams` returns no error if and only if the key data of the storage is a public key of
  -- ed25519, the item ends as the keying material does that is exported for its headers, its identity
  -- and this key, and it carries a valid signature under the key of what is exported with the rest of
  -- that material. The item is then marked as authenticated, and is otherwise as it was.
  pub validate_key_params_iff :
      (ci ci' : HeaderStoreCacheItem) (key_data : Bytes)
      → (validate_key_params o ci key_data ≡ ok ci')
        ↔ (IsSigned o ci key_data × (ci' ≡ record ci { is_authenticated = true }))
  unfolding validate_key_params check_exporter
  validate_key_params_iff ci ci' key_data = (
    λ e.
        gives_ok _ (validate_key_params o ci key_data) ci'
          (validate_key_params-IsSigned o ci key_data) e,
    λ (s, same).
        rw
          (
            at-length ci.store_params s.signature s.has_signature,
            s.has_vals,
            s.has_headers,
            s.has_id,
            s.has_id_key,
            s.has_stored,
            s.has_context,
            s.exported,
            not_short s.output s.long,
            s.has_suffix,
            (bytes_equal_iff _ s.suffix.string).1 s.ends,
            check_key_data-accepts ci s.stored s.public_key
                (create_signing_message s.context (take exporter_output_prefix_size s.output))
                s.signature s.is_key s.has_signature s.verified,
            same,
          )
          refl,
  )
