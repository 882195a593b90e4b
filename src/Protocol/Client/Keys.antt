-- ===== src/Protocol/Client/Keys.antt =====
-- protocol/authentication.go, the interface `KeyManager`, and protocol/identity.go: `SetupNewIdentity`
-- and `GetKey`.
use dbuf_demo_go.Common.{Bytes, none}
use dbuf_demo_go.Basic.Registry
use dbuf_demo_go.Basic.Val
use dbuf_demo_go.Basic.Val.{DbufValSeq, leaf, nest, no_items, item}
use dbuf_demo_go.Basic.Error.{
  Result, ok, err, panic, stuck, wrap_with, managed_key_not_found, append_item,
}
use dbuf_demo_go.Protocol.Names
use dbuf_demo_go.Protocol.Reader.{Reader}
use dbuf_demo_go.Protocol.Body.{get_single_body}
use dbuf_demo_go.Protocol.Outside.{Outside}
use dbuf_demo_go.Protocol.Action.{Action, lift, ◌>>=◌}
use dbuf_demo_go.Protocol.Store.Cache.{HeaderStoreCache}
use dbuf_demo_go.Protocol.Request.{Request, create_request}
use dbuf_demo_go.Protocol.Request.Send.{wrap_action, send_request_check_error}

-- An implementation, with its state.
pub record KeyManager : Type 1 where
  pub State : Type 0
  pub create_key : DbufValSeq → Action State (DbufValSeq × DbufValSeq)
  pub init_identity : DbufValSeq → DbufValSeq → Action State (Unit {0})
  pub get_key : DbufValSeq → Action State (DbufValSeq × DbufValSeq × DbufValSeq)
  pub get_signature : DbufValSeq → Bytes → Action State DbufValSeq

-- `v.Sequence = append(v.Sequence, x)`
abbrev pub append_to : DbufValSeq → DbufValSeq → DbufValSeq
append_to (leaf v) x = nest v (item x no_items)
append_to (nest v seq) x = nest v (append_item seq x)

unfoldable pub create_request_for_new_identity : DbufValSeq → DbufValSeq → DbufValSeq → Request
unfolding create_request
create_request_for_new_identity authority_ref key_id key_data =
    create_request
      (item (leaf (Val.registry Names.reference)) (
        item (append_to authority_ref (leaf (Val.registry Names.identity))) (
          item (leaf (Val.registry Registry.value)) (
            item
              (nest Val.map (
                item (leaf (Val.registry Names.identity_key))
                  (item (nest Val.map (item key_id (item key_data no_items))) no_items)))
              no_items))))
      none

module _ (o : Outside) (km : KeyManager) where
  -- The keys of the client, and the store of headers of its connection.
  abbrev pub ClientState : Type 0
  ClientState = km.State × HeaderStoreCache o

  abbrev pub with_keys {ℓ} : {A : Type ℓ} → Action (km.State) A → Action ClientState A
  with_keys m (keys, cache) = ((m keys).0, ((m keys).1, cache))

  abbrev pub with_cache {ℓ} : {A : Type ℓ} → Action (HeaderStoreCache o) A → Action ClientState A
  with_cache m (keys, cache) = ((m cache).0, (keys, (m cache).1))

  -- `stream` is the stream that the call opens.
  unfoldable pub setup_new_identity :
      Result (Bytes → Result Reader) → DbufValSeq → Action ClientState (Unit {0})
  unfolding create_request_for_new_identity
  setup_new_identity stream authority_ref = do
    made ← with_keys (km.create_key authority_ref)
    response ← with_cache (
        wrap_action o (wrap_with "Send request for new identity failed") (
          send_request_check_error o stream
            (create_request_for_new_identity authority_ref made.0 made.1)))
    body ← lift (
        get_single_body response.body (response.header_store_properties.headers)
          Names.small_request_buffer_size)
    with_keys (km.init_identity authority_ref (leaf body))

  -- The rest of `GetKey`, by the answer of the key manager.
  abbrev pub or_setup :
      Result (Bytes → Result Reader)
      → DbufValSeq
      → Result (DbufValSeq × DbufValSeq × DbufValSeq)
      → Action ClientState (DbufValSeq × DbufValSeq × DbufValSeq)
  or_setup stream ref (ok k) s = (ok k, s)
  or_setup stream ref (err managed_key_not_found) s =
      (wrap_action o (wrap_with "Setup new identity failed") (setup_new_identity stream ref)
          >>= λ u. with_keys (km.get_key ref))
        s
  or_setup stream ref (err e) s = (err e, s)
  or_setup stream ref panic s = (panic, s)
  or_setup stream ref stuck s = (stuck, s)

  unfoldable pub get_key :
      Result (Bytes → Result Reader)
      → DbufValSeq
      → Action ClientState (DbufValSeq × DbufValSeq × DbufValSeq)
  unfolding setup_new_identity
  get_key stream ref s =
      let asked = with_keys (km.get_key ref) s in or_setup stream ref asked.0 asked.1
