-- ===== src/Protocol/Identity/Create.antt =====
-- protocol/identity.go: `CreateIdentity`, which stores the key of a new identity.
pub mod Stored
pub mod Found
use dbuf_demo_go.Common.{ℕ, Bool, true, false, if◌then◌else◌, Bytes, Option, none, some, List}
use dbuf_demo_go.Basic.Val
use dbuf_demo_go.Basic.Val.{DbufVal, DbufValSeq, leaf, no_items, item}
use dbuf_demo_go.Basic.Error.{
  Result, ok, err, panic, stuck, ◌>>=◌, GoError, wrap_with, data_error, data_key_missing,
}
use dbuf_demo_go.Basic.Encode.{encode_sequence, encode_full_seq}
use dbuf_demo_go.Data.Storage
use dbuf_demo_go.Data.Storage.{Storage}
use dbuf_demo_go.Protocol.Names
use dbuf_demo_go.Protocol.Reader.{map_err}
use dbuf_demo_go.Protocol.Stream.{part_error}
use dbuf_demo_go.Protocol.Body.Taken.{take_single_body}
use dbuf_demo_go.Protocol.Outside.{Outside}
use dbuf_demo_go.Protocol.Action.{Action, continue}
use dbuf_demo_go.Protocol.Store.Cache.{HeaderStoreCache, transaction}
use dbuf_demo_go.Protocol.Dispatch.{RequestResponse, respond_error, or_respond, value_header}
use dbuf_demo_go.Protocol.Identity.{IdentityWrite, parse_identity_write}

-- The place of the key in the storage.
unfoldable pub new_key_place : DbufValSeq → DbufVal → Result Bytes
new_key_place id key_id =
    encode_sequence
      (item (leaf (Val.registry Names.identity_key)) (item id (item (leaf key_id) no_items)))

abbrev pub missing_key : GoError
missing_key = part_error Names.body (part_error Names.identity_key data_key_missing)

module _ (o : Outside) where
  open o use {database}

  -- What is written to recover the identity, if there is something.
  unfoldable pub set_recovery : DbufValSeq → IdentityWrite → database.Txn → Result database.Txn
  set_recovery id iw tx =
      let recovery : Result database.Txn = (do
        place ← map_err (wrap_with "Encode identity recovery key failed") (
            encode_sequence (item (leaf (Val.registry Names.identity_recovery)) (item id no_items)))
        value ←
            map_err (wrap_with "Create identity recovery storage value failed")
              (encode_full_seq (leaf (iw.identity_recovery.value)))
        map_err (wrap_with "Set identity recovery failed") (Storage.set database tx place value)) in
      if iw.identity_recovery.has_value then recovery else ok tx

  -- The writes of `CreateIdentity` and their commit.
  unfoldable pub store_identity :
      Storage database → DbufValSeq → IdentityWrite → List DbufVal → Result (Storage database)
  unfolding new_key_place set_recovery
  store_identity storage id iw host = do
    place ←
        map_err (wrap_with "Encode identity key failed") (new_key_place id iw.identity_key_id.value)
    value ←
        map_err (wrap_with "Encode identity key storage value failed")
          (encode_full_seq (leaf (iw.identity_key_data.value)))
    tx ← transaction o (Storage.new_transaction database storage host true)
    tx' ← map_err (wrap_with "Set identity key failed") (Storage.set database tx place value)
    tx'' ← set_recovery id iw tx'
    map_err (wrap_with "Commit failed") (Storage.commit_transaction database tx'' storage)

  -- The storage is shared by the connections of a server.
  abbrev pub with_storage : Storage database → RequestResponse o → RequestResponse o
  with_storage storage rr = record rr {
    header_store_cache = record (rr.header_store_cache) { storage = storage };
  }

  -- The end of `CreateIdentity`.
  abbrev pub identity_created :
      DbufValSeq → Result (Storage database) → Action (RequestResponse o) (Unit {0})
  identity_created id (ok storage) rr =
      (ok tt, record (with_storage storage rr) { response_headers = some (value_header id) })
  identity_created id (err e) rr = (err e, rr)
  identity_created id panic rr = (panic, rr)
  identity_created id stuck rr = (stuck, rr)

  -- The rest behind the checks of the body; `drawn` are the 16 bytes of `rand.Read`.
  unfoldable pub create_from : Result Bytes → IdentityWrite → Action (RequestResponse o) (Unit {0})
  unfolding store_identity
  create_from drawn iw rr =
      let id = map_err (wrap_with "Create identity id failed") drawn in
      continue
        (λ b rr'.
          identity_created (leaf (Val.bytes b))
            (store_identity (rr'.header_store_cache.storage) (leaf (Val.bytes b)) iw
              (rr'.request_path_properties.authority))
            rr')
        id rr

  -- A body without a key is refused.
  abbrev pub with_key : Result Bytes → IdentityWrite → Action (RequestResponse o) (Unit {0})
  with_key drawn iw rr =
      let create = create_from drawn iw rr in
      if iw.identity_key_id.has_value then create else respond_error missing_key rr

  unfoldable pub create_identity : Result Bytes → Action (RequestResponse o) (Unit {0})
  unfolding create_from
  create_identity drawn rr =
      let taken =
        take_single_body (rr.request_header_store_properties.headers)
          Names.small_request_buffer_size rr.request_reader in
      or_respond (λ e. e) taken.0
        (λ body. or_respond (part_error Names.body) (parse_identity_write body) (with_key drawn))
        (record rr { request_reader = taken.1 })
