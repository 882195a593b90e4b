-- ===== src/Runs/Clients.antt =====
-- The headers of a client that has a key and an identity.
use dbuf_demo_go.Common.{ℕ, ◌≡◌, ◌<◌, ◌^◌, ◌↔◌, refl, arith, true, [], ◌∷◌, ◌++◌, Bytes, replicate}
use dbuf_demo_go.Basic.Val
use dbuf_demo_go.Basic.Val.{DbufValSeq, contents, to_dbuf_val_string, leaf, nest, no_items, item}
use dbuf_demo_go.Basic.Number.{uint64}
use dbuf_demo_go.Basic.Error.{Result, ok, err, eof}
use dbuf_demo_go.Basic.Encode.{encode_full_seq, encode_sequence}
use dbuf_demo_go.Basic.Compare.{slice_equal, equal, compare, compare_bytes}
use dbuf_demo_go.Basic.Keys.{bytes_equal, key_equal, find_key, find_from}
use dbuf_demo_go.Basic.Decode.{decode_sequence, decode_loop, decode, decode_initial, decode_slice}
use dbuf_demo_go.Basic.Decode.{start_initial, read_slice}
use dbuf_demo_go.Data.Storage
use dbuf_demo_go.Protocol.Path.{get_path_properties}
use dbuf_demo_go.Protocol.Store.Item
use dbuf_demo_go.Protocol.Store.Item.{HeaderStoreCacheItem, get_size}
use dbuf_demo_go.Protocol.Store.Params.{get_header_store_params}
use dbuf_demo_go.Protocol.Store.Merge.{request_headers, decode_views, merge}
use dbuf_demo_go.Protocol.Store.Authentication.{
  create_exporter_context, create_signing_message, validate_key_params,
}
use dbuf_demo_go.Protocol.Names
use dbuf_demo_go.Protocol.Reader.{Reader}
use dbuf_demo_go.Protocol.Client.Keys.{KeyManager, ClientState}
use dbuf_demo_go.Protocol.Client.HeaderStore.{
  HeaderStoreState, make_header_store_state, get_header_store_header,
}
use dbuf_demo_go.Protocol.Client.HeaderStore.Ids.{here, next}
use dbuf_demo_go.Protocol.Client.HeaderStore.Given.{
  IsFor, get_header_store_header-again, get_header_store_header-ids,
}
use dbuf_demo_go.Connection.KeyManager.{
  create_key, init_identity, get_key, get_signature, make_test_key_manager,
}
use dbuf_demo_go.Connection.KeyManager.Instance.{test_key_manager}
use dbuf_demo_go.Runs.Outside.{toy}
use dbuf_demo_go.Runs.Stores.{empty_cache, empty_storage, key_data}
use dbuf_demo_go.Protocol.Store.Cache.{
  HeaderStoreCache, store, authenticate, stored_key_data, identity_key_storage_key,
}
use dbuf_demo_go.Protocol.Store.Properties.{get_header_store_properties}
use dbuf_demo_go.Runs.Keys.{sign, ref, id, with_identity}

-- The key manager of a client, which draws the same pair each time.
abbrev manager : KeyManager
manager = test_key_manager sign (ok (replicate 32 0, 2 ∷ []))

abbrev no_stream : Result (Bytes → Result Reader)
no_stream = err eof

abbrev client : ClientState toy manager
client = (with_identity, empty_cache)

abbrev protected : DbufValSeq
protected = nest Val.map (item (leaf (Val.registry Names.reference)) (item ref no_items))

abbrev fresh : HeaderStoreState toy manager
fresh = make_header_store_state toy manager client

abbrev after : HeaderStoreState toy manager
after = (get_header_store_header toy manager no_stream protected fresh).1

abbrev header_of : ℕ → DbufValSeq → DbufValSeq
header_of n headers = nest Val.array (
    item (leaf (Val.uint n)) (
      item headers (
        item id (
          item (leaf (Val.uint 0)) (
            item (leaf (Val.bytes (replicate 16 0)))
              (item (leaf (Val.bytes (68 ∷ []))) no_items))))))

abbrev pub first_header : DbufValSeq
first_header = header_of 0 protected

-- Other headers of the same client.
abbrev other_protected : DbufValSeq
other_protected = nest Val.map (
    item (leaf (Val.uint 1))
      (item (leaf (Val.uint 2)) (item (leaf (Val.registry Names.reference)) (item ref no_items))))

gives : (get_header_store_header toy manager no_stream protected fresh).0 ≡ ok first_header
unfolding get_header_store_header encode_full_seq make_header_store_state equal compare
    compare_bytes get_key init_identity create_key make_test_key_manager bytes_equal
    create_exporter_context encode_sequence get_signature create_signing_message
gives = refl

gives_other :
    (get_header_store_header toy manager no_stream other_protected after).0
    ≡ ok (header_of 1 other_protected)
unfolding get_header_store_header encode_full_seq make_header_store_state equal compare
    compare_bytes get_key init_identity create_key make_test_key_manager bytes_equal
    create_exporter_context encode_sequence get_signature create_signing_message
gives_other = refl

get_header_store_header-ids_example :
    (n : ℕ) × (n' : ℕ) × IsFor n first_header
    × IsFor n' (header_of 1 other_protected)
    × (n < 2 ^ 64)
    × (n' < 2 ^ 64)
    × ((n ≡ n') ↔ (encode_full_seq protected ≡ encode_full_seq other_protected))
get_header_store_header-ids_example =
    get_header_store_header-ids toy manager client 0 0 fresh after no_stream no_stream protected
      other_protected first_header (header_of 1 other_protected) here gives here gives_other
      (omega arith)

-- The state behind a header for other headers.
abbrev later : HeaderStoreState toy manager
later = (get_header_store_header toy manager no_stream other_protected after).1

get_header_store_header-again_example :
    (n : ℕ) × IsFor n first_header
    × (get_header_store_header toy manager no_stream protected later
        ≡ (ok (leaf (uint64 n)), later))
get_header_store_header-again_example =
    get_header_store_header-again toy manager no_stream no_stream protected first_header fresh later
      1 gives (next here no_stream other_protected)

-- A server that has the key of the client in its storage.
abbrev server_cache : HeaderStoreCache toy
server_cache = record empty_cache {
  storage = record empty_storage { kv = (0xD8 ∷ 136 ∷ 0x61 ∷ 7 ∷ 0xE0 ∷ [], key_data) ∷ [] };
}

-- What the server has of the header: its value is the bytes of the items.
abbrev header_value : Val.DbufVal
header_value = Val.array_slice (
    0xE0
    ∷ 0xA4
    ∷ 0xC8
    ∷ 0x82
    ∷ 0xCB
    ∷ 0xCA
    ∷ 0x61
    ∷ 7
    ∷ 0xE0
    ∷ 0x70
    ∷ (replicate 16 0 ++ 0x61 ∷ 68 ∷ []))

header_bytes : encode_full_seq first_header ≡ ok (0x98 ∷ 28 ∷ contents (header_value.slice))
unfolding encode_full_seq
header_bytes = refl

abbrev pub client_item : HeaderStoreCacheItem
client_item = record {
  store_params =
      to_dbuf_val_string (Val.uint 0)
      ∷ to_dbuf_val_string (Val.map_slice (0xC8 ∷ 0x82 ∷ 0xCB ∷ 0xCA ∷ []))
      ∷ to_dbuf_val_string (Val.bytes (7 ∷ []))
      ∷ to_dbuf_val_string (Val.uint 0)
      ∷ to_dbuf_val_string (Val.bytes (replicate 16 0))
      ∷ to_dbuf_val_string (Val.bytes (68 ∷ []))
      ∷ [];
  is_authenticated = true;
}

-- The server accepts the signature of the client, and keeps the item with its mark.
accepts_client :
    (get_header_store_properties toy
      (Val.registry Names.header_store ∷ header_value ∷ [])
      server_cache).1.cache
    ≡ (0, client_item) ∷ []
unfolding get_header_store_properties get_header_store_params find_key find_from equal compare
    compare_bytes decode_sequence decode_loop decode decode_initial decode_slice start_initial
    read_slice Val.get_dbuf_val request_headers store get_size slice_equal encode_sequence
    authenticate stored_key_data identity_key_storage_key Item.identity Item.identity_key
    Item.protected_headers Item.authority Item.reference_headers get_path_properties key_equal
    bytes_equal Storage.new_transaction Storage.get validate_key_params create_exporter_context
    create_signing_message decode_views merge
accepts_client = refl
