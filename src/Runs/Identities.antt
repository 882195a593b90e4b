-- ===== src/Runs/Identities.antt =====
-- A new identity: the reading of its key, and the storage before and after it is made.
use dbuf_demo_go.Common.{◌≡◌, refl, arith, false, Option, List, [], ◌∷◌, Bytes, replicate}
use dbuf_demo_go.Basic.Val
use dbuf_demo_go.Basic.Val.{DbufVal, DbufValSeq, leaf, to_dbuf_val_string}
use dbuf_demo_go.Basic.Error.{ok, err, incomplete_stream}
use dbuf_demo_go.Basic.Encode.{encode_full_seq, encode_sequence}
use dbuf_demo_go.Basic.Compare.{slice_equal, equal, compare, compare_bytes}
use dbuf_demo_go.Basic.Keys.{key_equal}
use dbuf_demo_go.Basic.Decode.{decode_sequence, decode_loop, decode, decode_initial, decode_slice}
use dbuf_demo_go.Basic.Decode.{start_initial, read_slice}
use dbuf_demo_go.Protocol.Path.{get_path_properties}
use dbuf_demo_go.Data.Storage
use dbuf_demo_go.Data.Storage.{Storage}
use dbuf_demo_go.Protocol.Names
use dbuf_demo_go.Protocol.Reader.{Gives}
use dbuf_demo_go.Protocol.Store.Item
use dbuf_demo_go.Protocol.Store.Item.{HeaderStoreCacheItem}
use dbuf_demo_go.Protocol.Store.Cache.{identity_key_storage_key, stored_key_data}
use dbuf_demo_go.Protocol.Identity.{
  IdentityWrite, no_value, value_of, parse_identity_write, parse_entries, check_key_value,
}
use dbuf_demo_go.Protocol.Identity.Key.{IsChecked, parse_identity_write-IsChecked}
use dbuf_demo_go.Protocol.Identity.Create.{new_key_place, store_identity}
use dbuf_demo_go.Protocol.Identity.Create.Stored.{IsStored, store_identity-IsStored}
use dbuf_demo_go.Protocol.Identity.Create.Found.{stored_key_data-store_identity}
use dbuf_demo_go.Runs.Outside.{toy, toy_database, toy-IsDatabase}
use dbuf_demo_go.Runs.Stores.{empty_storage, key_data}

-- A map of `identity_key` to a map of the id 0 to a public key.
abbrev body : DbufVal
body = Val.map_slice (0xD8 ∷ 136 ∷ 0xB8 ∷ 39 ∷ 0xE0 ∷ key_data)

abbrev public_key : DbufVal
public_key = Val.array_slice (0xD8 ∷ 139 ∷ 0x78 ∷ 32 ∷ replicate 32 0)

abbrev identity_write : IdentityWrite
identity_write = record {
  identity_key_id = value_of (Val.uint 0);
  identity_key_data = value_of public_key;
  identity_recovery = no_value;
}

parses : parse_identity_write body ≡ ok identity_write
unfolding parse_identity_write decode_sequence decode_loop decode decode_initial decode_slice
    start_initial read_slice Val.get_dbuf_val parse_entries key_equal equal compare compare_bytes
    check_key_value
parses = refl

parse_identity_write-IsChecked_example : Gives IsChecked (parse_identity_write body)
parse_identity_write-IsChecked_example = parse_identity_write-IsChecked body

abbrev new_id : DbufValSeq
new_id = leaf (Val.bytes (1 ∷ []))

abbrev host : List DbufVal
host = Val.registry Names.host ∷ []

abbrev place : Bytes
place = 0xD8 ∷ 136 ∷ 0x61 ∷ 1 ∷ 0xE0 ∷ []

abbrev filled : Storage toy_database
filled = record { kv = (place, key_data) ∷ []; authority = host }

stores : store_identity toy empty_storage new_id identity_write host ≡ ok filled
unfolding store_identity encode_sequence encode_full_seq Storage.new_transaction slice_equal equal
    compare compare_bytes Storage.set Storage.commit_transaction
stores = refl

store_identity-IsStored_example :
    Gives
      (λ s. IsStored toy toy-IsDatabase empty_storage s new_id identity_write host)
      (store_identity toy empty_storage new_id identity_write host)
store_identity-IsStored_example =
    store_identity-IsStored toy toy-IsDatabase empty_storage new_id identity_write host refl

-- An item of the new identity, for the authority of the storage.
abbrev item_of : DbufVal → HeaderStoreCacheItem
item_of key_id = record {
  store_params =
      to_dbuf_val_string (Val.uint 7)
      ∷ to_dbuf_val_string (Val.map_slice (0xC8 ∷ 0x82 ∷ 0xCB ∷ 0xCA ∷ []))
      ∷ to_dbuf_val_string (Val.bytes (1 ∷ []))
      ∷ to_dbuf_val_string key_id
      ∷ [];
  is_authenticated = false;
}

has_identity : Item.identity (item_of (Val.uint 0)) ≡ ok (to_dbuf_val_string (Val.bytes (1 ∷ [])))
unfolding Item.identity
has_identity = refl

has_key : Item.identity_key (item_of (Val.uint 0)) ≡ ok (to_dbuf_val_string (Val.uint 0))
unfolding Item.identity_key
has_key = refl

has_host : Item.authority (item_of (Val.uint 0)) ≡ ok host
unfolding Item.authority Item.protected_headers decode_sequence decode_loop decode decode_initial
    decode_slice start_initial read_slice Item.reference_headers get_path_properties equal compare
    Val.get_dbuf_val compare_bytes key_equal
has_host = refl

answers :
    (q : Bytes)
    → (found : Option Bytes) × (toy_database.find (toy_database.start filled.kv false) q ≡ ok found)
answers q = (_, refl)

stored_key_data-store_identity_example :
    (value : Bytes) × (encode_full_seq (leaf (identity_write.identity_key_data.value)) ≡ ok value)
    × (stored_key_data toy filled (item_of (Val.uint 0)) ≡ ok value)
stored_key_data-store_identity_example =
    stored_key_data-store_identity toy toy-IsDatabase empty_storage filled (1 ∷ []) identity_write
      host (item_of (Val.uint 0)) refl (λ e. omega arith) stores has_identity has_key has_host
      answers

-- The place of a key with a number of 24 or more is written, but cannot be asked for.
places_24 : new_key_place new_id (Val.uint 24) ≡ ok (0xD8 ∷ 136 ∷ 0x61 ∷ 1 ∷ 0xF8 ∷ 24 ∷ [])
unfolding new_key_place encode_sequence
places_24 = refl

asks_24 :
    identity_key_storage_key toy
      (to_dbuf_val_string (Val.bytes (1 ∷ [])))
      (to_dbuf_val_string (Val.uint 24))
    ≡ err incomplete_stream
unfolding identity_key_storage_key encode_sequence
asks_24 = refl
