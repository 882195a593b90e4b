-- ===== src/Runs/Stores.antt =====
-- The store of headers, on headers with and without an identity.
use dbuf_demo_go.Common.{◌↔◌}
use dbuf_demo_go.Common.{ℕ, ◌≤◌, ◌≡◌, ◌≢◌, refl, arith, true, false, List, [], ◌∷◌, Bytes}
use dbuf_demo_go.Common.{none, some, replicate}
use dbuf_demo_go.Common.Dict.{sum, nat_eq}
use dbuf_demo_go.Basic.Val
use dbuf_demo_go.Basic.Val.{DbufVal, to_dbuf_val_string}
use dbuf_demo_go.Basic.Error.{Result, ok}
use dbuf_demo_go.Basic.Encode.{encode_sequence}
use dbuf_demo_go.Basic.Decode.{decode_sequence, decode_loop, decode, decode_initial, decode_slice}
use dbuf_demo_go.Basic.Decode.{start_initial, read_slice}
use dbuf_demo_go.Basic.Keys.{key_equal, bytes_equal}
use dbuf_demo_go.Basic.Compare.{equal, compare, compare_bytes}
use dbuf_demo_go.Data.Storage.{Storage}
use dbuf_demo_go.Protocol.Names
use dbuf_demo_go.Protocol.Reader.{Gives}
use dbuf_demo_go.Protocol.Body.{Headers}
use dbuf_demo_go.Protocol.Store.Item.{
  HeaderStoreCacheItem, get_size, protected_headers, identity, identity_key,
}
use dbuf_demo_go.Protocol.Store.Authentication.{validate_key_params, create_signing_message}
use dbuf_demo_go.Protocol.Store.Authentication.Valid.{IsSigned}
use dbuf_demo_go.Protocol.Store.Authentication.Exact.{validate_key_params_iff}
use dbuf_demo_go.Protocol.Store.Cache.{HeaderStoreCache, make_header_store_cache, store, load}
use dbuf_demo_go.Protocol.Store.Cache.Sizes.{IsSized, item_size}
use dbuf_demo_go.Protocol.Store.Cache.Steps.{here, next, stores, Reach-IsSized, load-store}
use dbuf_demo_go.Protocol.Store.Merge.{View, merge, written}
use dbuf_demo_go.Protocol.Store.Merge.Plain.{IsUnion, merge-IsUnion}
use dbuf_demo_go.Runs.Outside.{toy, toy_database}

abbrev pub empty_storage : Storage toy_database
empty_storage = record { kv = []; authority = Val.registry Names.host ∷ [] }

abbrev pub empty_cache : HeaderStoreCache toy
empty_cache = record {
  cache = [];
  current_size = 0;
  max_size = Names.header_store_cache_max_size;
  storage = empty_storage;
}

-- An id and a map of a registry value to a text.
abbrev plain_item : HeaderStoreCacheItem
plain_item = record {
  store_params =
      to_dbuf_val_string (Val.uint 7)
      ∷ to_dbuf_val_string (Val.map_slice (0xC4 ∷ 0x42 ∷ 104 ∷ 105 ∷ []))
      ∷ [];
  is_authenticated = false;
}

abbrev one_item : HeaderStoreCache toy
one_item = record empty_cache { cache = (7, plain_item) ∷ []; current_size = 36 }

stored_plain : store toy plain_item 7 empty_cache ≡ (ok plain_item, one_item)
unfolding store get_size
stored_plain = refl

load-store_example :
    ((load toy 7 one_item).0 ≡ ok plain_item)
    × ((other : ℕ) → other ≢ 7 → (load toy other one_item).0 ≡ (load toy other empty_cache).0)
load-store_example = load-store toy empty_cache one_item plain_item plain_item 7 stored_plain

Reach-IsSized_example :
    IsSized toy (store toy plain_item 7 (make_header_store_cache toy empty_storage)).1
    × (sum item_size (store toy plain_item 7 (make_header_store_cache toy empty_storage)).1.cache
        ≤ Names.header_store_cache_max_size)
Reach-IsSized_example =
    Reach-IsSized toy (λ ci. Unit {0}) empty_storage
      (store toy plain_item 7 (make_header_store_cache toy empty_storage)).1
      (next here (stores (make_header_store_cache toy empty_storage) plain_item 7 (omega arith) tt))

-- The key data of a public key of ed25519, and an item with a signature under it.
abbrev pub key_data : Bytes
key_data = 0x98 ∷ 36 ∷ 0xD8 ∷ 139 ∷ 0x78 ∷ 32 ∷ replicate 32 0

abbrev signed_item : HeaderStoreCacheItem
signed_item = record {
  store_params =
      to_dbuf_val_string (Val.uint 7)
      ∷ to_dbuf_val_string (Val.map_slice [])
      ∷ to_dbuf_val_string (Val.bytes (1 ∷ []))
      ∷ to_dbuf_val_string (Val.uint 0)
      ∷ to_dbuf_val_string (Val.bytes (replicate 16 0))
      ∷ to_dbuf_val_string (Val.bytes (68 ∷ []))
      ∷ [];
  is_authenticated = false;
}

accepts_signed :
    validate_key_params toy signed_item key_data
    ≡ ok (record signed_item { is_authenticated = true })
unfolding validate_key_params bytes_equal decode_sequence decode_loop decode decode_initial
    decode_slice start_initial read_slice protected_headers identity identity_key encode_sequence
    Val.get_dbuf_val create_signing_message
accepts_signed = refl

validate_key_params_iff_example :
    (validate_key_params toy signed_item key_data
      ≡ ok (record signed_item { is_authenticated = true }))
    ↔ (IsSigned toy signed_item key_data
        × (record signed_item { is_authenticated = true }
            ≡ record signed_item { is_authenticated = true }))
validate_key_params_iff_example =
    validate_key_params_iff toy signed_item (record signed_item { is_authenticated = true })
      key_data

abbrev two_views : List View
two_views =
    record { val = Val.registry 8; start = 1 }
    ∷ record { val = Val.array_slice (0xCB ∷ []); start = 2 }
    ∷ record { val = Val.registry 4; start = 4 }
    ∷ record { val = Val.text (104 ∷ 105 ∷ []); start = 5 }
    ∷ []

merge-IsUnion_example : Gives (IsUnion [] two_views) (merge 7 none [] two_views [])
merge-IsUnion_example = merge-IsUnion 7 two_views []

-- A reference of one host, an array with room behind it, and a text: with a reference of three bytes
-- in the request, the text is read after the bytes of the request are written over it.
abbrev overwritten : Result Headers
overwritten = merge 7 (some (Val.array_slice (1 ∷ 2 ∷ 3 ∷ 4 ∷ []))) [] two_views []

overwrites_text :
    overwritten
    ≡ ok (
        (to_dbuf_val_string (Val.registry 8), Val.array_slice (0xCB ∷ 1 ∷ 2 ∷ 3 ∷ 4 ∷ []))
        ∷ (to_dbuf_val_string (Val.registry 4), Val.text (3 ∷ 4 ∷ []))
        ∷ [])
unfolding merge written equal compare compare_bytes key_equal
overwrites_text = refl
