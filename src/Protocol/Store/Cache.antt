-- ===== src/Protocol/Store/Cache.antt =====
-- protocol/header.go: `HeaderStoreCache`, its `Store` and its `Load`. A call holds the mutex from its
-- start to its end, so calls from several goroutines follow one another. `MakeHeaderStoreCache` makes
-- the map, so that it is never nil.
pub mod Sizes
pub mod Steps
pub mod Authentic
use dbuf_demo_go.Common.{ℕ, ◌+◌, ◌-◌, ◌^◌, Bool, false, true, if◌then◌else◌, ltb, List, [], Bytes}
use dbuf_demo_go.Common.{Option, none, some, length}
use dbuf_demo_go.Common.Dict
use dbuf_demo_go.Common.Dict.{Dict, nat_eq}
use dbuf_demo_go.Basic.Val
use dbuf_demo_go.Basic.Val.{DbufValString, leaf, no_items, item}
use dbuf_demo_go.Basic.Error.{Result, ok, err, panic, stuck, ◌>>=◌, GoError, key_not_found}
use dbuf_demo_go.Basic.Error.{data_error, data_key_missing, data_value_not_accepted}
use dbuf_demo_go.Basic.Encode.{encode_sequence}
use dbuf_demo_go.Data.Storage
use dbuf_demo_go.Data.Storage.{Storage}
use dbuf_demo_go.Protocol.Names
use dbuf_demo_go.Protocol.Outside.{Outside}
use dbuf_demo_go.Protocol.Action.{Action, lift}
use dbuf_demo_go.Protocol.Store.Item.{
  HeaderStoreCacheItem, header_store_error, to_dbuf_seq, get_size,
}
use dbuf_demo_go.Protocol.Store.Item.{identity, identity_key, authority}
use dbuf_demo_go.Protocol.Store.Authentication.{validate_key_params}

module _ (o : Outside) where
  open o use {database}

  pub record HeaderStoreCache : Type 0 where
    pub cache : Dict ℕ HeaderStoreCacheItem
    pub current_size : ℕ
    pub max_size : ℕ
    pub storage : Storage database

  unfoldable pub make_header_store_cache : Storage database → HeaderStoreCache
  make_header_store_cache store = record {
    cache = [];
    current_size = 0;
    max_size = Names.header_store_cache_max_size;
    storage = store;
  }

  -- `newSize -= i.GetSize()` if the id has an item.
  abbrev pub less_old : ℕ → Option HeaderStoreCacheItem → Result ℕ
  less_old n none = ok n
  less_old n (some i) = get_size i >>= λ old. ok (n - old)

  -- `NewTransaction` and `defer tx.Discard()`: beside an error the transaction is nil, and the
  -- deferred call of its method panics before the error is looked at.
  abbrev pub transaction : Result database.Txn → Result database.Txn
  transaction (ok tx) = ok tx
  transaction (err e) = panic
  transaction panic = panic
  transaction stuck = stuck

  -- What `Store` makes of the key that it has asked the storage for.
  abbrev pub stored_key : Result Bytes → Result Bytes
  stored_key (ok v) = ok v
  stored_key (err key_not_found) =
      err (header_store_error (data_error (Val.uint 3) data_value_not_accepted))
  stored_key (err e) = err e
  stored_key panic = panic
  stored_key stuck = stuck

  -- The key of the storage for the key of an identity.
  unfoldable pub identity_key_storage_key : DbufValString → DbufValString → Result Bytes
  identity_key_storage_key id key = encode_sequence (
      item (leaf (Val.registry Names.identity_key))
        (item (to_dbuf_seq id) (item (to_dbuf_seq key) no_items)))

  -- The key data in the storage for the identity of an item.
  unfoldable pub stored_key_data : Storage database → HeaderStoreCacheItem → Result Bytes
  unfolding identity_key_storage_key
  stored_key_data storage ci = do
    id ← identity ci
    key ← identity_key ci
    storage_key ← identity_key_storage_key id key
    host ← authority ci
    tx ← transaction (Storage.new_transaction database storage host false)
    stored_key (Storage.get database tx storage_key)

  -- The part of `Store` for an item with an identity, which it authenticates.
  unfoldable pub authenticate :
      Storage database → HeaderStoreCacheItem → Result HeaderStoreCacheItem
  unfolding stored_key_data
  authenticate storage ci =
      if ltb 2 (length ci.store_params)
      then (if ltb (length ci.store_params) 4
          then err (header_store_error (data_error (Val.uint 3) data_key_missing))
          else (stored_key_data storage ci >>= validate_key_params o ci))
      else ok ci

  -- The new size and the item to keep.
  unfoldable pub check_store :
      HeaderStoreCache → HeaderStoreCacheItem → ℕ → Result (ℕ × HeaderStoreCacheItem)
  unfolding authenticate
  check_store c ci id = do
    size ← get_size ci
    new_size ← less_old (c.current_size + size) (Dict.get c.cache id)
    (if ltb c.max_size new_size
        then err (header_store_error (data_error (Val.uint 1) data_value_not_accepted))
        else (authenticate c.storage ci >>= λ ci'. ok (new_size, ci')))

  -- The end of `Store`: the item is kept, and given back as it is kept.
  abbrev pub keep :
      HeaderStoreCache
      → ℕ
      → Result (ℕ × HeaderStoreCacheItem)
      → Result HeaderStoreCacheItem × HeaderStoreCache
  keep c id (ok (size, ci)) =
      (ok ci, record c { current_size = size; cache = Dict.put c.cache id ci })
  keep c id (err e) = (err e, c)
  keep c id panic = (panic, c)
  keep c id stuck = (stuck, c)

  unfoldable pub store : HeaderStoreCacheItem → ℕ → Action HeaderStoreCache HeaderStoreCacheItem
  unfolding check_store
  store ci id c = keep c id (check_store c ci id)

  abbrev pub loaded : Option HeaderStoreCacheItem → Result HeaderStoreCacheItem
  loaded (some i) = ok i
  loaded none = err (header_store_error data_value_not_accepted)

  unfoldable pub load : ℕ → Action HeaderStoreCache HeaderStoreCacheItem
  load id c = lift (loaded (Dict.get c.cache id)) c
