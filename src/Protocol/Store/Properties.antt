-- ===== src/Protocol/Store/Properties.antt =====
-- protocol/header.go: `GetHeaderStoreProperties`.
use dbuf_demo_go.Common.{false, if◌then◌else◌, List, [], map, Option, none, some}
use dbuf_demo_go.Common.{length}
use dbuf_demo_go.Basic.Val.{DbufVal, to_dbuf_val_string}
use dbuf_demo_go.Basic.Error.{Result, ok, err, GoError, wrap_with}
use dbuf_demo_go.Protocol.Outside.{Outside}
use dbuf_demo_go.Protocol.Action.{Action, pure, lift, ◌>>=◌}
use dbuf_demo_go.Protocol.Stream.{decoder}
use dbuf_demo_go.Protocol.Body.{Headers}
use dbuf_demo_go.Protocol.Store.Item.{HeaderStoreCacheItem, protected_headers}
use dbuf_demo_go.Protocol.Store.Cache.{HeaderStoreCache, store, load}
use dbuf_demo_go.Protocol.Store.Params.{HeaderStoreParams, get_header_store_params}
use dbuf_demo_go.Protocol.Store.Merge.{View, decode_views, request_headers, merge}

pub record HeaderStoreProperties : Type 0 where
  pub headers : Headers
  pub cache_item : Option HeaderStoreCacheItem

-- The decoded protected headers, or the error of the decoder.
abbrev pub protected_views : List View × Option GoError → Result (List View)
protected_views (views, none) = ok views
protected_views (views, some e) = err (wrap_with "Decode protected headers failed" e)

-- `&HeaderStoreCacheItem{StoreParams: kp}`
abbrev pub new_item : List DbufVal → HeaderStoreCacheItem
new_item params = record { store_params = map to_dbuf_val_string params; is_authenticated = false }

module _ (o : Outside) where
  -- The item that the request stores, if it does.
  unfoldable pub stored_item :
      HeaderStoreParams → Action (HeaderStoreCache o) (Option HeaderStoreCacheItem)
  stored_item tp =
      let stored : Action (HeaderStoreCache o) (Option HeaderStoreCacheItem) = (do
        ci ← store o (new_item tp.store_params) tp.store_id
        pure (some ci)) in
      if tp.is_store then stored else pure none

  -- The item that the request loads, or the one it has stored.
  unfoldable pub loaded_item :
      HeaderStoreParams
      → Option HeaderStoreCacheItem
      → Action (HeaderStoreCache o) (Option HeaderStoreCacheItem)
  loaded_item tp stored =
      let loaded : Action (HeaderStoreCache o) (Option HeaderStoreCacheItem) = (do
        ci ← load o tp.load_id
        pure (some ci)) in
      if tp.is_load then loaded else pure stored

  unfoldable pub cache_item :
      HeaderStoreParams → Action (HeaderStoreCache o) (Option HeaderStoreCacheItem)
  unfolding stored_item loaded_item
  cache_item tp = stored_item tp >>= loaded_item tp

  -- The headers with the protected ones of the item.
  unfoldable pub with_item :
      Headers
      → Option DbufVal
      → Option HeaderStoreCacheItem
      → Action (HeaderStoreCache o) HeaderStoreProperties
  with_item m ref none = pure (record { headers = m; cache_item = none })
  with_item m ref (some ci) = do
    p ← lift (protected_headers ci)
    decoded ← lift (decode_views (decoder p.string))
    views ← lift (protected_views decoded)
    merged ← lift (merge (o.capacity (length p.string)) ref [] views m)
    pure (record { headers = merged; cache_item = some ci })

  unfoldable pub get_header_store_properties :
      List DbufVal → Action (HeaderStoreCache o) HeaderStoreProperties
  unfolding cache_item with_item
  get_header_store_properties details = do
    tp ← lift (get_header_store_params details)
    m ← lift (request_headers [] none details)
    ci ← cache_item tp
    with_item m.0 m.1 ci
