-- ===== src/Protocol/Dispatch/Init/Reached.antt =====
-- What `GetHeaderStoreProperties` and `InitRequest` do to the store of headers, and the item that
-- they find there.
use dbuf_demo_go.Common.{ℕ, ◌≤◌, ◌≡◌, refl, true, ltb, ◌==◌, ltb→le}
use dbuf_demo_go.Common.{List, [], ◌∷◌, map, length, Option, none, some, if-elim}
use dbuf_demo_go.Basic.ParseType
use dbuf_demo_go.Basic.Val
use dbuf_demo_go.Basic.Decode.{decode_sequence}
use dbuf_demo_go.Basic.Val.{contents, DbufVal, InitialDecode, to_dbuf_val_string}
use dbuf_demo_go.Basic.Keys.{find_key}
use dbuf_demo_go.Protocol.Names
use dbuf_demo_go.Protocol.Reader.{Reader, Gives, if-Gives, bind-Gives, gives_ok}
use dbuf_demo_go.Protocol.Stream.{decoder, get_header_params}
use dbuf_demo_go.Protocol.Outside.{Outside}
use dbuf_demo_go.Protocol.Body.{Headers}
use dbuf_demo_go.Protocol.Action.{Action, pure, continue-keeps, bind-keeps}
use dbuf_demo_go.Protocol.Store.Item.{HeaderStoreCacheItem, at, protected_headers}
use dbuf_demo_go.Protocol.Store.Params.{
  HeaderStoreParams, store_items, store_of, params_of, params_at, get_header_store_params,
}
use dbuf_demo_go.Protocol.Store.Cache.{HeaderStoreCache, store, load}
use dbuf_demo_go.Protocol.Store.Cache.Steps.{Reach, next, stores, loads}
use dbuf_demo_go.Protocol.Store.Cache.Authentic.{Unmarked}
use dbuf_demo_go.Protocol.Store.Properties.{
  new_item, stored_item, loaded_item, cache_item, protected_views, with_item,
  get_header_store_properties,
}
use dbuf_demo_go.Protocol.Store.Merge.{request_headers, decode_views, merge}
use dbuf_demo_go.Protocol.Dispatch.Init.{init_request}

-- An item that a request wants to store has an id and headers.
abbrev pub StoresHeaders : HeaderStoreParams → Type 0
StoresHeaders tp = tp.is_store ≡ true → 2 ≤ length tp.store_params

store_of-StoresHeaders : (sv : List DbufVal) → Gives StoresHeaders (store_of sv)
unfolding store_of
store_of-StoresHeaders sv =
    if-Gives _ (ltb (length sv) 2) _ _ (λ l. tt)
      (λ l. bind-Gives _ (at sv 0) _ (λ id e. bind-Gives _ (at sv 1) _ (λ headers e'.
        if-Gives _ (id.type == ParseType.uint) _ _
          (λ u.
            if-Gives _ (headers.type == ParseType.map) _ _ (λ m s. ltb→le (length sv) 2 l)
              (λ m. tt))
          (λ u. tt))))

params_of-StoresHeaders : (v : DbufVal) → Gives StoresHeaders (params_of v)
unfolding params_of
params_of-StoresHeaders v =
    if-Gives _ (v.type == ParseType.uint) _ _ (λ u s. absurd cc)
      (λ u.
        if-Gives _ (v.type == ParseType.array) _ _
          (λ a. bind-Gives _ (decode_sequence (decoder (contents v.slice))) _ (λ d e.
            bind-Gives _ (store_items d.error d.seq) _ (λ sv e'. store_of-StoresHeaders sv)))
          (λ a. tt))

params_at-StoresHeaders :
    (seq : List DbufVal) (i : Option ℕ) → Gives StoresHeaders (params_at seq i)
params_at-StoresHeaders seq none = λ s. absurd cc
params_at-StoresHeaders seq (some i) = bind-Gives _ (at seq _) _ (λ v e. params_of-StoresHeaders v)

pub get_header_store_params-StoresHeaders :
    (seq : List DbufVal) → Gives StoresHeaders (get_header_store_params seq)
unfolding get_header_store_params
get_header_store_params-StoresHeaders seq =
    params_at-StoresHeaders seq (find_key seq (Val.registry Names.header_store))

length-items : (ps : List DbufVal) → length (map to_dbuf_val_string ps) ≡ length ps
length-items [] = refl
length-items (p ∷ ps) = rw (length-items ps) refl

module _ (o : Outside) where
  module _ (c₀ : HeaderStoreCache o) where
    abbrev P : HeaderStoreCache o → Type 0
    P c = Reach o Unmarked c₀ c

    stored-Reach :
        (tp : HeaderStoreParams) (c : HeaderStoreCache o)
        → 2 ≤ length tp.store_params
        → P c
        → P (store o (new_item tp.store_params) tp.store_id c).1
    stored-Reach tp c two h = next h (
        stores c (new_item tp.store_params) tp.store_id (rw (length-items tp.store_params) two)
          refl)

    pub stored_item-Reach :
        (tp : HeaderStoreParams) (c : HeaderStoreCache o)
        → StoresHeaders tp
        → P c
        → P (stored_item o tp c).1
    unfolding stored_item
    stored_item-Reach tp c two h =
        if-elim (λ (m : Action (HeaderStoreCache o) (Option HeaderStoreCacheItem)). P (m c).1)
          tp.is_store _ _
          (λ s.
            bind-keeps P (store o (new_item tp.store_params) tp.store_id) (λ ci. pure (some ci)) c
              (stored-Reach tp c (two s) h) (λ ci c' h'. h'))
          (λ s. h)

    loaded_item-Reach :
        (tp : HeaderStoreParams) (stored : Option HeaderStoreCacheItem) (c : HeaderStoreCache o)
        → P c
        → P (loaded_item o tp stored c).1
    unfolding loaded_item
    loaded_item-Reach tp stored c h =
        if-elim (λ (m : Action (HeaderStoreCache o) (Option HeaderStoreCacheItem)). P (m c).1)
          tp.is_load _ _
          (λ l.
            bind-keeps P (load o tp.load_id) (λ ci. pure (some ci)) c (next h (loads c tp.load_id))
              (λ ci c' h'. h'))
          (λ l. h)

    cache_item-Reach :
        (tp : HeaderStoreParams) (c : HeaderStoreCache o)
        → StoresHeaders tp
        → P c
        → P (cache_item o tp c).1
    unfolding cache_item
    cache_item-Reach tp c two h =
        bind-keeps P (stored_item o tp) (loaded_item o tp) c (stored_item-Reach tp c two h)
          (λ ci c' h'. loaded_item-Reach tp ci c' h')

    with_item-Reach :
        (m : Headers) (ref : Option DbufVal) (ci : Option HeaderStoreCacheItem)
        (c : HeaderStoreCache o)
        → P c
        → P (with_item o m ref ci c).1
    unfolding with_item
    with_item-Reach m ref none c h = h
    with_item-Reach m ref (some ci) c h = continue-keeps P _ (protected_headers ci) c h (λ p e.
        continue-keeps P _ (decode_views (decoder p.string)) c h (λ decoded e'.
          continue-keeps P _ (protected_views decoded) c h (λ views e''.
            continue-keeps P _ (merge (o.capacity (length p.string)) ref [] views m) c h
              (λ merged e₃. h))))

    pub init_request-Reach :
        (r : Reader) (a : InitialDecode) (c : HeaderStoreCache o) → P c → P (init_request o r a c).1
    unfolding init_request get_header_store_properties
    init_request-Reach r a c h = continue-keeps P _ (get_header_params r a) c h (λ params e.
        bind-keeps P (get_header_store_properties o (params.0.header_details)) _ c
          (continue-keeps P _ (get_header_store_params params.0.header_details) c h (λ tp e'.
            continue-keeps P _ (request_headers [] none params.0.header_details) c h (λ m e''.
              bind-keeps P (cache_item o tp) _ c
                (cache_item-Reach tp c
                  (gives_ok StoresHeaders _ tp
                    (get_header_store_params-StoresHeaders params.0.header_details) e')
                  h)
                (λ ci c' h'. with_item-Reach m.0 m.1 ci c' h'))))
          (λ properties c' h'. h'))
