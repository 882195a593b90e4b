-- ===== src/Protocol/Dispatch/Init/Authentic.antt =====
-- The item of a request that `InitRequest` finds, and its mark.
use dbuf_demo_go.Common.{refl}
use dbuf_demo_go.Common.{[], length, Option, none, some, if-elim}
use dbuf_demo_go.Basic.Val.{DbufVal, InitialDecode}
use dbuf_demo_go.Protocol.Reader.{Reader, Gives, gives_ok}
use dbuf_demo_go.Protocol.Stream.{decoder, get_header_params}
use dbuf_demo_go.Protocol.Outside.{Outside}
use dbuf_demo_go.Protocol.Body.{Headers}
use dbuf_demo_go.Protocol.Action.{Action, pure, continue-Gives}
use dbuf_demo_go.Protocol.Store.Item.{HeaderStoreCacheItem, protected_headers}
use dbuf_demo_go.Protocol.Store.Params.{HeaderStoreParams, get_header_store_params}
use dbuf_demo_go.Protocol.Store.Cache.{HeaderStoreCache, store, load}
use dbuf_demo_go.Protocol.Store.Cache.Steps.{Reach}
use dbuf_demo_go.Common.Dict.{AllValues}
use dbuf_demo_go.Protocol.Store.Cache.Authentic.{
  Unmarked, IsAuthentic, store-IsAuthentic, load-IsAuthentic,
}
use dbuf_demo_go.Protocol.Store.Properties.{
  HeaderStoreProperties, new_item, stored_item, loaded_item, cache_item, protected_views, with_item,
  get_header_store_properties,
}
use dbuf_demo_go.Protocol.Store.Merge.{request_headers, decode_views, merge}
use dbuf_demo_go.Protocol.Dispatch.Init.{init_request}
use dbuf_demo_go.Common.Dict.{nat_eq}
use dbuf_demo_go.Protocol.Dispatch.Init.Reached.{
  StoresHeaders, get_header_store_params-StoresHeaders, stored_item-Reach,
}

module _ (o : Outside) where
  module _ (c₀ : HeaderStoreCache o) where
    abbrev P : HeaderStoreCache o → Type 0
    P c = Reach o Unmarked c₀ c

    abbrev pub ItemIsAuthentic : Option HeaderStoreCacheItem → Type 0
    ItemIsAuthentic none = Unit {0}
    ItemIsAuthentic (some ci) = IsAuthentic o c₀ ci

    module _ (authentic : AllValues (IsAuthentic o c₀) c₀.cache) where
      stored_item-IsAuthentic :
          (tp : HeaderStoreParams) (c : HeaderStoreCache o)
          → P c
          → Gives ItemIsAuthentic (stored_item o tp c).0
      unfolding stored_item
      stored_item-IsAuthentic tp c h =
          let ci = new_item tp.store_params in
          let m = store o ci tp.store_id c in
          if-elim
            (λ (x : Action (HeaderStoreCache o) (Option HeaderStoreCacheItem)).
              Gives ItemIsAuthentic (x c).0)
            tp.is_store _ _
            (λ s.
              continue-Gives ItemIsAuthentic (λ i. pure (some i)) m.0 m.1
                (λ ci' e.
                  gives_ok (IsAuthentic o c₀) m.0 ci'
                    (store-IsAuthentic o c₀ c ci tp.store_id h refl) e))
            (λ s. tt)

      loaded_item-IsAuthentic :
          (tp : HeaderStoreParams) (stored : Option HeaderStoreCacheItem) (c : HeaderStoreCache o)
          → P c
          → ItemIsAuthentic stored
          → Gives ItemIsAuthentic (loaded_item o tp stored c).0
      unfolding loaded_item
      loaded_item-IsAuthentic tp stored c h is =
          let m = load o tp.load_id c in
          if-elim
            (λ (x : Action (HeaderStoreCache o) (Option HeaderStoreCacheItem)).
              Gives ItemIsAuthentic (x c).0)
            tp.is_load _ _
            (λ l.
              continue-Gives ItemIsAuthentic (λ i. pure (some i)) m.0 m.1
                (λ ci' e.
                  gives_ok (IsAuthentic o c₀) m.0 ci'
                    (load-IsAuthentic o c₀ c tp.load_id authentic h) e))
            (λ l. is)

      cache_item-IsAuthentic :
          (tp : HeaderStoreParams) (c : HeaderStoreCache o)
          → StoresHeaders tp
          → P c
          → Gives ItemIsAuthentic (cache_item o tp c).0
      unfolding cache_item
      cache_item-IsAuthentic tp c two h =
          let m = stored_item o tp c in
          continue-Gives ItemIsAuthentic (loaded_item o tp) m.0 m.1 (λ stored e.
            loaded_item-IsAuthentic tp stored m.1 (stored_item-Reach o c₀ tp c two h)
              (gives_ok ItemIsAuthentic m.0 stored (stored_item-IsAuthentic tp c h) e))

      with_item-IsAuthentic :
          (m : Headers) (ref : Option DbufVal) (ci : Option HeaderStoreCacheItem)
          (c : HeaderStoreCache o)
          → ItemIsAuthentic ci
          → Gives
              (λ (p : HeaderStoreProperties). ItemIsAuthentic p.cache_item)
              (with_item o m ref ci c).0
      unfolding with_item
      with_item-IsAuthentic m ref none c is = tt
      with_item-IsAuthentic m ref (some ci) c is =
          continue-Gives _ _ (protected_headers ci) c (λ p e.
            continue-Gives _ _ (decode_views (decoder p.string)) c (λ decoded e'.
              continue-Gives _ _ (protected_views decoded) c (λ views e''.
                continue-Gives _ _ (merge (o.capacity (length p.string)) ref [] views m) c
                  (λ merged e₃. is))))

      pub init_request-IsAuthentic :
          (r : Reader) (a : InitialDecode) (c : HeaderStoreCache o)
          → P c
          → Gives
              (λ (x : HeaderStoreProperties × Reader). ItemIsAuthentic x.0.cache_item)
              (init_request o r a c).0
      unfolding init_request get_header_store_properties
      init_request-IsAuthentic r a c h = continue-Gives _ _ (get_header_params r a) c (λ params e.
          let details = params.0.header_details in
          let whole = get_header_store_properties o details c in
          continue-Gives _ _ whole.0 whole.1 (λ properties e'.
            gives_ok (λ (p : HeaderStoreProperties). ItemIsAuthentic p.cache_item) whole.0
              properties
              (continue-Gives _ _ (get_header_store_params details) c (λ tp e₁.
                continue-Gives _ _ (request_headers [] none details) c (λ m e₂.
                  let two =
                    gives_ok StoresHeaders _ tp (get_header_store_params-StoresHeaders details)
                      e₁ in
                  let found = cache_item o tp c in
                  continue-Gives _ _ found.0 found.1 (λ ci e₃.
                    with_item-IsAuthentic m.0 m.1 ci found.1 (
                      gives_ok ItemIsAuthentic found.0 ci (cache_item-IsAuthentic tp c two h)
                        e₃)))))
              e'))
