-- ===== src/Protocol/Execute/Delivered.antt =====
-- `Execute` with `RoutePaths` as its route: the streams of a connection.
use dbuf_demo_go.Common.{some, ◌≡◌, refl, sym, subst, inl, inr, Bool, Bytes}
use dbuf_demo_go.Common.Dict.{nat_eq, AllValues}
use dbuf_demo_go.Basic.Val.{DbufVal, DbufValString, InitialDecode}
use dbuf_demo_go.Basic.Error.{Result, ok, err, panic, stuck}
use dbuf_demo_go.Data.Storage.{Storage}
use dbuf_demo_go.Protocol.Reader.{Reader, Gives}
use dbuf_demo_go.Protocol.Names
use dbuf_demo_go.Protocol.Body.{get_single_body}
use dbuf_demo_go.Protocol.Store.Properties.{HeaderStoreProperties}
use dbuf_demo_go.Protocol.Dispatch.Init.{init_request}
use dbuf_demo_go.Protocol.Outside.{Outside}
use dbuf_demo_go.Protocol.Action.{Action}
use dbuf_demo_go.Protocol.Store.Item
use dbuf_demo_go.Protocol.Store.Item.{HeaderStoreCacheItem}
use dbuf_demo_go.Protocol.Store.Cache.{HeaderStoreCache, make_header_store_cache}
use dbuf_demo_go.Protocol.Store.Cache.Steps.{Reach, Reach-trans}
use dbuf_demo_go.Protocol.Store.Cache.Authentic.{Unmarked, Marking, IsAuthentic}
use dbuf_demo_go.Protocol.Dispatch.{RequestResponse}
use dbuf_demo_go.Protocol.Dispatch.Init.Reached.{init_request-Reach}
use dbuf_demo_go.Protocol.Dispatch.Init.Authentic.{ItemIsAuthentic, init_request-IsAuthentic}
use dbuf_demo_go.Protocol.Message.{route_paths}
use dbuf_demo_go.Protocol.Message.Routed.{IsDelivered, route_paths-IsDelivered}
use dbuf_demo_go.Protocol.Message.Later.{route_paths-IsLater}
use dbuf_demo_go.Protocol.Execute.{Server, execute}
use dbuf_demo_go.Protocol.Execute.Turns.{ReadsOn}
use dbuf_demo_go.Protocol.Execute.Kept.{Keeps, execute-keeps}

-- What holds of the value, and what follows from its being given.
gives_with :
    {A : Type 0} {Q : A → Type 0} (P : A → Type 0) (m : Result A)
    → ((a : A) → m ≡ ok a → Q a)
    → Gives P m
    → Gives (λ a. P a × Q a) m
gives_with P (ok a) h g = (g, h a refl)
gives_with P (err e) h g = tt
gives_with P panic h g = tt
gives_with P stuck h g = tt

module _ (o : Outside) (App : Type 0)
    (receive_message : DbufVal → DbufValString → Action App (Unit {0})) where
  open o use {database}

  -- The properties and the reader of a request that came when the store of headers was as it is after
  -- any calls that have been made since it was `c₀`.
  abbrev pub IsRequest : HeaderStoreCache o → HeaderStoreProperties × Reader → Type 0
  IsRequest c₀ request =
      (r : Reader) × (a : InitialDecode) × (c : HeaderStoreCache o) × Reach o Unmarked c₀ c
      × ((init_request o r a c).0 ≡ ok request)

  -- What the application has been given since it was `app₀`, in order: for each time the body of a
  -- request, with the identity of the item of this request, whose mark goes back to a signature.
  pub data Deliveries (c₀ : HeaderStoreCache o) (app₀ : App) : App → Type 0 where
    nothing : Deliveries c₀ app₀ app₀
    delivered :
        {app : App} (body : DbufVal) (id : DbufValString) (ci : HeaderStoreCacheItem)
        (properties : HeaderStoreProperties) (r : Reader)
        → Deliveries c₀ app₀ app
        → IsRequest c₀ (properties, r)
        → properties.cache_item ≡ some ci
        → Marking o c₀ ci
        → Item.identity ci ≡ ok id
        → get_single_body r properties.headers Names.small_request_buffer_size ≡ ok body
        → Deliveries c₀ app₀ (receive_message body id app).1

  abbrev pub InOrder : HeaderStoreCache o → App → HeaderStoreCache o → App → Type 0
  InOrder c₀ app₀ c app = Reach o Unmarked c₀ c × Deliveries c₀ app₀ app

  module _ (c₀ : HeaderStoreCache o) (app₀ : App) where
    abbrev IsGiven : HeaderStoreProperties × Reader → Type 0
    IsGiven request = ItemIsAuthentic o c₀ request.0.cache_item × IsRequest c₀ request

    route-Deliveries :
        (rr : RequestResponse o) (app app' : App)
        → IsGiven (rr.request_header_store_properties, rr.request_reader)
        → Deliveries c₀ app₀ app
        → IsDelivered o App receive_message rr app app'
        → Deliveries c₀ app₀ app'
    route-Deliveries rr app app' a d (inl same) = subst (Deliveries c₀ app₀) (sym same) d
    route-Deliveries rr app app' (a, is) d
          (inr (ci, body, id, item, marked, has_id, has_body, same)) =
        subst (Deliveries c₀ app₀) (sym same) (
          delivered body id ci rr.request_header_store_properties rr.request_reader d is item
            (subst (ItemIsAuthentic o c₀) item a marked) has_id has_body)

  module _ (drawn : RequestResponse o → App → Result Bytes) where
    -- `RoutePaths` as the route of `Execute`: `drawn` are the random bytes for a request.
    abbrev pub message_route : Action (RequestResponse o × App) (Unit {0})
    message_route (rr, app) = route_paths o App receive_message (drawn rr app) (rr, app)

    pub message_route-ReadsOn : ReadsOn o App message_route
    message_route-ReadsOn rr app =
        (route_paths-IsLater o Unmarked rr App receive_message (drawn rr app) app).0

    message_route-Keeps :
        (c₀ : HeaderStoreCache o) (app₀ : App)
        → AllValues (IsAuthentic o c₀) c₀.cache
        → Keeps o App message_route (InOrder c₀ app₀) (IsGiven c₀ app₀)
    message_route-Keeps c₀ app₀ authentic = record {
      init_keeps = λ r a c app (reached, d). (init_request-Reach o c₀ r a c reached, d);
      init_gives = λ r a c app (reached, d).
          gives_with _ (init_request o r a c).0 (λ request e. (r, a, c, reached, e))
            (init_request-IsAuthentic o c₀ authentic r a c reached);
      route_keeps = λ rr app is (reached, d). (
        Reach-trans o Unmarked reached
            (route_paths-IsLater o Unmarked rr App receive_message (drawn rr app) app).1,
        route-Deliveries c₀ app₀ rr app _ is d
            (route_paths-IsDelivered o App receive_message (drawn rr app) rr app),
      );
    }

    -- Whatever stream `Execute` is given on a connection that has been served so far in order, it leaves
    -- the connection in order: all that was done to its store of headers are stores of items that
    -- requests have made, loads, and writes to the storage, and every message that the application has
    -- been given is the body of a request, with the identity of its item, which was signed with a key
    -- that the storage had for this identity.
    pub execute-InOrder :
        (has_writer : Bool) (storage : Storage database) (app₀ : App) (r : Reader)
        (s : Server o App)
        → InOrder (make_header_store_cache o storage) app₀ s.cache s.app
        → InOrder
            (make_header_store_cache o storage)
            app₀
            (execute o App message_route has_writer r s).2.cache
            (execute o App message_route has_writer r s).2.app
    unfolding make_header_store_cache
    execute-InOrder has_writer storage app₀ r s =
        let c₀ = make_header_store_cache o storage in
        execute-keeps o App message_route has_writer (InOrder c₀ app₀) (IsGiven c₀ app₀)
          (message_route-Keeps c₀ app₀ tt) r s
