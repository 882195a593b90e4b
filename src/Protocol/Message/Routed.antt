-- ===== src/Protocol/Message/Routed.antt =====
-- What `RoutePaths` gives to the application.
use dbuf_demo_go.Common.{
  negated, ◌≡◌, ◌⊎◌, inl, inr, refl, sym, ◌∙◌, subst, true, not, ◌==◌, if-elim, String,
}
use dbuf_demo_go.Common.{List, [], ◌∷◌, Bytes, Option, none, some}
use dbuf_demo_go.Basic.ParseType
use dbuf_demo_go.Basic.Val.{DbufVal, DbufValString}
use dbuf_demo_go.Basic.Error.{Result, ok, err, panic, stuck, GoError}
use dbuf_demo_go.Protocol.Names
use dbuf_demo_go.Protocol.Reader.{Reader}
use dbuf_demo_go.Protocol.Body.{get_single_body}
use dbuf_demo_go.Protocol.Body.Taken.{take_single_body}
use dbuf_demo_go.Protocol.Body.Taken.Agreement.{take_single_body-left}
use dbuf_demo_go.Protocol.Outside.{Outside}
use dbuf_demo_go.Protocol.Action.{Action}
use dbuf_demo_go.Protocol.Store.Item
use dbuf_demo_go.Protocol.Store.Item.{HeaderStoreCacheItem}
use dbuf_demo_go.Protocol.Dispatch.{RequestResponse}
use dbuf_demo_go.Protocol.Identity.Create.{create_identity}
use dbuf_demo_go.Protocol.Message.{
  Served, mended, aside, refuse_operation, received, deliver_to, deliver_body, deliver_for,
  deliver_message, route_part, route_path, route_without_error, finished, route_paths,
}

module _ (o : Outside) (App : Type 0)
    (receive_message : DbufVal → DbufValString → Action App (Unit {0})) where
  -- The application has not been called, or once, with the body of the request and the identity of its
  -- item, which is authenticated.
  abbrev pub IsDelivered : RequestResponse o → App → App → Type 0
  IsDelivered rr app app' =
      (app' ≡ app)
      ⊎ ((ci : HeaderStoreCacheItem) × (body : DbufVal) × (id : DbufValString)
          × (rr.request_header_store_properties.cache_item ≡ some ci)
          × (ci.is_authenticated ≡ true)
          × (Item.identity ci ≡ ok id)
          × (get_single_body rr.request_reader (rr.request_header_store_properties.headers)
                Names.small_request_buffer_size
              ≡ ok body)
          × (app' ≡ (receive_message body id app).1))

  received-app :
      (rr : RequestResponse o) (r : Result (Unit {0}) × App)
      → (received o App receive_message rr r).1.1 ≡ r.1
  received-app rr (ok u, app) = refl
  received-app rr (err e, app) = refl
  received-app rr (panic, app) = refl
  received-app rr (stuck, app) = refl

  mended-app :
      (text : String) (r : Result (Unit {0}) × Served o App) → (mended o App text r).1.1 ≡ r.1.1
  mended-app text (ok u, served) = refl
  mended-app text (err e, served) = refl
  mended-app text (panic, served) = refl
  mended-app text (stuck, served) = refl

  finished-app :
      (r : Result (Unit {0}) × Served o App) → (finished o App receive_message r).1.1 ≡ r.1.1
  finished-app (ok u, (rr, app)) = refl
  finished-app (err e, served) = refl
  finished-app (panic, served) = refl
  finished-app (stuck, served) = refl

  deliver_message-IsDelivered :
      (rr : RequestResponse o) (app : App)
      → IsDelivered rr app
          (deliver_message o App receive_message Names.small_request_buffer_size (rr, app)).1.1
  unfolding deliver_message
  deliver_message-IsDelivered rr app = for_item rr.request_header_store_properties.cache_item refl
    where
      Goal : Result (Unit {0}) × Served o App → Type 0
      Goal r = IsDelivered rr app r.1.1

      taken : Result DbufVal × Reader
      taken =
          take_single_body (rr.request_header_store_properties.headers)
            Names.small_request_buffer_size rr.request_reader

      rr' : RequestResponse o
      rr' = record rr { request_reader = taken.1 }

      same :
          taken.0
          ≡ get_single_body rr.request_reader
              (rr.request_header_store_properties.headers)
              Names.small_request_buffer_size
      same =
          (take_single_body-left (rr.request_header_store_properties.headers)
            Names.small_request_buffer_size rr.request_reader).0

      to_application :
          (ci : HeaderStoreCacheItem)
          → rr.request_header_store_properties.cache_item ≡ some ci
          → ci.is_authenticated ≡ true
          → (body : DbufVal) → taken.0 ≡ ok body
          → (id : Result DbufValString) → Item.identity ci ≡ id
          → Goal (deliver_to o App receive_message id body (rr', app))
      to_application ci h a body b (ok id) e =
          inr (ci, body, id, h, a, e, sym same ∙ b, received-app rr' (receive_message body id app))
      to_application ci h a body b (err x) e = inl refl
      to_application ci h a body b panic e = inl refl
      to_application ci h a body b stuck e = inl refl

      for_body :
          (ci : HeaderStoreCacheItem)
          → rr.request_header_store_properties.cache_item ≡ some ci
          → ci.is_authenticated ≡ true
          → (body : Result DbufVal) → taken.0 ≡ body
          → Goal (deliver_body o App receive_message ci body (rr', app))
      for_body ci h a (ok body) b = to_application ci h a body b (Item.identity ci) refl
      for_body ci h a (err e) b = inl refl
      for_body ci h a panic b = inl refl
      for_body ci h a stuck b = inl refl

      for_item :
          (i : Option HeaderStoreCacheItem)
          → rr.request_header_store_properties.cache_item ≡ i
          → Goal (deliver_for o App receive_message i Names.small_request_buffer_size (rr, app))
      for_item none h = inl refl
      for_item (some ci) h =
          if-elim Goal (not ci.is_authenticated) _ _ (λ a. inl refl)
            (λ a. for_body ci h (negated ci.is_authenticated a) taken.0 refl)

  route_part-IsDelivered :
      (drawn : Result Bytes) (p : DbufVal) (rr : RequestResponse o) (app : App)
      → IsDelivered rr app (route_part o App receive_message drawn p (rr, app)).1.1
  route_part-IsDelivered drawn p rr app =
      let Goal : Result (Unit {0}) × Served o App → Type 0 = λ r. IsDelivered rr app r.1.1 in
      if-elim Goal (p.type == ParseType.registry) _ _
        (λ r.
          if-elim Goal (p.value == Names.identity) _ _
            (λ i. inl (mended-app _ (aside o App (create_identity o drawn) (rr, app))))
            (λ i.
              if-elim Goal (p.value == Names.deliver_message) _ _
                (λ d.
                  subst (IsDelivered rr app)
                    (sym (
                      mended-app _ (
                        deliver_message o App receive_message Names.small_request_buffer_size
                          (rr, app))))
                    (deliver_message-IsDelivered rr app))
                (λ d. inl refl)))
        (λ r. inl refl)

  route_path-IsDelivered :
      (drawn : Result Bytes) (path : List DbufVal) (rr : RequestResponse o) (app : App)
      → IsDelivered rr app (route_path o App receive_message drawn path (rr, app)).1.1
  route_path-IsDelivered drawn [] rr app = inl refl
  route_path-IsDelivered drawn (p ∷ []) rr app = route_part-IsDelivered drawn p rr app
  route_path-IsDelivered drawn (p ∷ q ∷ path) rr app = inl refl

  route_without_error-IsDelivered :
      (drawn : Result Bytes) (e : Option GoError) (rr : RequestResponse o) (app : App)
      → IsDelivered rr app (route_without_error o App receive_message drawn e (rr, app)).1.1
  route_without_error-IsDelivered drawn none rr app =
      route_path-IsDelivered drawn (rr.request_path_properties.sub_path) rr app
  route_without_error-IsDelivered drawn (some e) rr app = inl refl

  -- `RoutePaths` calls the application at most once, and then for a request with an authenticated
  -- item, with the body of the request and the identity of that item; it does not touch the
  -- application otherwise.
  pub route_paths-IsDelivered :
      (drawn : Result Bytes) (rr : RequestResponse o) (app : App)
      → IsDelivered rr app (route_paths o App receive_message drawn (rr, app)).1.1
  unfolding route_paths
  route_paths-IsDelivered drawn rr app =
      let rr' = refuse_operation o App rr in
      let routed : IsDelivered rr app
          (route_without_error o App receive_message drawn rr'.response_error (rr', app)).1.1 =
        if-elim
          (λ x.
            IsDelivered rr app
              (route_without_error o App receive_message drawn x.response_error (x, app)).1.1)
          rr.request_path_properties.has_operation _ _ (λ e. inl refl)
          (λ e. route_without_error-IsDelivered drawn rr.response_error rr app) in
      subst (IsDelivered rr app)
        (sym (
          finished-app
            (route_without_error o App receive_message drawn rr'.response_error (rr', app))))
        routed
