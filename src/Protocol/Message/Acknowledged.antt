-- ===== src/Protocol/Message/Acknowledged.antt =====
-- When `RoutePaths` answers a message with an empty header and no error.
use dbuf_demo_go.Common.{
  negated, ◌≡◌, ◌↔◌, refl, sym, ◌∙◌, true, false, not, if-elim, [], ◌∷◌, Bytes, Option, none, some,
}
use dbuf_demo_go.Basic.Val
use dbuf_demo_go.Basic.Val.{DbufVal, DbufValSeq, DbufValString}
use dbuf_demo_go.Basic.Error.{Result, ok, err, panic, stuck, GoError, wrap_with}
use dbuf_demo_go.Protocol.Names
use dbuf_demo_go.Protocol.Reader.{Reader}
use dbuf_demo_go.Protocol.Body.{get_single_body}
use dbuf_demo_go.Protocol.Body.Taken.{take_single_body}
use dbuf_demo_go.Protocol.Body.Taken.Agreement.{take_single_body-left}
use dbuf_demo_go.Protocol.Outside.{Outside}
use dbuf_demo_go.Protocol.Action.{Action}
use dbuf_demo_go.Protocol.Store.Item
use dbuf_demo_go.Protocol.Store.Item.{HeaderStoreCacheItem}
use dbuf_demo_go.Protocol.Dispatch.{RequestResponse, empty_header, not_authenticated}
use dbuf_demo_go.Protocol.Message.{
  received, Served, mended, unhandled, answered, deliver_to, deliver_body, deliver_for,
  deliver_message, finished, route_paths,
}

unhandled-some : (headers : Option DbufValSeq) (e : GoError) → unhandled headers (some e) ≡ some e
unhandled-some none e = refl
unhandled-some (some v) e = refl

module _ (o : Outside) (App : Type 0)
    (receive_message : DbufVal → DbufValString → Action App (Unit {0})) where
  -- A request for `deliver_message`, with no error and no response so far.
  abbrev pub IsForDelivery : RequestResponse o → Type 0
  IsForDelivery rr =
      (rr.request_path_properties.has_operation ≡ false)
      × (rr.request_path_properties.sub_path ≡ Val.registry Names.deliver_message ∷ [])
      × (rr.response_error ≡ none)

  -- The response has no error, and its header is empty.
  abbrev pub IsAcknowledged : Result (Unit {0}) × Served o App → Type 0
  IsAcknowledged x =
      (x.0 ≡ ok tt) × (x.1.0.response_error ≡ none) × (x.1.0.response_headers ≡ some empty_header)

  -- The application has taken the body of the request, with the identity of its item, which is
  -- authenticated, and is left as it then is.
  abbrev pub IsTaken : RequestResponse o → App → App → Type 0
  IsTaken rr app app' =
      (ci : HeaderStoreCacheItem) × (body : DbufVal) × (id : DbufValString)
      × (rr.request_header_store_properties.cache_item ≡ some ci)
      × (ci.is_authenticated ≡ true)
      × (Item.identity ci ≡ ok id)
      × (get_single_body rr.request_reader (rr.request_header_store_properties.headers)
            Names.small_request_buffer_size
          ≡ ok body)
      × (receive_message body id app ≡ (ok tt, app'))

  abbrev routed : Result (Unit {0}) × Served o App → Result (Unit {0}) × Served o App
  routed y = finished o App receive_message (mended o App "Deliver message failed" y)

  route_paths-routed :
      (drawn : Result Bytes) (rr : RequestResponse o) (app : App)
      → IsForDelivery rr
      → route_paths o App receive_message drawn (rr, app)
        ≡ routed (
            deliver_for o App receive_message rr.request_header_store_properties.cache_item
              Names.small_request_buffer_size
              (rr, app))
  unfolding route_paths deliver_message
  route_paths-routed drawn rr app (no_operation, path, no_error) =
      rw (no_operation, no_error, path) refl

  module _ (rr : RequestResponse o) (app : App) where
    -- What an acknowledgement says of the application.
    abbrev Tells : Result (Unit {0}) × Served o App → Type 0
    Tells y = IsAcknowledged (routed y) → IsTaken rr app (routed y).1.1

    with_error :
        (rr' : RequestResponse o) (e : GoError)
        → rr'.response_error ≡ some e
        → Tells (ok tt, (rr', app))
    unfolding answered
    with_error rr' e has_error (result, no_error, headers) =
        absurd (cc (has_error, no_error, unhandled-some rr'.response_headers e))

    with_handler_error :
        (rr' : RequestResponse o) (app' : App) (e : GoError) → Tells (err e, (rr', app'))
    unfolding answered
    with_handler_error rr' app' e (result, no_error, headers) = absurd (cc (no_error))

    abbrev taken : Result DbufVal × Reader
    taken =
        take_single_body (rr.request_header_store_properties.headers)
          Names.small_request_buffer_size rr.request_reader

    abbrev rr₁ : RequestResponse o
    rr₁ = record rr { request_reader = taken.1 }

    received-Tells :
        (ci : HeaderStoreCacheItem) (body : DbufVal) (id : DbufValString)
        (r : Result (Unit {0}) × App)
        → rr.request_header_store_properties.cache_item ≡ some ci
        → ci.is_authenticated ≡ true
        → Item.identity ci ≡ ok id
        → taken.0 ≡ ok body
        → receive_message body id app ≡ r
        → Tells (received o App receive_message rr₁ r)
    received-Tells ci body id (ok u, app') item marked has_id has_body has_taken =
        let (same, _) =
          take_single_body-left (rr.request_header_store_properties.headers)
            Names.small_request_buffer_size rr.request_reader in
        λ acknowledged. (ci, body, id, item, marked, has_id, sym same ∙ has_body, has_taken)
    received-Tells ci body id (err e, app') item marked has_id has_body has_taken =
        with_handler_error rr₁ app' (wrap_with "Receive message failed" e)
    received-Tells ci body id (panic, app') item marked has_id has_body has_taken =
        λ (result, _, _). absurd cc
    received-Tells ci body id (stuck, app') item marked has_id has_body has_taken =
        λ (result, _, _). absurd cc

    to_application-Tells :
        (ci : HeaderStoreCacheItem) (body : DbufVal) (id : Result DbufValString)
        → rr.request_header_store_properties.cache_item ≡ some ci
        → ci.is_authenticated ≡ true
        → taken.0 ≡ ok body
        → Item.identity ci ≡ id
        → Tells (deliver_to o App receive_message id body (rr₁, app))
    to_application-Tells ci body (ok id) item marked has_body has_id =
        received-Tells ci body id _ item marked has_id has_body refl
    to_application-Tells ci body (err e) item marked has_body has_id = with_handler_error rr₁ app e
    to_application-Tells ci body panic item marked has_body has_id = λ (result, _, _). absurd cc
    to_application-Tells ci body stuck item marked has_body has_id = λ (result, _, _). absurd cc

    body-Tells :
        (ci : HeaderStoreCacheItem) (body : Result DbufVal)
        → rr.request_header_store_properties.cache_item ≡ some ci
        → ci.is_authenticated ≡ true
        → taken.0 ≡ body
        → Tells (deliver_body o App receive_message ci body (rr₁, app))
    body-Tells ci (ok body) item marked has_body =
        to_application-Tells ci body (Item.identity ci) item marked has_body refl
    body-Tells ci (err e) item marked has_body =
        with_error (record rr₁ { response_error = some e }) e refl
    body-Tells ci panic item marked has_body = λ (result, _, _). absurd cc
    body-Tells ci stuck item marked has_body = λ (result, _, _). absurd cc

    item-Tells :
        (i : Option HeaderStoreCacheItem)
        → rr.request_header_store_properties.cache_item ≡ i
        → Tells (deliver_for o App receive_message i Names.small_request_buffer_size (rr, app))
    item-Tells none item = λ (result, _, _). absurd cc
    item-Tells (some ci) item =
        if-elim Tells (not ci.is_authenticated) _ _
          (λ a.
            with_error (record rr { response_error = some not_authenticated }) not_authenticated
              refl)
          (λ a. body-Tells ci taken.0 item (negated ci.is_authenticated a) refl)

    acknowledged :
        (app' : App)
        → IsTaken rr app app'
        → IsForDelivery rr
        → IsAcknowledged (
            routed (
              deliver_for o App receive_message rr.request_header_store_properties.cache_item
                Names.small_request_buffer_size
                (rr, app)))
    unfolding answered Item.identity empty_header
    acknowledged app' (ci, body, id, item, marked, has_id, has_body, has_taken) for_delivery =
        let (same, _) =
          take_single_body-left (rr.request_header_store_properties.headers)
            Names.small_request_buffer_size rr.request_reader in
        let (_, _, no_error) = for_delivery in
        rw (item, marked, same ∙ has_body, has_id, has_taken, no_error) (refl, refl, refl)

  -- A request for `deliver_message` is answered with an empty header and no error just if the
  -- application has taken its body, with the identity of its item, and the item is authenticated.
  pub route_paths-acknowledges_iff :
      (drawn : Result Bytes) (rr : RequestResponse o) (app : App)
      → IsForDelivery rr
      → IsAcknowledged (route_paths o App receive_message drawn (rr, app))
        ↔ IsTaken rr app (route_paths o App receive_message drawn (rr, app)).1.1
  route_paths-acknowledges_iff drawn rr app for_delivery =
      rw (route_paths-routed drawn rr app for_delivery) (
        item-Tells rr app rr.request_header_store_properties.cache_item refl,
        λ t. acknowledged rr app _ t for_delivery,
      )
