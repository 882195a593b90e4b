-- ===== src/Protocol/Message.antt =====
-- protocol/message.go: `DeliverMessage` and `RoutePaths`. The application's `receiveMessage` is a
-- parameter, with a state of its own; the errors that are logged are left out.
pub mod Routed
pub mod Answered
pub mod Acknowledged
pub mod Later
use dbuf_demo_go.Common.{
  String, ℕ, Bool, true, false, not, ◌&&◌, ◌==◌, if◌then◌else◌, ltb, List, [], ◌∷◌, Bytes, Option,
  none, some, length,
}
use dbuf_demo_go.Basic.ParseType
use dbuf_demo_go.Basic.Val
use dbuf_demo_go.Basic.Val.{DbufVal, DbufValSeq, DbufValString}
use dbuf_demo_go.Basic.Error.{
  Result, ok, err, panic, stuck, GoError, wrap_with, plain, data_key_not_accepted,
}
use dbuf_demo_go.Protocol.Names
use dbuf_demo_go.Protocol.Stream.{part_error}
use dbuf_demo_go.Protocol.Body.Taken.{take_single_body}
use dbuf_demo_go.Protocol.Path.{PathProperties}
use dbuf_demo_go.Protocol.Outside.{Outside}
use dbuf_demo_go.Protocol.Action.{Action, continue}
use dbuf_demo_go.Protocol.Store.Item.{HeaderStoreCacheItem}
use dbuf_demo_go.Protocol.Store.Item
use dbuf_demo_go.Protocol.Dispatch.{RequestResponse, not_authenticated, empty_header, error_header}
use dbuf_demo_go.Protocol.Identity.Create.{create_identity}

-- `if !rr.ResponseHeaders.HasValue && rr.ResponseError == nil`
abbrev pub unhandled : Option DbufValSeq → Option GoError → Option GoError
unhandled none none = some (plain "Request not handled")
unhandled headers e = e

-- `if rr.ResponseError != nil`
abbrev pub error_or : Option DbufValSeq → Option GoError → Option DbufValSeq
error_or headers none = headers
error_or headers (some e) = some (error_header e)

module _ (o : Outside) (App : Type 0) where
  -- A request with its response, and the state of the application.
  abbrev pub Served : Type 0
  Served = RequestResponse o × App

  -- `rr.ResponseError = err`
  abbrev pub set_error : GoError → RequestResponse o → RequestResponse o
  set_error e rr = record rr { response_error = some e }

  -- What `RoutePaths` makes of the error of a handler.
  abbrev pub mended : String → Result (Unit {0}) × Served → Result (Unit {0}) × Served
  mended text (ok u, served) = (ok u, served)
  mended text (err e, (rr, app)) = (ok tt, (set_error (wrap_with text e) rr, app))
  mended text (panic, served) = (panic, served)
  mended text (stuck, served) = (stuck, served)

  -- The end of `RoutePaths`: a request always gets the headers of a response.
  unfoldable pub answered : RequestResponse o → RequestResponse o
  answered rr =
      let e = unhandled rr.response_headers rr.response_error in
      record rr { response_error = e; response_headers = error_or rr.response_headers e }

  -- A handler that does not change the application.
  abbrev pub aside : Action (RequestResponse o) (Unit {0}) → Action Served (Unit {0})
  aside handler (rr, app) = ((handler rr).0, ((handler rr).1, app))

  abbrev pub refuse_operation : RequestResponse o → RequestResponse o
  refuse_operation rr =
      if rr.request_path_properties.has_operation
      then set_error (part_error Names.header (part_error Names.operation data_key_not_accepted)) rr
      else rr

  module _ (receive_message : DbufVal → DbufValString → Action App (Unit {0})) where
    -- The end of `DeliverMessage`, by the answer of the application.
    abbrev pub received : RequestResponse o → Result (Unit {0}) × App → Result (Unit {0}) × Served
    received rr (ok u, app) = (ok tt, (record rr { response_headers = some empty_header }, app))
    received rr (err e, app) = (err (wrap_with "Receive message failed" e), (rr, app))
    received rr (panic, app) = (panic, (rr, app))
    received rr (stuck, app) = (stuck, (rr, app))

    -- The body goes to the application, with the identity of the item.
    abbrev pub deliver_to : Result DbufValString → DbufVal → Action Served (Unit {0})
    deliver_to (ok id) body (rr, app) = received rr (receive_message body id app)
    deliver_to (err e) body served = (err e, served)
    deliver_to panic body served = (panic, served)
    deliver_to stuck body served = (stuck, served)

    abbrev pub deliver_body : HeaderStoreCacheItem → Result DbufVal → Action Served (Unit {0})
    deliver_body ci (ok body) served = deliver_to (Item.identity ci) body served
    deliver_body ci (err e) (rr, app) = (ok tt, (set_error e rr, app))
    deliver_body ci panic served = (panic, served)
    deliver_body ci stuck served = (stuck, served)

    -- `CacheItem` is nil if the request neither stores nor loads an item.
    abbrev pub deliver_for : Option HeaderStoreCacheItem → ℕ → Action Served (Unit {0})
    deliver_for none max_message_size served = (panic, served)
    deliver_for (some ci) max_message_size (rr, app) =
        let taken =
          take_single_body (rr.request_header_store_properties.headers) max_message_size
            rr.request_reader in
        let delivered = deliver_body ci taken.0 (record rr { request_reader = taken.1 }, app) in
        if not ci.is_authenticated
        then (ok tt, (set_error not_authenticated rr, app))
        else delivered

    unfoldable pub deliver_message : ℕ → Action Served (Unit {0})
    deliver_message max_message_size (rr, app) =
        deliver_for rr.request_header_store_properties.cache_item max_message_size (rr, app)

    -- The `switch` on the only part of the path below the authority.
    abbrev pub route_part : Result Bytes → DbufVal → Action Served (Unit {0})
    route_part drawn p served =
        let created = mended "Create identity failed" (aside (create_identity o drawn) served) in
        let delivered =
          mended "Deliver message failed"
            (deliver_message Names.small_request_buffer_size served) in
        if p.type == ParseType.registry
        then (if p.value == Names.identity
            then created
            else if p.value == Names.deliver_message
            then delivered
            else (ok tt, served))
        else (ok tt, served)

    -- A path of another length is not handled.
    abbrev pub route_path : Result Bytes → List DbufVal → Action Served (Unit {0})
    route_path drawn (p ∷ []) served = route_part drawn p served
    route_path drawn path served = (ok tt, served)

    abbrev pub route_without_error : Result Bytes → Option GoError → Action Served (Unit {0})
    route_without_error drawn none (rr, app) =
        route_path drawn (rr.request_path_properties.sub_path) (rr, app)
    route_without_error drawn (some e) served = (ok tt, served)

    abbrev pub finished : Result (Unit {0}) × Served → Result (Unit {0}) × Served
    finished (ok u, (rr, app)) = (ok tt, (answered rr, app))
    finished (err e, served) = (err e, served)
    finished (panic, served) = (panic, served)
    finished (stuck, served) = (stuck, served)

    -- `drawn` are the random bytes of a new identity.
    unfoldable pub route_paths : Result Bytes → Action Served (Unit {0})
    unfolding deliver_message answered
    route_paths drawn (rr, app) =
        let rr' = refuse_operation rr in
        finished (route_without_error drawn rr'.response_error (rr', app))
