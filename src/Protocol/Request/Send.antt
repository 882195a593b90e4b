-- ===== src/Protocol/Request/Send.antt =====
-- protocol/request.go: a request and its response on a stream.
use dbuf_demo_go.Common.{false, Bytes, Option, none, some}
use dbuf_demo_go.Basic.Registry
use dbuf_demo_go.Basic.Val
use dbuf_demo_go.Basic.Val.{
  DbufVal, DbufValSeq, leaf, nest, Sequence, no_items, item, to_dbuf_val_string,
}
use dbuf_demo_go.Basic.Error.{Result, ok, err, GoError, wrap_with, error_base, no_errors}
use dbuf_demo_go.Basic.Keys.Equality.{key_eq}
use dbuf_demo_go.Protocol.Reader.{Reader, map_err}
use dbuf_demo_go.Protocol.Stream.{read_header_initial, get_header_params}
use dbuf_demo_go.Protocol.Body.{lookup}
use dbuf_demo_go.Protocol.Outside.{Outside}
use dbuf_demo_go.Protocol.Action.{Action, pure, lift, ◌>>=◌}
use dbuf_demo_go.Protocol.Store.Cache.{HeaderStoreCache}
use dbuf_demo_go.Protocol.Store.Properties.{HeaderStoreProperties, get_header_store_properties}
use dbuf_demo_go.Protocol.Request.{Request, write_request}

pub record Response : Type 0 where
  pub header_store_properties : HeaderStoreProperties
  pub body : Reader

-- The response with an error in its headers is an error.
abbrev pub response_checked : Response → Option DbufVal → Result Response
response_checked re none = ok re
response_checked re (some ree) = err (error_base (item (leaf ree) no_items) no_errors)

module _ (o : Outside) where
  -- The headers of the response, and the rest of the stream.
  unfoldable pub read_response : Reader → Action (HeaderStoreCache o) Response
  read_response r = do
    initial ← lift (read_header_initial r 0 false)
    params ←
        lift
          (map_err (wrap_with "Get header params failed") (get_header_params initial.1 initial.0))
    properties ← get_header_store_properties o (params.0.header_details)
    pure (record { header_store_properties = properties; body = params.1 })

  -- `fmt.Errorf("text: %w", err)` of a call that changes the state.
  abbrev pub wrap_action {ℓ κ} :
      {S : Type ℓ} {A : Type κ} → (GoError → GoError) → Action S A → Action S A
  wrap_action f m s = (map_err f (m s).0, (m s).1)

  unfoldable pub send_request :
      Result (Bytes → Result Reader) → Request → Action (HeaderStoreCache o) Response
  unfolding write_request read_response
  send_request stream req = do
    opened ← lift stream
    b ← lift (write_request req)
    r ← lift (opened b)
    wrap_action (wrap_with "Read response failed") (read_response r)

  unfoldable pub send_request_check_error :
      Result (Bytes → Result Reader) → Request → Action (HeaderStoreCache o) Response
  unfolding send_request
  send_request_check_error stream req = do
    re ← send_request stream req
    lift (
        response_checked re (
          lookup (re.header_store_properties.headers)
            (to_dbuf_val_string (Val.registry Registry.error))))
