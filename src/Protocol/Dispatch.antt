-- ===== src/Protocol/Dispatch.antt =====
-- protocol/dispatch.go: a request with its response, and the headers of a response.
pub mod Init
pub mod Respond
use dbuf_demo_go.Common.{Option, some, ℕ}
use dbuf_demo_go.Basic.Val
use dbuf_demo_go.Basic.Val.{DbufValSeq, leaf, nest, no_items, item}
use dbuf_demo_go.Basic.Registry
use dbuf_demo_go.Basic.Number.{uint64}
use dbuf_demo_go.Basic.Error.{
  Result, ok, err, panic, stuck, GoError, error_to_val, error_base, no_errors,
}
use dbuf_demo_go.Protocol.Names
use dbuf_demo_go.Protocol.Reader.{Reader}
use dbuf_demo_go.Protocol.Path.{PathProperties}
use dbuf_demo_go.Protocol.Outside.{Outside}
use dbuf_demo_go.Protocol.Action.{Action}
use dbuf_demo_go.Protocol.Store.Cache.{HeaderStoreCache}
use dbuf_demo_go.Protocol.Store.Properties.{HeaderStoreProperties}

unfoldable pub value_header : DbufValSeq → DbufValSeq
value_header v = nest Val.map (item (leaf (Val.registry Registry.value)) (item v no_items))

unfoldable pub error_header : GoError → DbufValSeq
unfolding error_to_val
error_header er =
    nest Val.map (item (leaf (Val.registry Registry.error)) (item (error_to_val er) no_items))

unfoldable pub empty_header : DbufValSeq
empty_header = nest Val.map no_items

unfoldable pub make_error_on_other_stream : ℕ → DbufValSeq → DbufValSeq
unfolding uint64
make_error_on_other_stream stream_id v = nest Val.map (
    item (leaf (Val.registry Names.reference)) (
      item (leaf (Val.registry Registry.error)) (
        item (leaf (Val.registry Names.stream_id)) (
          item (leaf (uint64 stream_id))
            (item (leaf (Val.registry Registry.error)) (item v no_items))))))

-- protocol/request.go
unfoldable pub not_authenticated : GoError
not_authenticated =
    error_base (item (leaf (Val.registry Names.not_authenticated)) no_items) no_errors

-- What the routes of a request read and write of a `RequestResponse`.
pub record RequestResponse (o : Outside) : Type 0 where
  pub request_reader : Reader
  pub request_header_store_properties : HeaderStoreProperties
  pub request_path_properties : PathProperties
  pub header_store_cache : HeaderStoreCache o
  pub response_headers : Option DbufValSeq
  pub response_body : Option DbufValSeq
  pub response_reader : Option Reader
  pub response_error : Option GoError

module _ {o : Outside} where
  -- `rr.ResponseError = err; return nil`
  abbrev pub respond_error : GoError → Action (RequestResponse o) (Unit {0})
  respond_error e rr = (ok tt, record rr { response_error = some e })

  abbrev pub respond_headers : DbufValSeq → Action (RequestResponse o) (Unit {0})
  respond_headers v rr = (ok tt, record rr { response_headers = some v })

  -- `if err != nil { rr.ResponseError = f(err); return nil }`
  abbrev pub or_respond {ℓ} :
      {A : Type ℓ}
      → (GoError → GoError)
      → Result A
      → (A → Action (RequestResponse o) (Unit {0}))
      → Action (RequestResponse o) (Unit {0})
  or_respond f (ok a) rest rr = rest a rr
  or_respond f (err e) rest rr = respond_error (f e) rr
  or_respond f panic rest rr = (panic, rr)
  or_respond f stuck rest rr = (stuck, rr)
