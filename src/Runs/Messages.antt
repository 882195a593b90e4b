-- ===== src/Runs/Messages.antt =====
-- The routes of a request, on messages of authenticated and other senders.
use dbuf_demo_go.Common.{◌≡◌, ◌↔◌, ap, arith, refl, true, false, List, [], ◌∷◌, Option, none, some}
use dbuf_demo_go.Basic.Val
use dbuf_demo_go.Basic.Val.{DbufVal, DbufValSeq, DbufValString, to_dbuf_val_string}
use dbuf_demo_go.Basic.Registry
use dbuf_demo_go.Basic.Keys.{key_equal}
use dbuf_demo_go.Basic.Error.{ok, panic, eof}
use dbuf_demo_go.Protocol.Names
use dbuf_demo_go.Protocol.Body.{
  get_single_body, zero_val, get_body_length_properties, get_single_body_of,
}
use dbuf_demo_go.Protocol.Body.Taken.{take_single_body}
use dbuf_demo_go.Protocol.Action.{Action}
use dbuf_demo_go.Protocol.Store.Item
use dbuf_demo_go.Protocol.Store.Item.{HeaderStoreCacheItem}
use dbuf_demo_go.Protocol.Dispatch.{RequestResponse}
use dbuf_demo_go.Protocol.Message.{deliver_message, route_paths}
use dbuf_demo_go.Protocol.Message.Answered.{IsAnswered, HandlerReturns, route_paths-IsAnswered}
use dbuf_demo_go.Protocol.Message.Acknowledged.{
  IsAcknowledged, IsTaken, route_paths-acknowledges_iff,
}
use dbuf_demo_go.Protocol.Message.Routed.{IsDelivered, route_paths-IsDelivered}
use dbuf_demo_go.Protocol.Reader.{Returns}
use dbuf_demo_go.Runs.Outside.{toy}
use dbuf_demo_go.Runs.Stores.{empty_cache}

-- An application that keeps the messages.
abbrev pub keep_messages : DbufVal → DbufValString → Action (List DbufVal) (Unit {0})
keep_messages body id app = (ok tt, body ∷ app)

abbrev sender : HeaderStoreCacheItem
sender = record {
  store_params =
      to_dbuf_val_string (Val.uint 7)
      ∷ to_dbuf_val_string (Val.map_slice [])
      ∷ to_dbuf_val_string (Val.bytes (1 ∷ []))
      ∷ [];
  is_authenticated = true;
}

abbrev pub hello : DbufVal
hello = Val.text (104 ∷ 105 ∷ [])

-- The message stands in the header.
abbrev request_of : Option HeaderStoreCacheItem → RequestResponse toy
request_of item = record {
  request_reader = record { bytes = []; last = eof };
  request_header_store_properties = record {
    headers = (to_dbuf_val_string (Val.registry Registry.value), hello) ∷ [];
    cache_item = item;
  };
  request_path_properties = record {
    authority = [];
    sub_path = Val.registry Names.deliver_message ∷ [];
    has_operation = false;
    operation_id = zero_val;
    operation_params = [];
  };
  header_store_cache = empty_cache;
  response_headers = none;
  response_body = none;
  response_reader = none;
  response_error = none;
}

abbrev request : RequestResponse toy
request = request_of (some sender)

hello_body :
    get_single_body request.request_reader
      (request.request_header_store_properties.headers)
      Names.small_request_buffer_size
    ≡ ok hello
unfolding get_single_body key_equal
hello_body = refl

has_id : Item.identity sender ≡ ok (to_dbuf_val_string (Val.bytes (1 ∷ [])))
unfolding Item.identity
has_id = refl

route_paths-acknowledges_iff_example :
    IsAcknowledged toy
      (List DbufVal)
      keep_messages
      (route_paths toy (List DbufVal) keep_messages (ok []) (request, []))
    ↔ IsTaken toy
        (List DbufVal)
        keep_messages
        request
        []
        (route_paths toy (List DbufVal) keep_messages (ok []) (request, [])).1.1
route_paths-acknowledges_iff_example =
    route_paths-acknowledges_iff toy (List DbufVal) keep_messages (ok []) request []
      (refl, refl, refl)

-- The message is taken.
is_taken : IsTaken toy (List DbufVal) keep_messages request [] (hello ∷ [])
is_taken =
    (sender, hello, to_dbuf_val_string (Val.bytes (1 ∷ [])), refl, refl, has_id, hello_body, refl)

route_paths-IsDelivered_example :
    IsDelivered toy
      (List DbufVal)
      keep_messages
      request
      []
      (route_paths toy (List DbufVal) keep_messages (ok []) (request, [])).1.1
route_paths-IsDelivered_example =
    route_paths-IsDelivered toy (List DbufVal) keep_messages (ok []) request []

delivers :
    Returns
      (deliver_message toy
        (List DbufVal)
        keep_messages
        Names.small_request_buffer_size
        (request, [])).0
unfolding deliver_message take_single_body key_equal Item.identity get_body_length_properties
    get_single_body_of
delivers = tt

returns : HandlerReturns toy (List DbufVal) keep_messages (ok []) request []
returns = (
  λ on.
      let value : Names.deliver_message ≡ on.0.value = ap (λ (v : DbufVal). v.value) (head on.1) in
      absurd (omega (arith, value, on.3)),
  λ on. delivers,
)
  where
    head : {a b : DbufVal} → (a ∷ []) ≡ (b ∷ []) → a ≡ b
    head h = cc

route_paths-IsAnswered_example :
    IsAnswered toy
      (List DbufVal)
      keep_messages
      (route_paths toy (List DbufVal) keep_messages (ok []) (request, []))
route_paths-IsAnswered_example =
    route_paths-IsAnswered toy (List DbufVal) keep_messages (ok []) request [] returns

-- Without an item the request has a handler that panics.
without_item :
    (route_paths toy (List DbufVal) keep_messages (ok []) (request_of none, [])).0 ≡ panic
unfolding route_paths
without_item = refl
