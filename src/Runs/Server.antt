-- ===== src/Runs/Server.antt =====
-- A server with a stream of an authenticated client: a header with the headers of the client, and a
-- message.
use dbuf_demo_go.Common.{◌≡◌, refl, arith, true, false, List, [], ◌∷◌, Bytes, none, some}
use dbuf_demo_go.Basic.Val
use dbuf_demo_go.Basic.Val.{DbufVal, DbufValSeq, DbufValString, leaf, nest, no_items, item}
use dbuf_demo_go.Basic.Registry
use dbuf_demo_go.Basic.Error.{Result, ok, err, eof}
use dbuf_demo_go.Basic.Encode.{encode_full_seq}
use dbuf_demo_go.Data.Storage.{Storage}
use dbuf_demo_go.Protocol.Names
use dbuf_demo_go.Protocol.Reader.{Reader}
use dbuf_demo_go.Protocol.Action.{Action}
use dbuf_demo_go.Protocol.Store.Cache.{HeaderStoreCache, make_header_store_cache}
use dbuf_demo_go.Protocol.Dispatch.{RequestResponse}
use dbuf_demo_go.Protocol.Execute.{Server, execute}
use dbuf_demo_go.Protocol.Execute.Delivered.{message_route}
use dbuf_demo_go.Runs.Outside.{toy, toy_database}
use dbuf_demo_go.Runs.Stores.{empty_storage, key_data}
use dbuf_demo_go.Runs.Messages.{keep_messages, hello}
use dbuf_demo_go.Protocol.Client.Message.{create_request_for_deliver_message}
use dbuf_demo_go.Runs.Clients.{first_header}
use dbuf_demo_go.Protocol.Stream.{
  read_stream_group, read_header_initial, read_rest, header_initial, get_header_params,
}
use dbuf_demo_go.Protocol.Reader.{read_full}
use dbuf_demo_go.Basic.Decode.{
  decode_initial, start_initial, resume_initial, check_canonical, started_code, decode_sequence,
  decode_loop, decode, decode_slice, read_slice,
}
use dbuf_demo_go.Protocol.Dispatch.Init.{init_request}
use dbuf_demo_go.Basic.Check.{
  check_complete, check_loop, round, read_initial, initial_round, count_item, consume, consumed,
  enter, read_top, read_slice_of, slice_round, leave, has_invalid_utf8,
}
use dbuf_demo_go.Basic.Keys.{validate_keys_unique, validate_from, find_key, find_from}
use dbuf_demo_go.Protocol.Store.Properties.{get_header_store_properties}
use dbuf_demo_go.Protocol.Store.Params.{get_header_store_params}
use dbuf_demo_go.Basic.Compare.{equal, compare, compare_bytes, slice_equal}
use dbuf_demo_go.Protocol.Store.Merge.{request_headers, decode_views, merge}
use dbuf_demo_go.Protocol.Store.Cache.{store}
use dbuf_demo_go.Protocol.Store.Item
use dbuf_demo_go.Basic.Encode.{encode_sequence}
use dbuf_demo_go.Protocol.Path.{get_path_properties}
use dbuf_demo_go.Data.Storage
use dbuf_demo_go.Protocol.Store.Authentication.{validate_key_params, create_signing_message}
use dbuf_demo_go.Protocol.Execute.{path_and_error}
use dbuf_demo_go.Protocol.Message.{route_paths}
use dbuf_demo_go.Protocol.Body.Taken.{take_single_body}
use dbuf_demo_go.Protocol.Body.{get_body_length_properties, get_single_body_of}
use dbuf_demo_go.Protocol.Writer.{respond_to}
use dbuf_demo_go.Protocol.Dispatch.{empty_header, make_error_on_other_stream}
use dbuf_demo_go.Connection.Streams.{Shared, server, ErrorStream, handle_stream}
use dbuf_demo_go.Connection.Streams.Reported.{
  new_stream, message, message_items, ReadsBack, handle_stream-ReadsBack,
}
use dbuf_demo_go.Connection.Accept.{BiStream}
use dbuf_demo_go.Protocol.Store.Item.{HeaderStoreCacheItem}
use dbuf_demo_go.Runs.Clients.{client_item}
use dbuf_demo_go.Protocol.Execute.Turns.{Turns, execute-Turns}
use dbuf_demo_go.Protocol.Execute.Delivered.{message_route-ReadsOn}
use dbuf_demo_go.Protocol.Stream.{StreamGroup, part_error}
use dbuf_demo_go.Basic.Error.{GoError, data_type_not_accepted, error_to_val, error_to_val_internal}
use dbuf_demo_go.Basic.Wire.{IsWellFormed, wire, wire_items, header}
use dbuf_demo_go.Basic.Val.{to_dbuf_val_string}
use dbuf_demo_go.Common.{◌≤◌, drop, length}
use dbuf_demo_go.Basic.Number.{uint64}
use dbuf_demo_go.Common.Dict
use dbuf_demo_go.Common.Dict.{nat_eq}

-- What `SendMessage` sends behind the header of the client.
abbrev request : DbufValSeq
request = (create_request_for_deliver_message (leaf hello) first_header).header

abbrev written : Result Bytes → Bytes
written (ok b) = b
written m = []

abbrev stream : Reader
stream = record { bytes = written (encode_full_seq request); last = eof }

-- The storage has the key of the client.
abbrev storage : Storage toy_database
storage = record empty_storage { kv = (0xD8 ∷ 136 ∷ 0x61 ∷ 7 ∷ 0xE0 ∷ [], key_data) ∷ [] }

abbrev route : Action (RequestResponse toy × List DbufVal) (Unit {0})
route = message_route toy (List DbufVal) keep_messages (λ rr app. ok [])

abbrev first : Server toy (List DbufVal)
first = record {
  cache = make_header_store_cache toy storage;
  app = [];
  writer = record { sent = []; failure = none };
}

abbrev end_state : Server toy (List DbufVal)
end_state = (execute toy (List DbufVal) route true stream first).2

-- The message is delivered, and the response is a header without entries.
served : (end_state.app ≡ hello ∷ []) × (end_state.writer.sent ≡ 0xA0 ∷ [])
unfolding execute encode_full_seq read_stream_group read_full decode_initial start_initial
    read_header_initial read_rest header_initial resume_initial init_request get_header_params
    check_complete check_loop round read_initial check_canonical started_code initial_round
    count_item consume consumed enter read_top read_slice_of slice_round leave has_invalid_utf8
    decode_sequence decode_loop decode decode_slice read_slice validate_keys_unique validate_from
    Val.get_dbuf_val get_header_store_properties get_header_store_params find_key find_from equal
    compare compare_bytes request_headers store Item.get_size make_header_store_cache Item.identity
    Item.identity_key encode_sequence Item.authority Item.reference_headers get_path_properties
    Storage.new_transaction slice_equal Storage.get validate_key_params create_signing_message
    decode_views merge path_and_error route_paths take_single_body get_body_length_properties
    get_single_body_of respond_to empty_header create_request_for_deliver_message
served = (refl, refl)

abbrev bi_stream : BiStream
bi_stream = record { stream_id = 0; reader = stream; writer = first.writer; opened = ok new_stream }

abbrev after_stream : Shared toy (List DbufVal)
after_stream =
    (handle_stream toy (List DbufVal) route 0 (ok new_stream) stream first.writer
      (make_header_store_cache toy storage, [])).left

abbrev at_start : StreamGroup
at_start = record { stream_group = 0; first_byte = 184; use_first_byte = true }

abbrev behind : Reader
behind = record stream { bytes = drop 1 (stream.bytes) }

starts : read_stream_group stream ≡ ok (at_start, behind)
unfolding read_stream_group encode_full_seq read_full decode_initial start_initial
    create_request_for_deliver_message
starts = refl

execute-Turns_example :
    ((execute toy (List DbufVal) route true stream first).0 ≡ 0)
    × Turns toy (List DbufVal) route true 184 true behind first (
      (execute toy (List DbufVal) route true stream first).1,
      (execute toy (List DbufVal) route true stream first).2,
    )
execute-Turns_example =
    execute-Turns toy (List DbufVal) route true stream behind at_start first
      (message_route-ReadsOn toy (List DbufVal) keep_messages (λ rr app. ok [])) starts refl

-- A request whose header is a text.
abbrev broken : Reader
broken = record { bytes = 0x40 ∷ []; last = eof }

abbrev header_error : GoError
header_error = part_error Names.header data_type_not_accepted

breaks :
    execute toy
      (List DbufVal)
      route
      true
      broken
      (server toy (List DbufVal) (make_header_store_cache toy storage, []) new_stream)
    ≡ (
      0,
      err header_error,
      server toy (List DbufVal) (make_header_store_cache toy storage, []) new_stream,
    )
unfolding execute read_stream_group read_full decode_initial start_initial read_header_initial
    header_initial
breaks = refl

message-IsWellFormed : IsWellFormed (message 4 header_error)
unfolding IsWellFormed make_error_on_other_stream error_to_val error_to_val_internal uint64 wire
    header
message-IsWellFormed = ground arith

message_short : length (wire_items (message_items (message 4 header_error))) ≤ Names.max_header_size
unfolding make_error_on_other_stream error_to_val error_to_val_internal uint64 wire header
message_short = omega arith

handle_stream-ReadsBack_example :
    (es : ErrorStream) × ((handle_stream toy
        (List DbufVal)
        route
        4
        (ok new_stream)
        broken
        new_stream
        (make_header_store_cache toy storage, [])).error_stream
      ≡ some es)
    × (es.closed ≡ true)
    × ReadsBack 0 (message 4 header_error) es.writer.sent
    × ((handle_stream toy
          (List DbufVal)
          route
          4
          (ok new_stream)
          broken
          new_stream
          (make_header_store_cache toy storage, [])).stream
        ≡ record { cancel_read = some 0; cancel_write = some Registry.error; closed = false })
handle_stream-ReadsBack_example =
    handle_stream-ReadsBack toy (List DbufVal) route 4 0 header_error broken new_stream
      (make_header_store_cache toy storage, [])
      (server toy (List DbufVal) (make_header_store_cache toy storage, []) new_stream) breaks
      (omega arith) message-IsWellFormed message_short

abbrev submitted : HeaderStoreCacheItem
submitted = record client_item { is_authenticated = false }

abbrev with_item : HeaderStoreCache toy
with_item = (store toy submitted 0 (make_header_store_cache toy storage)).1
