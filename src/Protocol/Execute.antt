-- ===== src/Protocol/Execute.antt =====
-- protocol/dispatch.go: `Execute`, which serves the requests of a stream one behind the other. The
-- application's `routeFunc` is a parameter, with a state of its own; it keeps the pointer to the store
-- of headers. `RequestHeaderParams` and `RequestStreamGroup` are read by no route and left out.
pub mod Turns
pub mod Kept
pub mod Delivered
use dbuf_demo_go.Common.{ℕ, zero, suc, Bool, true, false, if◌then◌else◌, ◌==◌, Option, none, some}
use dbuf_demo_go.Common.{length}
use dbuf_demo_go.Basic.Val.{InitialDecode, to_dbuf_val_string}
use dbuf_demo_go.Basic.Error.{Result, ok, err, panic, stuck, GoError, eof, data_value_not_accepted}
use dbuf_demo_go.Protocol.Names
use dbuf_demo_go.Protocol.Reader.{Reader}
use dbuf_demo_go.Protocol.Stream.{StreamGroup, part_error, read_stream_group, read_header_initial}
use dbuf_demo_go.Protocol.Body.{Headers, lookup}
use dbuf_demo_go.Protocol.Path.{
  PathProperties, no_path, reference_key, read_reference, get_path_properties,
}
use dbuf_demo_go.Protocol.Outside.{Outside}
use dbuf_demo_go.Protocol.Action.{Action, pure, lift, reads, continue, ◌>>=◌}
use dbuf_demo_go.Protocol.Writer.{Writer, unless_eof, respond_to}
use dbuf_demo_go.Protocol.Store.Cache.{HeaderStoreCache}
use dbuf_demo_go.Protocol.Store.Properties.{HeaderStoreProperties}
use dbuf_demo_go.Protocol.Dispatch.{RequestResponse}
use dbuf_demo_go.Protocol.Dispatch.Init.{init_request}

-- The `PathProperties` that are returned beside an error: `HasOperation` is set before the operation
-- is looked at.
abbrev path_behind : Result PathProperties → PathProperties
path_behind (ok out) = record out { has_operation = true }
path_behind m = no_path

abbrev path_beside :
    Result PathProperties → Result PathProperties → Result (PathProperties × Option GoError)
path_beside reference (ok out) = ok (out, none)
path_beside reference (err e) = ok (path_behind reference, some e)
path_beside reference panic = panic
path_beside reference stuck = stuck

-- Both results of `GetPathProperties`.
unfoldable pub path_and_error : Headers → Result (PathProperties × Option GoError)
path_and_error headers =
    path_beside (read_reference (lookup headers (to_dbuf_val_string reference_key)))
      (get_path_properties headers)

module _ (o : Outside) (App : Type 0) where
  -- What the streams of a connection share, and the writer of this one.
  pub record Server : Type 0 where
    pub cache : HeaderStoreCache o
    pub app : App
    pub writer : Writer

  abbrev pub on_cache {ℓ} : {A : Type ℓ} → Action (HeaderStoreCache o) A → Action Server A
  on_cache m s = ((m s.cache).0, record s { cache = (m s.cache).1 })

  -- The `RequestResponse` that is given to `routeFunc`.
  abbrev pub request_response :
      HeaderStoreProperties × Reader
      → PathProperties × Option GoError
      → HeaderStoreCache o
      → RequestResponse o
  request_response (properties, r) (path, e) c = record {
    request_reader = r;
    request_header_store_properties = properties;
    request_path_properties = path;
    header_store_cache = c;
    response_headers = none;
    response_body = none;
    response_reader = none;
    response_error = e;
  }

  -- `if w != nil { err = Respond(&rr, w) … }`
  abbrev pub answer : Bool → RequestResponse o → Action Server (Unit {0})
  answer has_writer rr s =
      if has_writer
      then ((respond_to rr s.writer).0, record s { writer = (respond_to rr s.writer).1 })
      else (ok tt, s)

  module _ (route : Action (RequestResponse o × App) (Unit {0})) (has_writer : Bool) where
    -- What the route makes of the request, and the state it leaves.
    abbrev pub routed : RequestResponse o → Action Server (RequestResponse o)
    routed rr s =
        let r = route (rr, s.app) in
        continue (λ _ s'. (ok r.1.0, s')) r.0
          (record s { cache = r.1.0.header_store_cache; app = r.1.1 })

    -- The body of the loop behind `ReadHeaderInitial`: the reader that is left.
    unfoldable pub serve_request : InitialDecode × Reader → Action Server Reader
    serve_request (a, r) = do
      properties ← on_cache (init_request o r a)
      path ← lift (path_and_error properties.0.headers)
      rr ← reads (λ s. ok (request_response properties path s.cache))
      rr' ← routed rr
      _ ← answer has_writer rr'
      pure rr'.request_reader

    -- The end of the stream before a header ends the loop.
    abbrev pub header_or_end :
        (InitialDecode × Reader → Action Server (Unit {0}))
        → Result (InitialDecode × Reader)
        → Action Server (Unit {0})
    header_or_end rest (ok h) s = rest h s
    header_or_end rest (err e) s = (unless_eof e, s)
    header_or_end rest panic s = (panic, s)
    header_or_end rest stuck s = (stuck, s)

    -- `useFirstByte && firstRequest` is the argument `use_first_byte`.
    unfoldable pub execute_loop : ℕ → ℕ → Bool → Reader → Action Server (Unit {0})
    unfolding serve_request
    execute_loop zero first_byte use_first_byte r s = (stuck, s)
    execute_loop (suc fuel) first_byte use_first_byte r s =
        header_or_end
          (λ h s'.
            continue (λ r'. execute_loop fuel first_byte false r') (serve_request h s').0
              (serve_request h s').1)
          (read_header_initial r first_byte use_first_byte) s

    -- A header takes a byte at least, but the first one if its byte has been read.
    abbrev pub execute_fuel : Reader → ℕ
    execute_fuel r = suc (suc (length r.bytes))

    -- Behind `ReadStreamGroup`: both results, and the state that is left.
    abbrev pub executed : Result (StreamGroup × Reader) → Server → ℕ × Result (Unit {0}) × Server
    executed (ok (g, r)) s =
        let served = execute_loop (execute_fuel r) g.first_byte g.use_first_byte r s in
        if g.stream_group == 0
        then (0, served.0, served.1)
        else (g.stream_group, err (part_error Names.stream_group data_value_not_accepted), s)
    executed (err e) s = (0, err e, s)
    executed panic s = (0, panic, s)
    executed stuck s = (0, stuck, s)

    unfoldable pub execute : Reader → Server → ℕ × Result (Unit {0}) × Server
    unfolding execute_loop
    execute r s = executed (read_stream_group r) s
