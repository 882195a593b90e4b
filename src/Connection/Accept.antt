-- ===== src/Connection/Accept.antt =====
-- connection/connection.go: the loops that accept streams and datagrams, `HandleConnection`, `Listen`
-- and `Dial`. What QUIC gives to a loop is a list of results, in their order.
use dbuf_demo_go.Common.{
  Bool, true, false, ◌&&◌, if◌then◌else◌, ℕ, List, [], ◌∷◌, map, Bytes, Option, none, some,
}
use dbuf_demo_go.Basic.Error.{Result, ok, ◌>>=◌, wrap_with}
use dbuf_demo_go.Data.Storage.{Storage}
use dbuf_demo_go.Protocol.Reader.{Reader, map_err}
use dbuf_demo_go.Protocol.Writer.{Writer}
use dbuf_demo_go.Protocol.Outside.{Outside}
use dbuf_demo_go.Protocol.Action.{Action}
use dbuf_demo_go.Protocol.Store.Cache.{HeaderStoreCache, make_header_store_cache}
use dbuf_demo_go.Protocol.Dispatch.{RequestResponse}
use dbuf_demo_go.Connection.Streams.{Shared}

-- What a call that accepts returns. The loops tell the errors apart in the log only.
pub data Accepted {ℓ} (A : Type ℓ) : Type ℓ where
  accepted : A → Accepted A
  timed_out cancelled failed : Accepted A

-- How a loop ends: `waits` is a call that has not returned.
pub data LoopEnd : Type 0 where
  waits returns breaks : LoopEnd

abbrev has_ended : LoopEnd → Bool
has_ended waits = false
has_ended e = true

-- `LoopStreams`, `LoopUniStreams` and `LoopDatagram`: what is given to a new goroutine, and the end.
unfoldable pub accept_loop {ℓ} : {A : Type ℓ} → List (Accepted A) → List A × LoopEnd
accept_loop [] = ([], waits)
accept_loop (accepted a ∷ rest) = (a ∷ (accept_loop rest).0, (accept_loop rest).1)
accept_loop (timed_out ∷ rest) = ([], returns)
accept_loop (cancelled ∷ rest) = ([], returns)
accept_loop (failed ∷ rest) = ([], breaks)

-- A stream that was accepted: its id, its reader and its writer, and what `OpenUniStreamSync` will
-- return if `HandleStream` calls it.
pub record BiStream : Type 0 where
  pub stream_id : ℕ
  pub reader : Reader
  pub writer : Writer
  pub opened : Result Writer

module _ (o : Outside) (App : Type 0) where
  abbrev pub Route : Type 0
  Route = Action (RequestResponse o × App) (Unit {0})

  -- The routes are nil if they are not given. The storage is that of `Listen` and `Dial`.
  pub record ConnectionConfig : Type 0 where
    pub route_func_bi : Option Route
    pub route_func_uni : Option Route
    pub route_func_datagram : Option Route
    pub setup_connection : Option (Shared o App → Shared o App)
    pub auto_close : Bool

  -- What QUIC gives to the loops of a connection.
  pub record Arrivals : Type 0 where
    pub streams : List (Accepted BiStream)
    pub uni_streams : List (Accepted Reader)
    pub datagrams : List (Accepted Bytes)

  -- The goroutines that a connection starts.
  pub data Task : Type 0 where
    bi : Route → BiStream → Task
    uni : Route → Reader → Task
    datagram : Route → Bytes → Task

  -- A loop is run if it has a route.
  abbrev pub started {ℓ} :
      {A : Type ℓ} → (Route → A → Task) → Option Route → List (Accepted A) → List Task × LoopEnd
  started task none arrivals = ([], returns)
  started task (some route) arrivals =
      let (items, loop_end) = accept_loop arrivals in (map (task route) items, loop_end)

  -- The tasks of the three loops, which run beside one another, and the end of the connection: the code
  -- of the deferred `CloseWithError`, once no loop waits.
  pub record ConnectionRun : Type 0 where
    pub first : Shared o App
    pub bi_tasks : List Task
    pub uni_tasks : List Task
    pub datagram_tasks : List Task
    pub closed_with : Option ℕ

  abbrev pub set_up : Option (Shared o App → Shared o App) → Shared o App → Shared o App
  set_up none both = both
  set_up (some f) both = f both

  -- `wg.Wait()` and the deferred call.
  abbrev pub close_code : Bool → LoopEnd → LoopEnd → LoopEnd → Option ℕ
  close_code auto_close b u d =
      if auto_close && has_ended b && has_ended u && has_ended d then some 0 else none

  unfoldable pub handle_connection : ConnectionConfig → Arrivals → Shared o App → ConnectionRun
  unfolding accept_loop
  handle_connection config arrivals both =
      let b = started bi config.route_func_bi arrivals.streams in
      let u = started uni config.route_func_uni arrivals.uni_streams in
      let d = started datagram config.route_func_datagram arrivals.datagrams in
      record {
        first = set_up config.setup_connection both;
        bi_tasks = b.0;
        uni_tasks = u.0;
        datagram_tasks = d.0;
        closed_with = close_code config.auto_close b.1 u.1 d.1;
      }

-- `ExportKeyingMaterial` of the TLS state of a connection.
abbrev pub Exporter : Type 0
Exporter = Bytes → Bytes → ℕ → Result Bytes

-- The world of one connection.
abbrev pub of_connection : Outside → Exporter → Outside
of_connection o e = record o { export_keying_material = e }

-- A connection with its store of headers.
abbrev pub Connection : Outside → Type 0
Connection o = (e : Exporter) × HeaderStoreCache (of_connection o e)

module _ (o : Outside) where
  open o use {database}

  abbrev pub connection : Storage database → Exporter → Connection o
  connection storage e = (e, make_header_store_cache (of_connection o e) storage)

  -- The loop of `Listen` behind a `tr.Listen` that has returned no error: the connections that
  -- `HandleConnection` is called with. Each has a store of headers of its own, and they share the
  -- storage.
  unfoldable pub listen : Storage database → List (Accepted Exporter) → List (Connection o)
  unfolding accept_loop
  listen storage arrivals = map (connection storage) (accept_loop arrivals).0

  -- `Dial`, by what `tr.Dial` returns.
  unfoldable pub dial : Storage database → Result Exporter → Result (Connection o)
  dial storage dialled =
      map_err (wrap_with "Dial failed") dialled >>= λ e. ok (connection storage e)
