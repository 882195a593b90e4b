-- ===== src/Protocol/Execute/Turns.antt =====
-- The loop of `Execute` ends, since every request takes bytes of its stream.
use dbuf_demo_go.Common.{ℕ, zero, suc, ◌≤◌, ◌≡◌, refl, arith, Bool, true, false, length, subst}
use dbuf_demo_go.Basic.Val.{InitialDecode}
use dbuf_demo_go.Basic.Error.{Result, ok, err, panic, stuck, GoError}
use dbuf_demo_go.Protocol.Reader.{Reader, Returns, Gives, gives_ok}
use dbuf_demo_go.Protocol.Stream.{
  read_header_initial, get_header_params, StreamGroup, read_stream_group,
}
use dbuf_demo_go.Protocol.Stream.Returns.{read_header_initial-Returns}
use dbuf_demo_go.Protocol.Outside.{Outside}
use dbuf_demo_go.Protocol.Action.{Action, continue, continue-Gives}
use dbuf_demo_go.Protocol.Store.Cache.{HeaderStoreCache}
use dbuf_demo_go.Protocol.Store.Properties.{HeaderStoreProperties, get_header_store_properties}
use dbuf_demo_go.Protocol.Dispatch.{RequestResponse}
use dbuf_demo_go.Protocol.Dispatch.Init.{init_request}
use dbuf_demo_go.Protocol.Writer.{unless_eof}
use dbuf_demo_go.Protocol.Execute.{
  Server, on_cache, request_response, answer, routed, serve_request, header_or_end, execute_loop,
  execute_fuel, execute, path_and_error,
}
use dbuf_demo_go.Protocol.Stream.Left.{
  Leaves, bytes_left, read_header_initial-Leaves, get_header_params-Leaves,
}

module _ (o : Outside) (App : Type 0) (route : Action (RequestResponse o × App) (Unit {0})) where
  init_request-Leaves :
      (r : Reader) (a : InitialDecode) (c : HeaderStoreCache o)
      → Gives (Leaves (length r.bytes)) (init_request o r a c).0
  unfolding init_request
  init_request-Leaves r a c =
      let P = Leaves {A = HeaderStoreProperties} (length r.bytes) in
      continue-Gives P _ (get_header_params r a) c (λ params e.
        continue-Gives P _ (get_header_store_properties o (params.0.header_details) c).0
          (get_header_store_properties o (params.0.header_details) c).1
          (λ properties e'.
            gives_ok (Leaves (length r.bytes)) _ params (get_header_params-Leaves r a) e))

  -- A route reads on in the stream of the request.
  abbrev pub ReadsOn : Type 0
  ReadsOn =
      (rr : RequestResponse o) (app : App)
      → length ((route (rr, app)).1.0.request_reader.bytes) ≤ length (rr.request_reader.bytes)

  module _ (has_writer : Bool) where
    routed-Leaves :
        ReadsOn
        → (rr : RequestResponse o) (s : Server o App)
        → Gives
            (λ (rr' : RequestResponse o).
              length (rr'.request_reader.bytes) ≤ length (rr.request_reader.bytes))
            (routed o App route has_writer rr s).0
    routed-Leaves on rr s =
        let r = route (rr, s.app) in
        continue-Gives
          (λ (rr' : RequestResponse o).
            length (rr'.request_reader.bytes) ≤ length (rr.request_reader.bytes))
          (λ u s'. (ok r.1.0, s')) r.0 (record s { cache = r.1.0.header_store_cache; app = r.1.1 })
          (λ u e. on rr s.app)

    serve_request-Leaves :
        ReadsOn
        → (a : InitialDecode) (r : Reader) (s : Server o App)
        → Gives
            (λ r'. length r'.bytes ≤ length r.bytes)
            (serve_request o App route has_writer (a, r) s).0
    unfolding serve_request
    serve_request-Leaves on a r s =
        let P = λ (r' : Reader). length r'.bytes ≤ length r.bytes in
        let m = on_cache o App (init_request o r a) s in
        continue-Gives P _ m.0 m.1 (λ properties e.
          let short =
            gives_ok (Leaves (length r.bytes)) m.0 properties (init_request-Leaves r a s.cache) e in
          continue-Gives P _ (path_and_error properties.0.headers) m.1 (λ path e'.
            let rr = request_response o App properties path m.1.cache in
            let x = routed o App route has_writer rr m.1 in
            continue-Gives P _ x.0 x.1 (λ rr' e₂.
              let y = answer o App has_writer rr' x.1 in
              continue-Gives P _ y.0 y.1 (λ u e₃.
                let less =
                  gives_ok
                    (λ (q : RequestResponse o).
                      length (q.request_reader.bytes) ≤ length properties.1.bytes)
                    x.0 rr' (routed-Leaves on rr m.1) e₂ in
                omega (arith, short, less)))))

    abbrev Fails : Result Reader → Type 0
    Fails (ok r) = ⊥
    Fails m = Unit {0}

    -- The error of a request.
    abbrev failure : Result Reader → Result (Unit {0})
    failure (ok r) = ok tt
    failure (err e) = err e
    failure panic = panic
    failure stuck = stuck

    -- The turns of the `for` loop: it ends where no header can be read, or after a request that fails,
    -- and any other request is followed by the rest of the stream, as the route has left it.
    pub data Turns (first_byte : ℕ)
        : Bool → Reader → Server o App → Result (Unit {0}) × Server o App → Type 0 where
      stops :
          {use_first_byte : Bool} {r : Reader} {s : Server o App} (e : GoError)
          → read_header_initial r first_byte use_first_byte ≡ err e
          → Turns first_byte use_first_byte r s (unless_eof e, s)
      fails :
          {use_first_byte : Bool} {r : Reader} {s : Server o App} (h : InitialDecode × Reader)
          (m : Result Reader)
          → read_header_initial r first_byte use_first_byte ≡ ok h
          → (serve_request o App route has_writer h s).0 ≡ m
          → Fails m
          → Turns first_byte use_first_byte r s
              (failure m, (serve_request o App route has_writer h s).1)
      serves :
          {use_first_byte : Bool} {r : Reader} {s : Server o App}
          {end_state : Result (Unit {0}) × Server o App} (h : InitialDecode × Reader) (r' : Reader)
          → read_header_initial r first_byte use_first_byte ≡ ok h
          → (serve_request o App route has_writer h s).0 ≡ ok r'
          → Turns first_byte false r' (serve_request o App route has_writer h s).1 end_state
          → Turns first_byte use_first_byte r s end_state

    module _ (on : ReadsOn) (first_byte : ℕ) where
      -- One turn, if the rest of the stream behind it has its turns.
      turn :
          (rest : Reader → Action (Server o App) (Unit {0})) (use_first_byte : Bool) (r : Reader)
          (s : Server o App)
          → ((r' : Reader) (s' : Server o App)
              → suc (length r'.bytes) ≤ bytes_left use_first_byte r
              → Turns first_byte false r' s' (rest r' s'))
          → (m : Result (InitialDecode × Reader))
          → read_header_initial r first_byte use_first_byte ≡ m
          → Turns first_byte use_first_byte r s (
              header_or_end o App route has_writer
                (λ h s'.
                  continue rest
                    (serve_request o App route has_writer h s').0
                    (serve_request o App route has_writer h s').1)
                m
                s)
      turn rest use_first_byte r s ih (err e) eq = stops e eq
      turn rest use_first_byte r s ih panic eq =
          absurd (subst Returns eq (read_header_initial-Returns r first_byte use_first_byte))
      turn rest use_first_byte r s ih stuck eq =
          absurd (subst Returns eq (read_header_initial-Returns r first_byte use_first_byte))
      turn rest use_first_byte r s ih (ok h) eq =
          served (serve_request o App route has_writer h s).0 refl
        where
          served :
              (m : Result Reader)
              → (serve_request o App route has_writer h s).0 ≡ m
              → Turns first_byte use_first_byte r s
                  (continue rest m (serve_request o App route has_writer h s).1)
          served (ok r') eq' =
              let less =
                gives_ok
                  (λ (x : InitialDecode × Reader).
                    suc (length x.1.bytes) ≤ bytes_left use_first_byte r)
                  (read_header_initial r first_byte use_first_byte) h
                  (read_header_initial-Leaves r first_byte use_first_byte) eq in
              let less' =
                gives_ok (λ (q : Reader). length q.bytes ≤ length h.1.bytes)
                  (serve_request o App route has_writer h s).0 r'
                  (serve_request-Leaves on h.0 h.1 s) eq' in
              serves h r' eq eq'
                (ih r' (serve_request o App route has_writer h s).1 (omega (arith, less, less')))
          served (err e) eq' = fails h (err e) eq eq' tt
          served panic eq' = fails h panic eq eq' tt
          served stuck eq' = fails h stuck eq eq' tt

      pub execute_loop-Turns :
          (fuel : ℕ) (use_first_byte : Bool) (r : Reader) (s : Server o App)
          → suc (bytes_left use_first_byte r) ≤ fuel
          → Turns first_byte use_first_byte r s
              (execute_loop o App route has_writer fuel first_byte use_first_byte r s)
      unfolding execute_loop
      execute_loop-Turns zero use_first_byte r s h = absurd (omega (arith, h))
      execute_loop-Turns (suc fuel) use_first_byte r s h =
          turn (execute_loop o App route has_writer fuel first_byte false) use_first_byte r s
            (λ r' s' less. execute_loop-Turns fuel false r' s' (omega (arith, h, less)))
            (read_header_initial r first_byte use_first_byte) refl

      enough :
          (use_first_byte : Bool) (r : Reader) → bytes_left use_first_byte r ≤ suc (length r.bytes)
      enough true r = omega arith
      enough false r = omega arith

    -- `Execute` comes to the end of its loop: the fuel is enough for the turns of any stream in the
    -- stream group 0, if the route only reads on in the stream.
    pub execute-Turns :
        (r r' : Reader) (g : StreamGroup) (s : Server o App)
        → ReadsOn
        → read_stream_group r ≡ ok (g, r')
        → g.stream_group ≡ 0
        → ((execute o App route has_writer r s).0 ≡ 0)
          × Turns g.first_byte g.use_first_byte r' s
              ((execute o App route has_writer r s).1, (execute o App route has_writer r s).2)
    unfolding execute
    execute-Turns r r' g s on e z =
        rw (e, z)
          (
            refl,
            execute_loop-Turns on g.first_byte (execute_fuel o App route has_writer r')
                g.use_first_byte r' s (omega (arith, enough on g.first_byte g.use_first_byte r')),
          )
