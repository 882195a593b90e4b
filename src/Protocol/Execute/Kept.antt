-- ===== src/Protocol/Execute/Kept.antt =====
-- What the requests of a stream keep, `Execute` keeps.
use dbuf_demo_go.Common.{ℕ, zero, suc, ◌≡◌, refl, sym, subst, Bool, false, ◌==◌, if-elim}
use dbuf_demo_go.Basic.Val.{InitialDecode}
use dbuf_demo_go.Basic.Error.{Result, ok, err, panic, stuck}
use dbuf_demo_go.Protocol.Reader.{Reader, Gives, gives_ok}
use dbuf_demo_go.Protocol.Stream.{StreamGroup, read_stream_group, read_header_initial}
use dbuf_demo_go.Protocol.Outside.{Outside}
use dbuf_demo_go.Protocol.Action.{Action, continue-keeps, bind-keeps}
use dbuf_demo_go.Protocol.Store.Cache.{HeaderStoreCache}
use dbuf_demo_go.Protocol.Store.Properties.{HeaderStoreProperties}
use dbuf_demo_go.Protocol.Dispatch.{RequestResponse}
use dbuf_demo_go.Protocol.Dispatch.Init.{init_request}
use dbuf_demo_go.Protocol.Execute.{
  Server, on_cache, request_response, answer, routed, serve_request, header_or_end, execute_loop,
  execute_fuel, executed, execute, path_and_error,
}

-- `P` of the store of headers and the application is kept by `InitRequest`, which gives
-- properties and a reader in `G`, and by the route on a request with such properties and reader.
pub record Keeps (o : Outside) (App : Type 0) (route : Action (RequestResponse o × App) (Unit {0}))
    (P : HeaderStoreCache o → App → Type 0) (G : HeaderStoreProperties × Reader → Type 0)
    : Type 0 where
  pub init_keeps :
      (r : Reader) (a : InitialDecode) (c : HeaderStoreCache o) (app : App)
      → P c app
      → P (init_request o r a c).1 app
  pub init_gives :
      (r : Reader) (a : InitialDecode) (c : HeaderStoreCache o) (app : App)
      → P c app
      → Gives G (init_request o r a c).0
  pub route_keeps :
      (rr : RequestResponse o) (app : App)
      → G (rr.request_header_store_properties, rr.request_reader)
      → P rr.header_store_cache app
      → P (route (rr, app)).1.0.header_store_cache (route (rr, app)).1.1

module _ (o : Outside) (App : Type 0) (route : Action (RequestResponse o × App) (Unit {0}))
    (has_writer : Bool) (P : HeaderStoreCache o → App → Type 0)
    (G : HeaderStoreProperties × Reader → Type 0) (keeps : Keeps o App route P G) where
  abbrev Q : Server o App → Type 0
  Q s = P s.cache s.app

  routed-keeps :
      (rr : RequestResponse o) (s : Server o App)
      → rr.header_store_cache ≡ s.cache
      → G (rr.request_header_store_properties, rr.request_reader)
      → Q s
      → Q (routed o App route has_writer rr s).1
  routed-keeps rr s e g h =
      let r = route (rr, s.app) in
      let kept = keeps.route_keeps rr s.app g (subst (λ c. P c s.app) (sym e) h) in
      continue-keeps Q (λ _ s'. (ok r.1.0, s')) r.0
        (record s { cache = r.1.0.header_store_cache; app = r.1.1 }) kept (λ u e'. kept)

  answer-keeps :
      (rr : RequestResponse o) (s : Server o App) → Q s → Q (answer o App has_writer rr s).1
  answer-keeps rr s h =
      if-elim (λ (x : Result (Unit {0}) × Server o App). Q x.1) has_writer _ _ (λ w. h) (λ w. h)

  serve_request-keeps :
      (h : InitialDecode × Reader) (s : Server o App)
      → Q s
      → Q (serve_request o App route has_writer h s).1
  unfolding serve_request
  serve_request-keeps (a, r) s h =
      let m = on_cache o App (init_request o r a) s in
      let h₁ = keeps.init_keeps r a s.cache s.app h in
      continue-keeps Q _ m.0 m.1 h₁ (λ properties e.
        let g = gives_ok G m.0 properties (keeps.init_gives r a s.cache s.app h) e in
        continue-keeps Q _ (path_and_error properties.0.headers) m.1 h₁ (λ path e'.
          let rr = request_response o App properties path m.1.cache in
          bind-keeps Q (routed o App route has_writer rr) _ m.1 (routed-keeps rr m.1 refl g h₁)
            (λ rr' s₂ h₂.
              bind-keeps Q (answer o App has_writer rr') _ s₂ (answer-keeps rr' s₂ h₂)
                (λ u s₃ h₃. h₃))))

  header_or_end-keeps :
      (rest : InitialDecode × Reader → Action (Server o App) (Unit {0}))
      (m : Result (InitialDecode × Reader)) (s : Server o App)
      → Q s
      → ((h : InitialDecode × Reader) → Q (rest h s).1)
      → Q (header_or_end o App route has_writer rest m s).1
  header_or_end-keeps rest (ok h) s q k = k h
  header_or_end-keeps rest (err e) s q k = q
  header_or_end-keeps rest panic s q k = q
  header_or_end-keeps rest stuck s q k = q

  execute_loop-keeps :
      (fuel first_byte : ℕ) (use_first_byte : Bool) (r : Reader) (s : Server o App)
      → Q s
      → Q (execute_loop o App route has_writer fuel first_byte use_first_byte r s).1
  unfolding execute_loop
  execute_loop-keeps zero first_byte use_first_byte r s h = h
  execute_loop-keeps (suc fuel) first_byte use_first_byte r s h =
      header_or_end-keeps _ (read_header_initial r first_byte use_first_byte) s h (λ a.
        bind-keeps Q (serve_request o App route has_writer a) _ s (serve_request-keeps a s h)
          (λ r' s' h'. execute_loop-keeps fuel first_byte false r' s' h'))

  executed-keeps :
      (m : Result (StreamGroup × Reader)) (s : Server o App)
      → Q s
      → Q (executed o App route has_writer m s).2
  executed-keeps (ok (g, r)) s h =
      if-elim (λ (x : ℕ × Result (Unit {0}) × Server o App). Q x.2) (g.stream_group == 0) _ _
        (λ z.
          execute_loop-keeps (execute_fuel o App route has_writer r) g.first_byte g.use_first_byte r
            s h)
        (λ z. h)
  executed-keeps (err e) s h = h
  executed-keeps panic s h = h
  executed-keeps stuck s h = h

  pub execute-keeps :
      (r : Reader) (s : Server o App)
      → P s.cache s.app
      → P (execute o App route has_writer r s).2.cache (execute o App route has_writer r s).2.app
  unfolding execute
  execute-keeps r s h = executed-keeps (read_stream_group r) s h
