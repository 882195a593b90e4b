-- ===== src/Protocol/Message/Answered.antt =====
-- What `RoutePaths` answers.
use dbuf_demo_go.Common.{
  ◌≡◌, refl, ap, ℕ, true, ◌==◌, arith, if-elim, String, List, [], ◌∷◌, Bytes, Option, none, some,
}
use dbuf_demo_go.Basic.ParseType
use dbuf_demo_go.Protocol.Names
use dbuf_demo_go.Protocol.Reader.{Returns}
use dbuf_demo_go.Protocol.Identity.Create.{create_identity}
use dbuf_demo_go.Basic.Val.{DbufVal, DbufValSeq, DbufValString}
use dbuf_demo_go.Basic.Error.{Result, ok, err, panic, stuck, GoError, plain, data_key_not_accepted}
use dbuf_demo_go.Protocol.Stream.{part_error}
use dbuf_demo_go.Protocol.Outside.{Outside}
use dbuf_demo_go.Protocol.Action.{Action}
use dbuf_demo_go.Protocol.Dispatch.{RequestResponse, error_header}
use dbuf_demo_go.Protocol.Message.{
  set_error, Served, unhandled, error_or, answered, finished, route_paths, mended, aside,
  deliver_message, route_part, route_path, route_without_error,
}

-- The headers of a response, which are those of its error if it has one.
abbrev pub HasResponse : Option DbufValSeq → Option GoError → Type 0
HasResponse headers e =
    (v : DbufValSeq) × (headers ≡ some v) × ((x : GoError) → e ≡ some x → v ≡ error_header x)

unhandled-HasResponse :
    (headers : Option DbufValSeq) (e : Option GoError)
    → HasResponse (error_or headers (unhandled headers e)) (unhandled headers e)
unhandled-HasResponse none none =
    (error_header (plain "Request not handled"), refl, λ x h. ap error_header (inner h))
  where
    inner : {a b : GoError} → some a ≡ some b → a ≡ b
    inner h = cc
unhandled-HasResponse none (some e) = (error_header e, refl, λ x h. ap error_header (inner h))
  where
    inner : {a b : GoError} → some a ≡ some b → a ≡ b
    inner h = cc
unhandled-HasResponse (some v) none = (v, refl, λ x h. absurd cc)
unhandled-HasResponse (some v) (some e) = (error_header e, refl, λ x h. ap error_header (inner h))
  where
    inner : {a b : GoError} → some a ≡ some b → a ≡ b
    inner h = cc

module _ (o : Outside) (App : Type 0)
    (receive_message : DbufVal → DbufValString → Action App (Unit {0})) where
  -- The path of a request is the registry number `n` alone.
  abbrev pub IsOn : ℕ → RequestResponse o → Type 0
  IsOn n rr =
      (p : DbufVal) × (rr.request_path_properties.sub_path ≡ p ∷ [])
      × (p.type ≡ ParseType.registry)
      × (p.value ≡ n)

  -- The handler of a request, if it has one, returns: with an error or without.
  abbrev pub HandlerReturns : Result Bytes → RequestResponse o → App → Type 0
  HandlerReturns drawn rr app =
      (IsOn Names.identity rr → Returns (create_identity o drawn rr).0)
      × (IsOn Names.deliver_message rr
          → Returns
              (deliver_message o App receive_message Names.small_request_buffer_size (rr, app)).0)

  mended-ok :
      (text : String) (r : Result (Unit {0}) × Served o App)
      → Returns r.0
      → (mended o App text r).0 ≡ ok tt
  mended-ok text (ok u, served) h = refl
  mended-ok text (err e, (rr, app)) h = refl
  mended-ok text (panic, served) h = absurd h
  mended-ok text (stuck, served) h = absurd h

  route_part-ok :
      (drawn : Result Bytes) (p : DbufVal) (rr : RequestResponse o) (app : App)
      → rr.request_path_properties.sub_path ≡ p ∷ []
      → HandlerReturns drawn rr app
      → (route_part o App receive_message drawn p (rr, app)).0 ≡ ok tt
  route_part-ok drawn p rr app path (creates, delivers) =
      let IsOk : Result (Unit {0}) × Served o App → Type 0 = λ r. r.0 ≡ ok tt in
      if-elim IsOk (p.type == ParseType.registry) _ _
        (λ r.
          if-elim IsOk (p.value == Names.identity) _ _
            (λ i.
              mended-ok _ (aside o App (create_identity o drawn) (rr, app))
                (creates (p, path, ==→≡ r, ==→≡ i)))
            (λ i.
              if-elim IsOk (p.value == Names.deliver_message) _ _
                (λ d. mended-ok _ _ (delivers (p, path, ==→≡ r, ==→≡ d))) (λ d. refl)))
        (λ r. refl)
    where
      ==→≡ : {a b : ℕ} → (a == b) ≡ true → a ≡ b
      ==→≡ h = ground arith

  route_path-ok :
      (drawn : Result Bytes) (path : List DbufVal) (rr : RequestResponse o) (app : App)
      → rr.request_path_properties.sub_path ≡ path
      → HandlerReturns drawn rr app
      → (route_path o App receive_message drawn path (rr, app)).0 ≡ ok tt
  route_path-ok drawn [] rr app path h = refl
  route_path-ok drawn (p ∷ []) rr app path h = route_part-ok drawn p rr app path h
  route_path-ok drawn (p ∷ q ∷ ps) rr app path h = refl

  route_without_error-ok :
      (drawn : Result Bytes) (e : Option GoError) (rr : RequestResponse o) (app : App)
      → HandlerReturns drawn rr app
      → (route_without_error o App receive_message drawn e (rr, app)).0 ≡ ok tt
  route_without_error-ok drawn none rr app h =
      route_path-ok drawn rr.request_path_properties.sub_path rr app refl h
  route_without_error-ok drawn (some e) rr app h = refl

  -- A result without an error, and the headers of a response.
  abbrev pub IsAnswered : Result (Unit {0}) × Served o App → Type 0
  IsAnswered x = (x.0 ≡ ok tt) × HasResponse x.1.0.response_headers x.1.0.response_error

  finished-IsAnswered :
      (r : Result (Unit {0}) × Served o App)
      → r.0 ≡ ok tt
      → IsAnswered (finished o App receive_message r)
  unfolding answered
  finished-IsAnswered (ok u, (rr, app)) h =
      (refl, unhandled-HasResponse rr.response_headers rr.response_error)
  finished-IsAnswered (err e, served) h = absurd cc
  finished-IsAnswered (panic, served) h = absurd cc
  finished-IsAnswered (stuck, served) h = absurd cc

  -- If the handler of a request returns, with an error or without, or if the request has none, then
  -- `RoutePaths` returns, and the request has the headers of a response, which are those of the error
  -- of the request if there is one.
  pub route_paths-IsAnswered :
      (drawn : Result Bytes) (rr : RequestResponse o) (app : App)
      → HandlerReturns drawn rr app
      → IsAnswered (route_paths o App receive_message drawn (rr, app))
  unfolding route_paths
  route_paths-IsAnswered drawn rr app h =
      if-elim
        (λ x. IsAnswered (
          finished o App receive_message
            (route_without_error o App receive_message drawn x.response_error (x, app))))
        rr.request_path_properties.has_operation _ _
        (λ e.
          let refusal =
            part_error Names.header (part_error Names.operation data_key_not_accepted) in
          finished-IsAnswered (ok tt, (set_error o App refusal rr, app)) refl)
        (λ e.
          finished-IsAnswered
            (route_without_error o App receive_message drawn rr.response_error (rr, app))
            (route_without_error-ok drawn rr.response_error rr app h))
