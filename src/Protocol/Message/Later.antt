-- ===== src/Protocol/Message/Later.antt =====
-- What `RoutePaths` leaves of the reader and of the store of headers of a request.
use dbuf_demo_go.Common.{◌≤◌, arith, not, ◌==◌, if-elim, String, List, [], ◌∷◌, Bytes}
use dbuf_demo_go.Common.{Option, none, some, length}
use dbuf_demo_go.Basic.ParseType
use dbuf_demo_go.Basic.Val.{DbufVal, DbufValSeq, DbufValString, leaf}
use dbuf_demo_go.Basic.Val
use dbuf_demo_go.Basic.Error.{Result, ok, err, panic, stuck, GoError, wrap_with}
use dbuf_demo_go.Data.Storage.{Storage}
use dbuf_demo_go.Protocol.Names
use dbuf_demo_go.Protocol.Reader.{map_err}
use dbuf_demo_go.Protocol.Stream.{part_error}
use dbuf_demo_go.Protocol.Body.Taken.{take_single_body}
use dbuf_demo_go.Protocol.Body.Taken.Agreement.{take_single_body-left}
use dbuf_demo_go.Protocol.Outside.{Outside}
use dbuf_demo_go.Protocol.Action.{Action, continue-keeps}
use dbuf_demo_go.Protocol.Store.Item
use dbuf_demo_go.Protocol.Store.Item.{HeaderStoreCacheItem}
use dbuf_demo_go.Protocol.Store.Cache.Steps.{Reach, here, next, writes}
use dbuf_demo_go.Protocol.Dispatch.{RequestResponse, or_respond}
use dbuf_demo_go.Protocol.Identity.{IdentityWrite, parse_identity_write}
use dbuf_demo_go.Protocol.Identity.Create.{
  store_identity, identity_created, create_from, with_key, create_identity,
}
use dbuf_demo_go.Protocol.Message.{
  Served, mended, answered, aside, refuse_operation, received, deliver_to, deliver_body,
  deliver_for, deliver_message, route_part, route_path, route_without_error, finished, route_paths,
}

module _ (o : Outside) (Stored : HeaderStoreCacheItem → Type 0) (rr₀ : RequestResponse o) where
  open o use {database}

  -- The reader has been read on, and the store of headers has been used.
  abbrev pub IsLater : RequestResponse o → Type 0
  IsLater rr =
      (length (rr.request_reader.bytes) ≤ length (rr₀.request_reader.bytes))
      × Reach o Stored rr₀.header_store_cache rr.header_store_cache

  or_respond-IsLater {ℓ} :
      {A : Type ℓ} (f : GoError → GoError) (m : Result A)
      (rest : A → Action (RequestResponse o) (Unit {0})) (rr : RequestResponse o)
      → IsLater rr
      → ((a : A) → IsLater (rest a rr).1)
      → IsLater (or_respond f m rest rr).1
  or_respond-IsLater f (ok a) rest rr h k = k a
  or_respond-IsLater f (err e) rest rr h k = h
  or_respond-IsLater f panic rest rr h k = h
  or_respond-IsLater f stuck rest rr h k = h

  identity_created-IsLater :
      (id : DbufValSeq) (m : Result (Storage database)) (rr : RequestResponse o)
      → IsLater rr
      → IsLater (identity_created o id m rr).1
  identity_created-IsLater id (ok storage) rr (less, reached) =
      (less, next reached (writes rr.header_store_cache storage))
  identity_created-IsLater id (err e) rr h = h
  identity_created-IsLater id panic rr h = h
  identity_created-IsLater id stuck rr h = h

  create_from-IsLater :
      (drawn : Result Bytes) (iw : IdentityWrite) (rr : RequestResponse o)
      → IsLater rr
      → IsLater (create_from o drawn iw rr).1
  unfolding create_from
  create_from-IsLater drawn iw rr h =
      continue-keeps IsLater _ (map_err (wrap_with "Create identity id failed") drawn) rr h (λ b e.
        identity_created-IsLater (leaf (Val.bytes b))
          (store_identity o (rr.header_store_cache.storage) (leaf (Val.bytes b)) iw
            (rr.request_path_properties.authority))
          rr h)

  with_key-IsLater :
      (drawn : Result Bytes) (iw : IdentityWrite) (rr : RequestResponse o)
      → IsLater rr
      → IsLater (with_key o drawn iw rr).1
  with_key-IsLater drawn iw rr h =
      if-elim (λ (x : Result (Unit {0}) × RequestResponse o). IsLater x.1)
        iw.identity_key_id.has_value _ _ (λ k. create_from-IsLater drawn iw rr h) (λ k. h)

  create_identity-IsLater :
      (drawn : Result Bytes) → IsLater rr₀ → IsLater (create_identity o drawn rr₀).1
  unfolding create_identity
  create_identity-IsLater drawn (less, reached) =
      let taken =
        take_single_body (rr₀.request_header_store_properties.headers)
          Names.small_request_buffer_size rr₀.request_reader in
      let (same, less') =
        take_single_body-left (rr₀.request_header_store_properties.headers)
          Names.small_request_buffer_size rr₀.request_reader in
      let rr = record rr₀ { request_reader = taken.1 } in
      or_respond-IsLater (λ e. e) taken.0 _ rr (less', reached)
        (λ body.
          or_respond-IsLater (part_error Names.body) (parse_identity_write body) (with_key o drawn)
            rr (less', reached) (λ iw. with_key-IsLater drawn iw rr (less', reached)))

  module _ (App : Type 0) (receive_message : DbufVal → DbufValString → Action App (Unit {0})) where
    abbrev LeavesLater : Result (Unit {0}) × Served o App → Type 0
    LeavesLater x = IsLater x.1.0

    received-IsLater :
        (rr : RequestResponse o) (r : Result (Unit {0}) × App)
        → IsLater rr
        → LeavesLater (received o App receive_message rr r)
    received-IsLater rr (ok u, app) h = h
    received-IsLater rr (err e, app) h = h
    received-IsLater rr (panic, app) h = h
    received-IsLater rr (stuck, app) h = h

    deliver_to-IsLater :
        (id : Result DbufValString) (body : DbufVal) (rr : RequestResponse o) (app : App)
        → IsLater rr
        → LeavesLater (deliver_to o App receive_message id body (rr, app))
    deliver_to-IsLater (ok id) body rr app h = received-IsLater rr (receive_message body id app) h
    deliver_to-IsLater (err e) body rr app h = h
    deliver_to-IsLater panic body rr app h = h
    deliver_to-IsLater stuck body rr app h = h

    deliver_body-IsLater :
        (ci : HeaderStoreCacheItem) (body : Result DbufVal) (rr : RequestResponse o) (app : App)
        → IsLater rr
        → LeavesLater (deliver_body o App receive_message ci body (rr, app))
    deliver_body-IsLater ci (ok body) rr app h = deliver_to-IsLater (Item.identity ci) body rr app h
    deliver_body-IsLater ci (err e) rr app h = h
    deliver_body-IsLater ci panic rr app h = h
    deliver_body-IsLater ci stuck rr app h = h

    deliver_for-IsLater :
        (i : Option HeaderStoreCacheItem) (app : App)
        → IsLater rr₀
        → LeavesLater
            (deliver_for o App receive_message i Names.small_request_buffer_size (rr₀, app))
    deliver_for-IsLater none app h = h
    deliver_for-IsLater (some ci) app (less, reached) =
        let taken =
          take_single_body (rr₀.request_header_store_properties.headers)
            Names.small_request_buffer_size rr₀.request_reader in
        let (same, less') =
          take_single_body-left (rr₀.request_header_store_properties.headers)
            Names.small_request_buffer_size rr₀.request_reader in
        if-elim LeavesLater (not ci.is_authenticated) _ _ (λ a. (less, reached))
          (λ a.
            deliver_body-IsLater ci taken.0 (record rr₀ { request_reader = taken.1 }) app
              (less', reached))

    mended-IsLater :
        (text : String) (x : Result (Unit {0}) × Served o App)
        → LeavesLater x
        → LeavesLater (mended o App text x)
    mended-IsLater text (ok u, served) h = h
    mended-IsLater text (err e, (rr, app)) h = h
    mended-IsLater text (panic, served) h = h
    mended-IsLater text (stuck, served) h = h

    route_part-IsLater :
        (drawn : Result Bytes) (p : DbufVal) (app : App)
        → IsLater rr₀
        → LeavesLater (route_part o App receive_message drawn p (rr₀, app))
    unfolding deliver_message
    route_part-IsLater drawn p app h =
        if-elim LeavesLater (p.type == ParseType.registry) _ _
          (λ r.
            if-elim LeavesLater (p.value == Names.identity) _ _
              (λ i.
                mended-IsLater _ (aside o App (create_identity o drawn) (rr₀, app))
                  (create_identity-IsLater drawn h))
              (λ i.
                if-elim LeavesLater (p.value == Names.deliver_message) _ _
                  (λ d.
                    mended-IsLater _
                      (deliver_message o App receive_message Names.small_request_buffer_size
                        (rr₀, app))
                      (deliver_for-IsLater rr₀.request_header_store_properties.cache_item app h))
                  (λ d. h)))
          (λ r. h)

    route_path-IsLater :
        (drawn : Result Bytes) (path : List DbufVal) (app : App)
        → IsLater rr₀
        → LeavesLater (route_path o App receive_message drawn path (rr₀, app))
    route_path-IsLater drawn [] app h = h
    route_path-IsLater drawn (p ∷ []) app h = route_part-IsLater drawn p app h
    route_path-IsLater drawn (p ∷ q ∷ path) app h = h

    route_without_error-IsLater :
        (drawn : Result Bytes) (e : Option GoError) (app : App)
        → IsLater rr₀
        → LeavesLater (route_without_error o App receive_message drawn e (rr₀, app))
    route_without_error-IsLater drawn none app h =
        route_path-IsLater drawn (rr₀.request_path_properties.sub_path) app h
    route_without_error-IsLater drawn (some e) app h = h

    finished-IsLater :
        (x : Result (Unit {0}) × Served o App)
        → LeavesLater x
        → LeavesLater (finished o App receive_message x)
    unfolding answered
    finished-IsLater (ok u, (rr, app)) h = h
    finished-IsLater (err e, served) h = h
    finished-IsLater (panic, served) h = h
    finished-IsLater (stuck, served) h = h

    -- `RoutePaths` leaves no more of the stream than there was, and all that it does to the store of
    -- headers is to write to the storage.
    pub route_paths-IsLater :
        (drawn : Result Bytes) (app : App)
        → IsLater (route_paths o App receive_message drawn (rr₀, app)).1.0
    unfolding route_paths
    route_paths-IsLater drawn app =
        let h : IsLater rr₀ = (omega arith, here) in
        finished-IsLater
          (route_without_error o App receive_message drawn
            (refuse_operation o App rr₀).response_error (refuse_operation o App rr₀, app))
          (if-elim
            (λ x.
              LeavesLater
                (route_without_error o App receive_message drawn x.response_error (x, app)))
            rr₀.request_path_properties.has_operation _ _ (λ e. h)
            (λ e. route_without_error-IsLater drawn rr₀.response_error app h))
