-- ===== src/Protocol/Store/Cache/Steps.antt =====
-- The states of a `HeaderStoreCache` while goroutines store and load, in any order.
use dbuf_demo_go.Common.{ℕ, ◌+◌, ◌≤◌, ◌≡◌, ◌≢◌, refl, arith, ap, sym, ◌∙◌, false}
use dbuf_demo_go.Common.{ltb, ◌==◌}
use dbuf_demo_go.Common.Dict
use dbuf_demo_go.Common.Dict.{nat_eq, get-put_self, get-put_ne, sum}
use dbuf_demo_go.Basic.Error.{Result, ok, err, panic, stuck}
use dbuf_demo_go.Data.Storage.{Storage}
use dbuf_demo_go.Protocol.Names
use dbuf_demo_go.Protocol.Outside.{Outside}
use dbuf_demo_go.Protocol.Reader.{Gives, if-Gives, bind-Gives, gives_ok}
use dbuf_demo_go.Protocol.Store.Item.{HeaderStoreCacheItem, get_size}
use dbuf_demo_go.Protocol.Store.Cache.{
  HeaderStoreCache, make_header_store_cache, check_store, keep, less_old, authenticate,
}
use dbuf_demo_go.Protocol.Store.Cache.{store, load}
use dbuf_demo_go.Protocol.Store.Cache.Sizes.{
  HasHeaders, IsSized, IsKept, store-IsSized, authenticate-IsKept,
}
use dbuf_demo_go.Protocol.Store.Cache.Sizes.{item_size}

module _ (o : Outside) where
  open o use {database}

  module _ (Stored : HeaderStoreCacheItem → Type 0) where
    -- One call of a goroutine, which holds the mutex, or a change of the storage by another connection.
    -- What is stored has headers and is `Stored`.
    pub data Step : HeaderStoreCache o → HeaderStoreCache o → Type 0 where
      stores :
          (c : HeaderStoreCache o) (ci : HeaderStoreCacheItem) (id : ℕ)
          → HasHeaders ci
          → Stored ci
          → Step c (store o ci id c).1
      loads : (c : HeaderStoreCache o) (id : ℕ) → Step c (load o id c).1
      writes : (c : HeaderStoreCache o) (s : Storage database) → Step c (record c { storage = s })

    pub data Reach (c : HeaderStoreCache o) : HeaderStoreCache o → Type 0 where
      here : Reach c c
      next : {c' c'' : HeaderStoreCache o} → Reach c c' → Step c' c'' → Reach c c''

    pub Reach-trans : {c c' c'' : HeaderStoreCache o} → Reach c c' → Reach c' c'' → Reach c c''
    Reach-trans r here = r
    Reach-trans r (next r' step) = next (Reach-trans r r') step

    Step-IsSized : {c c' : HeaderStoreCache o} → Step c c' → IsSized o c → IsSized o c'
    unfolding load
    Step-IsSized (stores c ci id two q) h = store-IsSized o c ci id h two
    Step-IsSized (loads c id) h = h
    Step-IsSized (writes c s) h = record {
      adds_up = h.adds_up;
      bounded = h.bounded;
      have_headers = h.have_headers;
    }

    IsSized-Reach : {c c' : HeaderStoreCache o} → Reach c c' → IsSized o c → IsSized o c'
    IsSized-Reach here h = h
    IsSized-Reach (next r step) h = Step-IsSized step (IsSized-Reach r h)

  max_size-store :
      (c : HeaderStoreCache o) (id : ℕ) (r : Result (ℕ × HeaderStoreCacheItem))
      → (keep o c id r).1.max_size ≡ c.max_size
  max_size-store c id (ok (n, ci)) = refl
  max_size-store c id (err e) = refl
  max_size-store c id panic = refl
  max_size-store c id stuck = refl

  module _ (Stored : HeaderStoreCacheItem → Type 0) where
    Step-max_size : {c c' : HeaderStoreCache o} → Step Stored c c' → c'.max_size ≡ c.max_size
    unfolding store load
    Step-max_size (stores c ci id two q) = max_size-store c id (check_store o c ci id)
    Step-max_size (loads c id) = refl
    Step-max_size (writes c s) = refl

    Reach-max_size : {c c' : HeaderStoreCache o} → Reach Stored c c' → c'.max_size ≡ c.max_size
    Reach-max_size here = refl
    Reach-max_size (next r step) = Step-max_size step ∙ Reach-max_size r

    -- However the goroutines of a connection store and load, and whatever is written to the storage
    -- meanwhile: the sizes of the items in the cache that `MakeHeaderStoreCache` has made add up to its
    -- current size, which is at most 2 ^ 16.
    pub Reach-IsSized :
        (s : Storage database) (c : HeaderStoreCache o)
        → Reach Stored (make_header_store_cache o s) c
        → IsSized o c × (sum item_size c.cache ≤ Names.header_store_cache_max_size)
    unfolding make_header_store_cache
    Reach-IsSized s c r =
        let h =
          IsSized-Reach Stored r
            (record { adds_up = refl; bounded = omega arith; have_headers = tt }) in
        (h, omega (arith, h.adds_up, h.bounded, Reach-max_size r))

  keep_ok :
      (c c' : HeaderStoreCache o) (id : ℕ) (r : Result (ℕ × HeaderStoreCacheItem))
      (ci' : HeaderStoreCacheItem)
      → keep o c id r ≡ (ok ci', c')
      → (c'.cache ≡ Dict.put c.cache id ci') × (c'.storage ≡ c.storage)
  keep_ok c c' id (ok (n, ci)) ci' e =
      let same : ci ≡ ci' =
        cc (ap (λ (p : Result HeaderStoreCacheItem × HeaderStoreCache o). p.0) e) in
      let left = ap (λ (p : Result HeaderStoreCacheItem × HeaderStoreCache o). p.1) e in
      (
        sym (ap (λ c₁. c₁.cache) left) ∙ ap (λ i. Dict.put c.cache id i) same,
        sym (ap (λ c₁. c₁.storage) left),
      )
  keep_ok c c' id (err x) ci' e =
      absurd (cc (ap (λ (p : Result HeaderStoreCacheItem × HeaderStoreCache o). p.0) e))
  keep_ok c c' id panic ci' e =
      absurd (cc (ap (λ (p : Result HeaderStoreCacheItem × HeaderStoreCache o). p.0) e))
  keep_ok c c' id stuck ci' e =
      absurd (cc (ap (λ (p : Result HeaderStoreCacheItem × HeaderStoreCache o). p.0) e))

  -- After a `Store` with no error, `Load` of the id gives the item as it was kept, and `Load` of any
  -- other id gives what it gave before.
  pub load-store :
      (c c' : HeaderStoreCache o) (ci ci' : HeaderStoreCacheItem) (id : ℕ)
      → store o ci id c ≡ (ok ci', c')
      → ((load o id c').0 ≡ ok ci')
        × ((other : ℕ) → other ≢ id → (load o other c').0 ≡ (load o other c).0)
  unfolding store load
  load-store c c' ci ci' id e =
      let (stored, _) = keep_ok c c' id (check_store o c ci id) ci' e in
      (
        rw (stored, get-put_self c.cache id ci') refl,
        λ other ne. rw (stored, get-put_ne c.cache id other ci' (differ other ne)) refl,
      )
    where
      differ : (other : ℕ) → other ≢ id → (id == other) ≡ false
      differ other ne = ground arith

  pub check_store-IsKept :
      (c : HeaderStoreCache o) (ci : HeaderStoreCacheItem) (id : ℕ)
      → Gives (λ (x : ℕ × HeaderStoreCacheItem). IsKept o c.storage ci x.1) (check_store o c ci id)
  unfolding check_store
  check_store-IsKept c ci id = bind-Gives _ (get_size ci) _ (λ size e.
      bind-Gives _ (less_old o (c.current_size + size) (Dict.get c.cache id)) _ (λ n e'.
        if-Gives _ (ltb c.max_size n) _ _ (λ l. tt)
          (λ l. bind-Gives _ (authenticate o c.storage ci) _ (λ ci' e₃.
            gives_ok (IsKept o c.storage ci) _ ci' (authenticate-IsKept o c.storage ci) e₃))))

  -- If `Store` returns no error, an item with more than two parameters has been authenticated with
  -- the key that the storage has for its identity, and is kept with the mark of it; an item with two
  -- is kept as it is.
  pub store-IsKept :
      (c : HeaderStoreCache o) (ci : HeaderStoreCacheItem) (id : ℕ)
      → Gives (IsKept o c.storage ci) (store o ci id c).0
  unfolding store
  store-IsKept c ci id = kept (check_store o c ci id) (check_store-IsKept c ci id)
    where
      kept :
          (r : Result (ℕ × HeaderStoreCacheItem))
          → Gives (λ (x : ℕ × HeaderStoreCacheItem). IsKept o c.storage ci x.1) r
          → Gives (IsKept o c.storage ci) (keep o c id r).0
      kept (ok (n, ci')) h = h
      kept (err e) h = tt
      kept panic h = tt
      kept stuck h = tt
