-- ===== src/Protocol/Store/Cache/Authentic.antt =====
-- The items of a `HeaderStoreCache` that are marked as authenticated.
use dbuf_demo_go.Common.{ℕ, ◌≡◌, refl, ap, false, true, Bytes, Option, none, some, inl, inr}
use dbuf_demo_go.Common.Dict
use dbuf_demo_go.Common.Dict.{nat_eq, AllValues, put-AllValues, get-AllValues}
use dbuf_demo_go.Basic.Error.{Result, ok, err, panic, stuck}
use dbuf_demo_go.Data.Storage.{Storage}
use dbuf_demo_go.Protocol.Outside.{Outside}
use dbuf_demo_go.Protocol.Reader.{Gives, Gives-mono}
use dbuf_demo_go.Protocol.Store.Item.{HeaderStoreCacheItem}
use dbuf_demo_go.Protocol.Store.Authentication.Valid.{IsSigned}
use dbuf_demo_go.Protocol.Store.Cache.{
  HeaderStoreCache, stored_key_data, check_store, keep, store, loaded, load,
}
use dbuf_demo_go.Protocol.Store.Cache.Sizes.{IsKept}
use dbuf_demo_go.Protocol.Store.Cache.Steps.{
  Step, stores, loads, writes, Reach, here, next, check_store-IsKept, store-IsKept,
}

-- An item as a request makes it.
abbrev pub Unmarked : HeaderStoreCacheItem → Type 0
Unmarked ci = ci.is_authenticated ≡ false

module _ (o : Outside) where
  open o use {database}

  module _ (c₀ : HeaderStoreCache o) where
    -- How an item got its mark: at some time in the life of the cache, which was `c₀` at first, the
    -- storage had a key for the identity of the item, and the item was signed with it.
    pub record Marking (ci : HeaderStoreCacheItem) : Type 0 where
      pub at_the_time : HeaderStoreCache o
      pub submitted : HeaderStoreCacheItem
      pub key_data : Bytes
      pub reached : Reach o Unmarked c₀ at_the_time
      pub marked : ci ≡ record submitted { is_authenticated = true }
      pub has_key : stored_key_data o at_the_time.storage submitted ≡ ok key_data
      pub signed : IsSigned o submitted key_data

    abbrev pub IsAuthentic : HeaderStoreCacheItem → Type 0
    IsAuthentic ci = ci.is_authenticated ≡ true → Marking ci

    IsKept-IsAuthentic :
        (c : HeaderStoreCache o) (ci ci' : HeaderStoreCacheItem)
        → Reach o Unmarked c₀ c
        → Unmarked ci
        → IsKept o c.storage ci ci'
        → IsAuthentic ci'
    IsKept-IsAuthentic c ci ci' r u (inl (l, same, (key_data, stored, is_signed))) m = record {
      at_the_time = c;
      submitted = ci;
      key_data = key_data;
      reached = r;
      marked = same;
      has_key = stored;
      signed = is_signed;
    }
    IsKept-IsAuthentic c ci ci' r u (inr (l, same)) m =
        absurd (cc (ap (λ i. i.is_authenticated) same))

    keep-AllAuthentic :
        (c : HeaderStoreCache o) (ci : HeaderStoreCacheItem) (id : ℕ)
        (x : Result (ℕ × HeaderStoreCacheItem))
        → Reach o Unmarked c₀ c
        → Unmarked ci
        → AllValues IsAuthentic c.cache
        → Gives (λ (y : ℕ × HeaderStoreCacheItem). IsKept o c.storage ci y.1) x
        → AllValues IsAuthentic (keep o c id x).1.cache
    keep-AllAuthentic c ci id (ok (n, ci')) r u h k =
        put-AllValues IsAuthentic c.cache id ci' h (IsKept-IsAuthentic c ci ci' r u k)
    keep-AllAuthentic c ci id (err e) r u h k = h
    keep-AllAuthentic c ci id panic r u h k = h
    keep-AllAuthentic c ci id stuck r u h k = h

    Step-AllAuthentic :
        {c c' : HeaderStoreCache o}
        → Step o Unmarked c c'
        → Reach o Unmarked c₀ c
        → AllValues IsAuthentic c.cache
        → AllValues IsAuthentic c'.cache
    unfolding store load
    Step-AllAuthentic (stores c ci id two u) r h =
        keep-AllAuthentic c ci id (check_store o c ci id) r u h (check_store-IsKept o c ci id)
    Step-AllAuthentic (loads c id) r h = h
    Step-AllAuthentic (writes c s) r h = h

    Reach-AllAuthentic :
        {c : HeaderStoreCache o}
        → AllValues IsAuthentic c₀.cache
        → Reach o Unmarked c₀ c
        → AllValues IsAuthentic c.cache
    Reach-AllAuthentic h here = h
    Reach-AllAuthentic h (next r step) = Step-AllAuthentic step r (Reach-AllAuthentic h r)

    -- What `Store` and `Load` return.
    pub store-IsAuthentic :
        (c : HeaderStoreCache o) (ci : HeaderStoreCacheItem) (id : ℕ)
        → Reach o Unmarked c₀ c
        → Unmarked ci
        → Gives IsAuthentic (store o ci id c).0
    store-IsAuthentic c ci id r u =
        Gives-mono (IsKept o c.storage ci) IsAuthentic (store o ci id c).0
          (λ ci' k. IsKept-IsAuthentic c ci ci' r u k) (store-IsKept o c ci id)

    pub load-IsAuthentic :
        (c : HeaderStoreCache o) (id : ℕ)
        → AllValues IsAuthentic c₀.cache
        → Reach o Unmarked c₀ c
        → Gives IsAuthentic (load o id c).0
    unfolding load
    load-IsAuthentic c id h₀ r = of (Dict.get c.cache id) refl
      where
        of :
            (i : Option HeaderStoreCacheItem)
            → Dict.get c.cache id ≡ i
            → Gives IsAuthentic (loaded o i)
        of (some i) e = get-AllValues IsAuthentic c.cache id i (Reach-AllAuthentic h₀ r) e
        of none e = tt
