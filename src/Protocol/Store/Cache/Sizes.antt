-- ===== src/Protocol/Store/Cache/Sizes.antt =====
-- The account of the sizes in a `HeaderStoreCache`.
use dbuf_demo_go.Common.{
  ℕ, ◌+◌, ◌-◌, ◌≤◌, ◌<◌, ◌≡◌, ◌⊎◌, inl, inr, refl, sym, subst, ap, arith, true,
}
use dbuf_demo_go.Common.{ltb, ltb→le, ltb→lt, List, [], ◌∷◌, Option, none, some, length}
use dbuf_demo_go.Common.{Bytes}
use dbuf_demo_go.Common.Dict
use dbuf_demo_go.Common.Dict.{
  nat_eq, AllValues, put-AllValues, get-AllValues, sum, size_of, sum-put,
}
use dbuf_demo_go.Common.Dict.{size_of-le-sum}
use dbuf_demo_go.Basic.Val.{DbufValString}
use dbuf_demo_go.Basic.Error.{Result, ok, err, panic, stuck, ◌>>=◌}
use dbuf_demo_go.Data.Storage.{Storage}
use dbuf_demo_go.Protocol.Outside.{Outside}
use dbuf_demo_go.Protocol.Reader.{Gives, Gives-mono, if-Gives, bind-Gives, gives_ok}
use dbuf_demo_go.Protocol.Store.Item.{HeaderStoreCacheItem, at, get_size}
use dbuf_demo_go.Protocol.Store.Authentication.{validate_key_params}
use dbuf_demo_go.Protocol.Store.Authentication.Valid.{IsSigned, validate_key_params-IsSigned}
use dbuf_demo_go.Protocol.Store.Cache.{HeaderStoreCache, less_old, stored_key_data, authenticate}
use dbuf_demo_go.Protocol.Store.Cache.{check_store, keep, store}

-- The size of an item that has headers.
abbrev pub size_of_params : List DbufValString → ℕ
size_of_params [] = 0
size_of_params (id ∷ []) = 0
size_of_params (id ∷ headers ∷ rest) = length headers.string + 32

abbrev pub item_size : HeaderStoreCacheItem → ℕ
item_size i = size_of_params i.store_params

abbrev pub HasHeaders : HeaderStoreCacheItem → Type 0
HasHeaders i = 2 ≤ length i.store_params

get_size-params :
    (params : List DbufValString)
    → 2 ≤ length params
    → (at params 1 >>= λ p. ok (length p.string + 32)) ≡ ok (size_of_params params)
get_size-params [] h = absurd (omega arith)
get_size-params (id ∷ []) h = absurd (omega arith)
get_size-params (id ∷ headers ∷ rest) h = refl

get_size_lem : (i : HeaderStoreCacheItem) → HasHeaders i → get_size i ≡ ok (item_size i)
unfolding get_size
get_size_lem i h = get_size-params i.store_params h

module _ (o : Outside) where
  open o use {database}

  -- What `Store` keeps of the item `ci`. With more than two parameters it has been authenticated with
  -- the key that the storage has for its identity; with two it is as it was.
  abbrev pub IsKept : Storage database → HeaderStoreCacheItem → HeaderStoreCacheItem → Type 0
  IsKept storage ci ci' =
      ((2 < length ci.store_params)
        × (ci' ≡ record ci { is_authenticated = true })
        × ((key_data : Bytes) × (stored_key_data o storage ci ≡ ok key_data)
            × IsSigned o ci key_data))
      ⊎ ((length ci.store_params ≤ 2) × (ci' ≡ ci))

  pub authenticate-IsKept :
      (storage : Storage database) (ci : HeaderStoreCacheItem)
      → Gives (IsKept storage ci) (authenticate o storage ci)
  unfolding authenticate
  authenticate-IsKept storage ci =
      let P = IsKept storage ci in
      if-Gives P (ltb 2 (length ci.store_params)) _ _
        (λ l.
          if-Gives P (ltb (length ci.store_params) 4) _ _ (λ f. tt)
            (λ f. bind-Gives P (stored_key_data o storage ci) _ (λ key_data e.
              Gives-mono
                (λ ci'. IsSigned o ci key_data × (ci' ≡ record ci { is_authenticated = true })) P
                (validate_key_params o ci key_data)
                (λ ci' h. inl (ltb→lt 2 _ l, h.1, (key_data, e, h.0)))
                (validate_key_params-IsSigned o ci key_data))))
        (λ l. inr (ltb→le 2 _ l, refl))

  IsKept-params :
      (storage : Storage database) (ci ci' : HeaderStoreCacheItem)
      → IsKept storage ci ci'
      → ci'.store_params ≡ ci.store_params
  IsKept-params storage ci ci' (inl (l, same, signed)) = ap (λ i. i.store_params) same
  IsKept-params storage ci ci' (inr (l, same)) = ap (λ i. i.store_params) same

  -- The sizes of the items add up to the current size, which is not above the maximum, and every item
  -- has the two parameters that its size is taken from.
  pub record IsSized (c : HeaderStoreCache o) : Type 0 where
    pub adds_up : c.current_size ≡ sum item_size c.cache
    pub bounded : c.current_size ≤ c.max_size
    pub have_headers : AllValues HasHeaders c.cache

  less_old-size :
      (n : ℕ) (old : Option HeaderStoreCacheItem)
      → ((i : HeaderStoreCacheItem) → old ≡ some i → HasHeaders i)
      → less_old o n old ≡ ok (n - size_of item_size old)
  less_old-size n none h = let e : n ≡ n - 0 = omega arith in ap ok e
  less_old-size n (some i) h = rw (get_size_lem i (h i refl)) refl

  -- What the checks of `Store` give: the size with the new item in place of the old, and the item.
  abbrev Checked : HeaderStoreCache o → HeaderStoreCacheItem → ℕ → ℕ × HeaderStoreCacheItem → Type 0
  Checked c ci id r =
      (r.0 + size_of item_size (Dict.get c.cache id) ≡ c.current_size + item_size ci)
      × (r.0 ≤ c.max_size)
      × IsKept c.storage ci r.1

  check_store-Checked :
      (c : HeaderStoreCache o) (ci : HeaderStoreCacheItem) (id : ℕ)
      → IsSized c
      → HasHeaders ci
      → Gives (Checked c ci id) (check_store o c ci id)
  unfolding check_store
  check_store-Checked c ci id h two =
      let old = Dict.get c.cache id in
      let n = c.current_size + item_size ci - size_of item_size old in
      let P = Checked c ci id in
      rw
        (
          get_size_lem ci two,
          less_old-size (c.current_size + item_size ci) old
              (λ i e. get-AllValues HasHeaders c.cache id i h.have_headers e),
        )
        (if-Gives P (ltb c.max_size n) _ _ (λ l. tt)
          (λ l. bind-Gives P (authenticate o c.storage ci) _ (λ ci' e. (
            omega (arith, size_of-le-sum item_size c.cache id, h.adds_up),
            ltb→le c.max_size n l,
            gives_ok (IsKept c.storage ci) _ ci' (authenticate-IsKept c.storage ci) e,
          ))))

  keep-IsSized :
      (c : HeaderStoreCache o) (ci : HeaderStoreCacheItem) (id : ℕ)
      (r : Result (ℕ × HeaderStoreCacheItem))
      → IsSized c
      → HasHeaders ci
      → Gives (Checked c ci id) r
      → IsSized (keep o c id r).1
  keep-IsSized c ci id (err e) h two g = h
  keep-IsSized c ci id panic h two g = h
  keep-IsSized c ci id stuck h two g = h
  keep-IsSized c ci id (ok (n, ci')) h two (adds, fits, kept) =
      let same = IsKept-params c.storage ci ci' kept in
      record {
        adds_up =
            omega
              (arith, sum-put item_size c.cache id ci', ap size_of_params same, adds, h.adds_up);
        bounded = fits;
        have_headers =
            put-AllValues HasHeaders c.cache id ci' h.have_headers
              (subst (λ ps. 2 ≤ length ps) (sym same) two);
      }

  -- `Store` of an item with headers keeps the account of the sizes, whether it returns an error or
  -- not: `CurrentSize` is the sum of the sizes of the items, and at most `MaxSize`.
  pub store-IsSized :
      (c : HeaderStoreCache o) (ci : HeaderStoreCacheItem) (id : ℕ)
      → IsSized c
      → HasHeaders ci
      → IsSized (store o ci id c).1
  unfolding store
  store-IsSized c ci id h two =
      keep-IsSized c ci id (check_store o c ci id) h two (check_store-Checked c ci id h two)
