-- ===== src/Protocol/Identity/Create/Stored.antt =====
-- What `CreateIdentity` leaves in the storage.

use dbuf_demo_go.Common.{
  Bool-cases, inl, inr, ◌≡◌, refl, ◌∙◌, ap, sym, Bool, true, false, if◌then◌else◌, List, Bytes,
  some,
}
use dbuf_demo_go.Basic.Val.{DbufVal, DbufValSeq, leaf}
use dbuf_demo_go.Basic.Error.{ok}
use dbuf_demo_go.Basic.Encode.{encode_full_seq}
use dbuf_demo_go.Basic.Compare.{slice_equal}
use dbuf_demo_go.Basic.Keys.{bytes_equal}
use dbuf_demo_go.Data.Database.{IsDatabase}
use dbuf_demo_go.Data.Storage
use dbuf_demo_go.Data.Storage.{Storage}
use dbuf_demo_go.Protocol.Reader.{Gives, map_err, map_err-ok, map_err-Gives, bind-Gives}
use dbuf_demo_go.Protocol.Outside.{Outside}
use dbuf_demo_go.Protocol.Store.Cache.{transaction}
use dbuf_demo_go.Protocol.Identity.{IdentityWrite}
use dbuf_demo_go.Protocol.Identity.Create.{new_key_place, set_recovery, store_identity}

module _ (o : Outside) (law : IsDatabase o.database) where
  open o use {database}
  open law use {holds, sees}

  -- The storage holds the data of the new key at the place of the key, and elsewhere what it held.
  pub record IsStored (storage storage' : Storage database) (id : DbufValSeq) (iw : IdentityWrite)
      (host : List DbufVal) : Type 0 where
    pub place : Bytes
    pub value : Bytes
    pub has_place : new_key_place id iw.identity_key_id.value ≡ ok place
    pub has_value : encode_full_seq (leaf (iw.identity_key_data.value)) ≡ ok value
    pub own_host : slice_equal host storage.authority ≡ true
    pub same_authority : storage'.authority ≡ storage.authority
    pub held :
        (q : Bytes)
        → holds storage'.kv q ≡ (if bytes_equal place q then some value else holds storage.kv q)

  started :
      (storage : Storage database) (host : List DbufVal) (w : Bool) (tx : database.Txn)
      → transaction o (Storage.new_transaction database storage host w) ≡ ok tx
      → (slice_equal host storage.authority ≡ true) × (database.start storage.kv w ≡ tx)
  unfolding Storage.new_transaction
  started storage host w tx = elim (Bool-cases (slice_equal host storage.authority)) [
    | inl h ↦ rw h (λ e. (refl, cc))
    | inr h ↦ rw h (λ e. absurd cc)
  ]

  pub own_txn :
      (storage : Storage database) (host : List DbufVal)
      → slice_equal host storage.authority ≡ true
      → Storage.new_transaction database storage host false ≡ ok (database.start storage.kv false)
  unfolding Storage.new_transaction
  own_txn storage host h = rw h refl

  no_recovery :
      (id : DbufValSeq) (iw : IdentityWrite) (tx : database.Txn)
      → iw.identity_recovery.has_value ≡ false
      → set_recovery o id iw tx ≡ ok tx
  unfolding set_recovery
  no_recovery id iw tx h = rw h refl

  same_txn : {tx tx' : database.Txn} → ok tx ≡ ok tx' → tx ≡ tx'
  same_txn e = cc

  -- If the writes of `CreateIdentity` give no error, and there is nothing to recover the identity by,
  -- the authority is the one of the storage, which now holds the data of the key at the place of the
  -- identity and the key, and at every other place what it held before.
  pub store_identity-IsStored :
      (storage : Storage database) (id : DbufValSeq) (iw : IdentityWrite) (host : List DbufVal)
      → iw.identity_recovery.has_value ≡ false
      → Gives
          (λ storage'. IsStored storage storage' id iw host)
          (store_identity o storage id iw host)
  unfolding store_identity set_recovery Storage.set Storage.commit_transaction
  store_identity-IsStored storage id iw host none_set =
      let P : Storage database → Type 0 = λ storage'. IsStored storage storage' id iw host in
      bind-Gives P (map_err _ (new_key_place id iw.identity_key_id.value)) _ (λ place e.
        bind-Gives P (map_err _ (encode_full_seq (leaf (iw.identity_key_data.value)))) _
          (λ value e'.
            bind-Gives P (transaction o (Storage.new_transaction database storage host true)) _
              (λ tx t. bind-Gives P (map_err _ (database.write tx place value)) _ (λ tx' w.
                bind-Gives P (set_recovery o id iw tx') _ (λ tx'' r.
                  let untouched : tx' ≡ tx'' =
                    same_txn (sym (no_recovery id iw tx' none_set) ∙ r) in
                  map_err-Gives P _ (Storage.commit_transaction database tx'' storage) (
                    bind-Gives P (database.commit tx'' storage.kv) _ (λ kv c.
                      let (own, start_tx) = started storage host true tx t in
                      record {
                        place = place;
                        value = value;
                        has_place = map_err-ok _ _ place e;
                        has_value = map_err-ok _ _ value e';
                        own_host = own;
                        same_authority = refl;
                        held = λ q.
                            law.holds-commit tx'' storage.kv kv q c
                            ∙ ap (λ x. sees x q) (sym untouched)
                            ∙ law.sees-write tx tx' place value q (map_err-ok _ _ tx' w)
                            ∙ ap (λ x. if bytes_equal place q then some value else x)
                                (ap (λ x. sees x q) (sym start_tx)
                                  ∙ law.sees-start storage.kv true q);
                      })))))))
