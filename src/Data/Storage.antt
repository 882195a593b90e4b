-- ===== src/Data/Storage.antt =====
-- data/storage.go and data/db.go: `BadgerStorage`, the only `Storage`, over its database.
use dbuf_demo_go.Common.{Bool, not, if◌then◌else◌, List, Bytes, Option, none, some}
use dbuf_demo_go.Basic.Val.{DbufVal}
use dbuf_demo_go.Basic.Compare.{slice_equal}
use dbuf_demo_go.Basic.Error.{Result, ok, err, ◌>>=◌, key_not_found, data_value_not_accepted}
use dbuf_demo_go.Data.Database.{Database}

module _ (d : Database) where
  open d use {Db, Txn, start, find, write, commit}

  pub record Storage : Type 0 where
    pub kv : Db
    pub authority : List DbufVal

  -- The transaction is nil beside the error.
  unfoldable pub new_transaction : Storage → List DbufVal → Bool → Result Txn
  new_transaction b authority write =
      if not (slice_equal authority b.authority)
      then err data_value_not_accepted
      else ok (start b.kv write)

  abbrev found_value : Option Bytes → Result Bytes
  found_value none = err key_not_found
  found_value (some v) = ok v

  unfoldable pub get : Txn → Bytes → Result Bytes
  get tx key = find tx key >>= found_value

  -- `SetLogger` is left out: it logs.
  unfoldable pub set : Txn → Bytes → Bytes → Result Txn
  set tx key value = write tx key value

  unfoldable pub commit_transaction : Txn → Storage → Result Storage
  commit_transaction tx b = commit tx b.kv >>= λ kv. ok (record b { kv = kv })
