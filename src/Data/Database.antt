-- ===== src/Data/Database.antt =====
-- The database badger, which is not in the repository, as data/db.go calls it.
use dbuf_demo_go.Common.{◌≡◌, Bool, Bytes, Option, some, if◌then◌else◌}
use dbuf_demo_go.Basic.Keys.{bytes_equal}
use dbuf_demo_go.Basic.Error.{Result, ok}

-- `find` is `Txn.Get` with `ValueCopy`, and gives none for `badger.ErrKeyNotFound`.
pub record Database : Type 1 where
  pub Db : Type 0
  pub Txn : Type 0
  pub start : Db → Bool → Txn
  pub find : Txn → Bytes → Result (Option Bytes)
  pub write : Txn → Bytes → Bytes → Result Txn
  pub commit : Txn → Db → Result Db

-- What the code relies on, for transactions that no other one runs beside: a transaction sees what the
-- database holds when it starts and what it has written itself, and the database holds that after the
-- commit. Any call may fail.
pub record IsDatabase (d : Database) : Type 0 where
  pub holds : d.Db → Bytes → Option Bytes
  pub sees : d.Txn → Bytes → Option Bytes
  pub sees-start : (db : d.Db) (w : Bool) (q : Bytes) → sees (d.start db w) q ≡ holds db q
  pub find-sees : (tx : d.Txn) (q : Bytes) (o : Option Bytes) → d.find tx q ≡ ok o → o ≡ sees tx q
  pub sees-write :
      (tx tx' : d.Txn) (k v q : Bytes)
      → d.write tx k v ≡ ok tx'
      → sees tx' q ≡ (if bytes_equal k q then some v else sees tx q)
  pub holds-commit :
      (tx : d.Txn) (db db' : d.Db) (q : Bytes) → d.commit tx db ≡ ok db' → holds db' q ≡ sees tx q
