-- ===== src/Runs/Outside.antt =====
-- A database and the other outside code as concrete functions, for the runs of the protocol.
use dbuf_demo_go.Common.{◌≡◌, refl, ◌∙◌, ap, sym, subst, Bool-cases, inl, inr, take, if◌then◌else◌}
use dbuf_demo_go.Common.{Bytes, Option, some, replicate}
use dbuf_demo_go.Common.Dict
use dbuf_demo_go.Common.Dict.{Dict, get-put_self, get-put_ne}
use dbuf_demo_go.Basic.Error.{ok}
use dbuf_demo_go.Basic.Keys.{bytes_equal}
use dbuf_demo_go.Basic.Keys.Equality.{bytes_eq, bytes_equal_iff}
use dbuf_demo_go.Data.Database.{Database, IsDatabase}
use dbuf_demo_go.Protocol.Outside.{Outside}

-- A database of which a transaction is a copy.
abbrev pub toy_database : Database
toy_database = record {
  Db = Dict Bytes Bytes;
  Txn = Dict Bytes Bytes;
  start = λ db w. db;
  find = λ tx k. ok (Dict.get tx k);
  write = λ tx k v. ok (Dict.put tx k v);
  commit = λ tx db. ok tx;
}

get-put :
    (tx : Dict Bytes Bytes) (k v q : Bytes)
    → Dict.get (Dict.put tx k v) q ≡ (if bytes_equal k q then some v else Dict.get tx q)
get-put tx k v q = elim (Bool-cases (bytes_equal k q)) [
  | inl e ↦ rw e (
      subst (λ p. Dict.get (Dict.put tx k v) p ≡ some v) ((bytes_equal_iff k q).0 e)
        (get-put_self tx k v))
  | inr e ↦ rw e (get-put_ne tx k q v e)
]

pub toy-IsDatabase : IsDatabase toy_database
toy-IsDatabase = record {
  holds = λ db q. Dict.get db q;
  sees = λ tx q. Dict.get tx q;
  sees-start = λ db w q. refl;
  find-sees = λ tx q o e. sym (found e);
  sees-write = λ tx tx' k v q e. sym (ap (λ t. Dict.get t q) (same e)) ∙ get-put tx k v q;
  holds-commit = λ tx db db' q e. ap (λ t. Dict.get t q) (sym (same e));
}
  where
    found : {a b : Option Bytes} → ok a ≡ ok b → a ≡ b
    found e = cc

    same : {a b : Dict Bytes Bytes} → ok a ≡ ok b → a ≡ b
    same e = cc

-- What is exported is 48 zeros, a signature is valid if it is the first byte of the message, and a
-- string is converted with no room to spare.
abbrev pub toy : Outside
toy = record {
  database = toy_database;
  export_keying_material = λ label context n. ok (replicate n 0);
  verify = λ key message signature. bytes_equal (take 1 message) signature;
  capacity = λ n. n;
}
