-- ===== src/Connection/KeyManager/Spec.antt =====
-- What a key manager promises: one state machine for each authority.
use dbuf_demo_go.Common.{Bytes}
use dbuf_demo_go.Basic.Val
use dbuf_demo_go.Basic.Val.{DbufValSeq, leaf}
use dbuf_demo_go.Basic.Error.{Result, ok, err, panic, stuck, plain, managed_key_not_found}
use dbuf_demo_go.Connection.KeyManager.{Generated, public_key_value}

pub record Key : Type 0 where
  pub key_id : DbufValSeq
  pub public_key_data : DbufValSeq
  pub private_key : Bytes

-- The key of an authority, and then the identity that the authority gave for it.
pub data Status : Type 0 where
  absent : Status
  created : Key → Status
  identified : Key → DbufValSeq → Status

-- The calls of the interface `KeyManager`.
pub data Call : Type 0 where
  create : Result Generated → Call
  identify : DbufValSeq → Call
  ask_key : Call
  ask_signature : Bytes → Call

pub data Answer : Type 0 where
  key_made : DbufValSeq × DbufValSeq → Answer
  done : Unit {0} → Answer
  key : DbufValSeq × DbufValSeq × DbufValSeq → Answer
  signature : DbufValSeq → Answer

abbrev pub made : Generated → Key
made (public_key, private_key) = record {
  key_id = leaf (Val.uint 0);
  public_key_data = public_key_value public_key;
  private_key = private_key;
}

-- A key is made of the pair that was drawn, if one was.
abbrev pub created_of : Result Generated → Result Answer × Status
created_of (ok pair) = let k = made pair in (ok (key_made (k.key_id, k.public_key_data)), created k)
created_of (err e) = (err e, absent)
created_of panic = (panic, absent)
created_of stuck = (stuck, absent)

module _ (sign : Bytes → Bytes → Bytes) where
  abbrev signed : Bytes → Bytes → Result Answer
  signed private_key message = ok (signature (leaf (Val.bytes (sign private_key message))))

  -- A key is made once, it gets an identity once, and is given out with its identity only.
  abbrev pub answer : Call → Status → Result Answer × Status
  answer (create g) absent = created_of g
  answer (create g) (created k) = (err (plain "key exists for authority ref"), created k)
  answer (create g) (identified k i) = (err (plain "key exists for authority ref"), identified k i)
  answer (identify i) absent = (err managed_key_not_found, absent)
  answer (identify i) (created k) = (ok (done tt), identified k i)
  answer (identify i) (identified k j) = (err (plain "identity already exists"), identified k j)
  answer ask_key absent = (err managed_key_not_found, absent)
  answer ask_key (created k) = (err (plain "identity not set"), created k)
  answer ask_key (identified k i) = (ok (key (i, k.key_id, k.public_key_data)), identified k i)
  answer (ask_signature m) absent = (err managed_key_not_found, absent)
  answer (ask_signature m) (created k) = (signed (k.private_key) m, created k)
  answer (ask_signature m) (identified k i) = (signed (k.private_key) m, identified k i)
