-- ===== src/Connection/KeyManager.antt =====
-- connection/key_manager.go: `TestKeyManager`, the keys of a client for the authorities that it knows.
-- A key pair of ed25519 is an argument of the call that draws it.
pub mod Spec
pub mod Refinement
pub mod Steps
pub mod Stable
pub mod Instance
pub mod Keyed
use dbuf_demo_go.Common.{
  ℕ, Bool, true, false, if◌then◌else◌, List, [], ◌∷◌, Bytes, Option, none, some,
}
use dbuf_demo_go.Common.Dict
use dbuf_demo_go.Common.Dict.{Dict}
use dbuf_demo_go.Basic.Val
use dbuf_demo_go.Basic.Val.{DbufValSeq, leaf, nest, no_items, item}
use dbuf_demo_go.Basic.Error.{Result, ok, err, GoError, plain, managed_key_not_found}
use dbuf_demo_go.Basic.Encode.{encode_full_seq}
use dbuf_demo_go.Basic.Keys.Equality.{bytes_eq}
use dbuf_demo_go.Protocol.Names
use dbuf_demo_go.Protocol.Action.{Action, pure, lift, reads, ◌>>=◌}

pub record KeyInit : Type 0 where
  pub has_identity : Bool
  pub authority_ref : DbufValSeq
  pub identity : DbufValSeq
  pub key_id : DbufValSeq
  pub public_key_data : DbufValSeq
  pub private_key : Bytes

-- `DataChangeFunc` may be nil; `data_changes` are the maps that it has been called with, the last one
-- first.
pub record TestKeyManager : Type 0 where
  pub keys : Dict Bytes KeyInit
  pub has_data_change_func : Bool
  pub data_changes : List (Dict Bytes KeyInit)

unfoldable pub make_test_key_manager : TestKeyManager
make_test_key_manager = record { keys = []; has_data_change_func = false; data_changes = [] }

-- `if m.DataChangeFunc != nil { m.DataChangeFunc(*m) }`
abbrev pub data_change : TestKeyManager → TestKeyManager
data_change m =
    if m.has_data_change_func then record m { data_changes = m.keys ∷ m.data_changes } else m

-- `m.Keys[k] = ki`, and the call of `DataChangeFunc`.
abbrev pub put_key : Bytes → KeyInit → TestKeyManager → TestKeyManager
put_key k ki m = data_change (record m { keys = Dict.put m.keys k ki })

-- `m.Keys[k]`
abbrev pub key_at : Bytes → Action TestKeyManager (Option KeyInit)
key_at k = reads (λ m. ok (Dict.get m.keys k))

-- The public key and the private key of `ed25519.GenerateKey`.
abbrev pub Generated : Type 0
Generated = Bytes × Bytes

abbrev pub public_key_value : Bytes → DbufValSeq
public_key_value public_key =
    nest Val.array
      (item (leaf (Val.registry Names.ed25519)) (item (leaf (Val.bytes public_key)) no_items))

abbrev pub new_key : DbufValSeq → Generated → KeyInit
new_key authority_ref (public_key, private_key) = record {
  has_identity = false;
  authority_ref = authority_ref;
  identity = leaf (record { value = 0; type = 0; slice = none });
  key_id = leaf (Val.uint 0);
  public_key_data = public_key_value public_key;
  private_key = private_key;
}

abbrev pub add_key :
    DbufValSeq → Bytes → Generated → Action TestKeyManager (DbufValSeq × DbufValSeq)
add_key authority_ref k pair m =
    let ki = new_key authority_ref pair in (ok (ki.key_id, ki.public_key_data), put_key k ki m)

-- The rest of `CreateKey`, by the key that is there.
abbrev pub create_at :
    Result Generated
    → DbufValSeq
    → Bytes
    → Option KeyInit
    → Action TestKeyManager (DbufValSeq × DbufValSeq)
create_at generated authority_ref k (some ki) = lift (err (plain "key exists for authority ref"))
create_at generated authority_ref k none = do pair ← lift generated; add_key authority_ref k pair

unfoldable pub create_key :
    Result Generated → DbufValSeq → Action TestKeyManager (DbufValSeq × DbufValSeq)
create_key generated authority_ref = do
  k ← lift (encode_full_seq authority_ref)
  existing ← key_at k
  create_at generated authority_ref k existing

-- The identity, the id of the key and its data, of the key that is there.
abbrev pub key_of : Option KeyInit → Result (DbufValSeq × DbufValSeq × DbufValSeq)
key_of none = err managed_key_not_found
key_of (some ki) =
    if ki.has_identity
    then ok (ki.identity, ki.key_id, ki.public_key_data)
    else err (plain "identity not set")

unfoldable pub get_key : DbufValSeq → Action TestKeyManager (DbufValSeq × DbufValSeq × DbufValSeq)
get_key authority_ref = do
  k ← lift (encode_full_seq authority_ref)
  existing ← key_at k
  lift (key_of existing)

-- The rest of `InitIdentity`, by the key that is there.
abbrev pub init_at : DbufValSeq → Bytes → Option KeyInit → Action TestKeyManager (Unit {0})
init_at id k none m = (err managed_key_not_found, m)
init_at id k (some ki) m =
    if ki.has_identity
    then (err (plain "identity already exists"), m)
    else (ok tt, put_key k (record ki { has_identity = true; identity = id }) m)

unfoldable pub init_identity : DbufValSeq → DbufValSeq → Action TestKeyManager (Unit {0})
init_identity authority_ref id = do
  k ← lift (encode_full_seq authority_ref)
  existing ← key_at k
  init_at id k existing

-- `sign` is `ed25519.Sign` of a private key and a message.
module _ (sign : Bytes → Bytes → Bytes) where
  abbrev pub signature_of : Bytes → Option KeyInit → Result DbufValSeq
  signature_of message none = err managed_key_not_found
  signature_of message (some ki) = ok (leaf (Val.bytes (sign ki.private_key message)))

  unfoldable pub get_signature : DbufValSeq → Bytes → Action TestKeyManager DbufValSeq
  get_signature authority_ref message = do
    k ← lift (encode_full_seq authority_ref)
    existing ← key_at k
    lift (signature_of message existing)
