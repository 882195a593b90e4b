-- ===== src/Protocol/Identity.antt =====
-- protocol/identity.go: `ParseIdentityWrite`, the reading of a new key for an identity.
pub mod Key
pub mod Create
use dbuf_demo_go.Common.{
  ℕ, Bool, true, false, not, if◌then◌else◌, ◌==◌, ◌||◌, List, [], ◌∷◌, Option, none, some, length,
}
use dbuf_demo_go.Basic.ParseType
use dbuf_demo_go.Basic.Val
use dbuf_demo_go.Basic.Val.{DbufVal, Optional, contents, to_dbuf_val_string}
use dbuf_demo_go.Basic.Error.{Result, ok, err, panic, ◌>>=◌, GoError, data_error}
use dbuf_demo_go.Basic.Error.{
  data_key_not_accepted, data_type_not_accepted, data_value_not_accepted,
}
use dbuf_demo_go.Basic.Compare.{equal}
use dbuf_demo_go.Basic.Decode.{DecodedSequence, decode_sequence}
use dbuf_demo_go.Basic.Keys.{key_equal}
use dbuf_demo_go.Protocol.Names
use dbuf_demo_go.Protocol.Stream.{decoder}
use dbuf_demo_go.Protocol.Body.{zero_val}
use dbuf_demo_go.Protocol.Store.Item.{at}

pub record IdentityWrite : Type 0 where
  pub identity_key_id : Optional DbufVal
  pub identity_key_data : Optional DbufVal
  pub identity_recovery : Optional DbufVal

abbrev pub no_value : Optional DbufVal
no_value = record { has_value = false; value = zero_val }

abbrev pub value_of : DbufVal → Optional DbufVal
value_of v = record { has_value = true; value = v }

-- `IdentityWrite{}`
abbrev pub no_write : IdentityWrite
no_write = record {
  identity_key_id = no_value;
  identity_key_data = no_value;
  identity_recovery = no_value;
}

-- The lookup in `identityProps`, which has one key.
abbrev pub is_identity_prop : DbufVal → Bool
is_identity_prop v =
    key_equal (to_dbuf_val_string v) (to_dbuf_val_string (Val.registry Names.identity_key))

-- An error below the key `identity_key`.
abbrev pub in_identity_key : GoError → GoError
in_identity_key e = data_error (Val.registry Names.identity_key) e

-- `DataError(identity_key, DataError(sv[0], err))`
abbrev pub refuse_first {ℓ} : {A : Type ℓ} → List DbufVal → GoError → Result A
refuse_first sv e = at sv 0 >>= λ h. err (in_identity_key (data_error h e))

-- The algorithm and the bytes of a public key.
unfoldable pub check_algorithm : DbufVal → DbufVal → Result (Unit {0})
check_algorithm algorithm key =
    if equal algorithm (Val.registry Names.ed25519)
    then (if not (key.type == ParseType.bytes) || not (length (contents key.slice) == 32)
        then err (in_identity_key (data_error algorithm data_value_not_accepted))
        else ok tt)
    else err (in_identity_key (data_error algorithm data_value_not_accepted))

-- The items of the key data: an algorithm and a key. They shadow the items of the map.
abbrev pub check_items : Option GoError → List DbufVal → Result (Unit {0})
check_items (some e) sv = refuse_first sv e
check_items none [] = panic
check_items none (a ∷ []) = refuse_first (a ∷ []) data_value_not_accepted
check_items none (a ∷ k ∷ []) = check_algorithm a k
check_items none (a ∷ k ∷ l ∷ sv) = refuse_first (a ∷ k ∷ l ∷ sv) data_value_not_accepted

-- The key data `ukk` under the key id.
unfoldable pub check_key_value : DbufVal → DbufVal → Result (Unit {0})
unfolding check_algorithm
check_key_value key_id ukk =
    if ukk.type == ParseType.array
    then (decode_sequence (decoder (contents ukk.slice)) >>= λ d. check_items d.error d.seq)
    else err (in_identity_key (data_error key_id data_type_not_accepted))

-- The id and the data of the key, among the items of the map.
abbrev pub key_pair : IdentityWrite → Option GoError → List DbufVal → Result IdentityWrite
key_pair out (some e) sv = err (in_identity_key e)
key_pair out none (id ∷ ukk ∷ []) = check_key_value id ukk >>= λ u.
    ok (record out { identity_key_id = value_of id; identity_key_data = value_of ukk })
key_pair out none [] = err (in_identity_key data_value_not_accepted)
key_pair out none (id ∷ []) = err (in_identity_key data_value_not_accepted)
key_pair out none (id ∷ ukk ∷ x ∷ sv) = err (in_identity_key data_value_not_accepted)

-- The value of `identity_key`.
unfoldable pub parse_key : IdentityWrite → DbufVal → Result IdentityWrite
parse_key out uk =
    if uk.type == ParseType.map
    then (decode_sequence (decoder (contents uk.slice)) >>= λ d. key_pair out d.error d.seq)
    else err (in_identity_key data_type_not_accepted)

-- One round of the loop: the key `v`, and the value behind it.
unfoldable pub parse_entry : IdentityWrite → DbufVal → Result DbufVal → Result IdentityWrite
unfolding parse_key
parse_entry out v value =
    let key_parsed = value >>= parse_key out in
    let recovery = value >>= λ r. ok (record out { identity_recovery = value_of r }) in
    if not (is_identity_prop v)
    then err (data_error v data_key_not_accepted)
    else if equal v (Val.registry Names.identity_key)
    then key_parsed
    else if equal v (Val.registry Names.identity_recovery)
    then recovery
    else err (data_error v data_key_not_accepted)

unfoldable pub parse_entries : IdentityWrite → List DbufVal → Result IdentityWrite
unfolding parse_entry
parse_entries out [] = ok out
parse_entries out (v ∷ []) = parse_entry out v panic
parse_entries out (v ∷ w ∷ sv) = parse_entry out v (ok w) >>= λ out'. parse_entries out' sv

abbrev pub entries_of : Option GoError → List DbufVal → Result IdentityWrite
entries_of none sv = parse_entries no_write sv
entries_of (some e) sv = err e

unfoldable pub parse_identity_write : DbufVal → Result IdentityWrite
parse_identity_write body =
    if body.type == ParseType.map
    then (decode_sequence (decoder (contents body.slice)) >>= λ d. entries_of d.error d.seq)
    else err data_type_not_accepted
