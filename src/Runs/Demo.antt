-- ===== src/Runs/Demo.antt =====
-- The demo programs: a key manager that is saved and loaded, and the authority of a server.
use dbuf_demo_go.Common.{
  ◌≡◌, refl, sym, subst, ap, true, false, arith, Bool-cases, inl, inr, List, [], ◌∷◌, Bytes, none,
  some, replicate,
}
use dbuf_demo_go.Common.Dict
use dbuf_demo_go.Common.Dict.{Dict, get-put_self}
use dbuf_demo_go.Basic.Val
use dbuf_demo_go.Basic.Val.{DbufVal, Sequence, leaf, no_items, item, to_dbuf_val_string}
use dbuf_demo_go.Basic.Error.{ok}
use dbuf_demo_go.Basic.Wire.{wire, header, ItemsAreWellFormed, received_items}
use dbuf_demo_go.Basic.Encode.{encode_full_seq}
use dbuf_demo_go.Basic.Keys.{bytes_equal}
use dbuf_demo_go.Basic.Keys.Equality.{bytes_eq}
use dbuf_demo_go.Data.Storage.{Storage, new_transaction}
use dbuf_demo_go.Protocol.Names
use dbuf_demo_go.Protocol.Path.{no_path, reference_key, get_path_properties}
use dbuf_demo_go.Connection.KeyManager.{
  KeyInit, TestKeyManager, make_test_key_manager, create_key, public_key_value,
}
use dbuf_demo_go.Connection.KeyManager.Spec.{create}
use dbuf_demo_go.Connection.KeyManager.Steps.{here, next}
use dbuf_demo_go.Demo.Client.{Json, load_key_manager, save_keys, keys_in_file}
use dbuf_demo_go.Demo.Client.Saved.{AreValues, IsJson, load_key_manager-save_keys}
use dbuf_demo_go.Demo.Server.{default_storage}
use dbuf_demo_go.Demo.Server.Authority.{
  request_reference, IsEncodable, get_path_properties-make_authority_ref,
}
use dbuf_demo_go.Runs.Keys.{sign, ref, empty_manager, with_key}
use dbuf_demo_go.Runs.Outside.{toy, toy_database}

-- A file that holds the keys as they are.
abbrev plain_json : Json
plain_json = record { Text = List KeyInit; marshal = λ kis. ok kis; unmarshal = λ kis. ok kis }

plain-IsJson : IsJson plain_json
plain-IsJson kis b e = sym e

abbrev one_key : KeyInit
one_key = record {
  has_identity = false;
  authority_ref = ref;
  identity = leaf (record { value = 0; type = 0; slice = none });
  key_id = leaf (Val.uint 0);
  public_key_data = public_key_value (replicate 32 0);
  private_key = 2 ∷ [];
}

abbrev one_place : Bytes
one_place = 0x82 ∷ 0xCB ∷ 0xCA ∷ []

keys_of : with_key.keys ≡ (one_place, one_key) ∷ []
unfolding create_key encode_full_seq make_test_key_manager
keys_of = refl

one-AreValues : AreValues ((one_place, one_key) ∷ []) (one_key ∷ [])
unfolding bytes_equal
one-AreValues = record {
  all_there = λ q ki e. elim (Bool-cases (bytes_equal one_place q)) [
    | inl same ↦ inl (some_key (rw same at e))
    | inr other ↦ absurd (cc (rw other at e))
  ];
  no_others =
      λ ki i. elim i [ inl same ↦ (one_place, ap some (sym same)) | inr nothing ↦ absurd nothing ];
}
  where
    some_key : {ki : KeyInit} → some one_key ≡ some ki → ki ≡ one_key
    some_key e = cc

loads_nothing : load_key_manager plain_json none ≡ ok empty_manager
unfolding load_key_manager keys_in_file make_test_key_manager
loads_nothing = refl

saves : save_keys plain_json (one_key ∷ []) (ok tt) ≡ ok (one_key ∷ [])
unfolding save_keys
saves = refl

load_key_manager-save_keys_example :
    (m' : TestKeyManager) × (load_key_manager plain_json (some (one_key ∷ [])) ≡ ok m')
    × (m'.has_data_change_func ≡ true)
    × ((k : Bytes) → Dict.get m'.keys k ≡ Dict.get with_key.keys k)
load_key_manager-save_keys_example =
    load_key_manager-save_keys sign plain_json none empty_manager with_key (one_key ∷ [])
      (one_key ∷ []) plain-IsJson loads_nothing
      (next here (create (ok (replicate 32 0, 2 ∷ []))) ref)
      (subst (λ d. AreValues d (one_key ∷ [])) (sym keys_of) one-AreValues) saves

abbrev path : Sequence
path = item (leaf (Val.registry Names.deliver_message)) no_items

path-IsEncodable : IsEncodable (104 ∷ []) path
unfolding ItemsAreWellFormed wire header
path-IsEncodable = record {
  name_bytes = (omega arith, tt);
  path_well_formed = ((omega arith, omega arith, tt), tt);
  path_typed = (inr (refl, refl), tt);
  short = omega arith;
}

get_path_properties-make_authority_ref_example :
    (storage : Storage toy_database) × (default_storage toy (ok []) (104 ∷ []) ≡ ok storage)
    × (get_path_properties
          ((to_dbuf_val_string reference_key, request_reference (104 ∷ []) path) ∷ [])
        ≡ ok (record no_path { authority = storage.authority; sub_path = received_items path }))
    × (new_transaction toy_database storage storage.authority true ≡ ok [])
get_path_properties-make_authority_ref_example =
    get_path_properties-make_authority_ref toy [] true (104 ∷ []) path path-IsEncodable
