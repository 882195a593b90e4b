-- ===== src/Demo/Client.antt =====
-- demo-client/defaults/demo.go: `MakeAuthorityRef`, `LoadKeyManager` and the function that saves the keys
-- again. JSON is a parameter, and so is the file; printing and logging are left out.
pub mod Saved
use dbuf_demo_go.Common.{true, List, [], ◌∷◌, Bytes, Option, none, some}
use dbuf_demo_go.Common.Dict
use dbuf_demo_go.Common.Dict.{Dict}
use dbuf_demo_go.Basic.Val
use dbuf_demo_go.Basic.Val.{DbufValSeq, leaf, nest, no_items, item}
use dbuf_demo_go.Basic.Error.{Result, ok, err, panic, stuck, ◌>>=◌}
use dbuf_demo_go.Basic.Encode.{encode_full_seq}
use dbuf_demo_go.Basic.Keys.Equality.{bytes_eq}
use dbuf_demo_go.Protocol.Names
use dbuf_demo_go.Protocol.Reader.{Reader}
use dbuf_demo_go.Protocol.Outside.{Outside}
use dbuf_demo_go.Protocol.Client.Keys.{KeyManager, ClientState}
use dbuf_demo_go.Protocol.Client.HeaderStore.{make_header_store_state}
use dbuf_demo_go.Protocol.Client.Message.{send_message}
use dbuf_demo_go.Connection.KeyManager.{KeyInit, TestKeyManager, make_test_key_manager}

unfoldable pub make_authority_ref : Bytes → DbufValSeq
make_authority_ref dns = nest Val.array (
    item (leaf (Val.registry Names.host))
      (item (leaf (Val.text dns)) (item (leaf (Val.registry Names.authority_marker)) no_items)))

-- `if err != nil { panic(err) }`
abbrev pub or_panic {ℓ} : {A : Type ℓ} → Result A → Result A
or_panic (err e) = panic
or_panic m = m

-- `json.Marshal` and `json.Unmarshal` of a `[]KeyInit`, and what a file holds.
pub record Json : Type 1 where
  pub Text : Type 0
  pub marshal : List KeyInit → Result Text
  pub unmarshal : Text → Result (List KeyInit)

-- The loop that puts every key under the encoding of its authority reference.
unfoldable pub load_keys : List KeyInit → Dict Bytes KeyInit → Result (Dict Bytes KeyInit)
load_keys [] keys = ok keys
load_keys (ki ∷ rest) keys =
    or_panic (encode_full_seq ki.authority_ref) >>= λ k. load_keys rest (Dict.put keys k ki)

-- What is read of the file, which may be missing or not be readable.
unfoldable pub keys_in_file : (json : Json) → Option json.Text → Result (Dict Bytes KeyInit)
unfolding load_keys
keys_in_file json none = ok []
keys_in_file json (some b) = or_panic (json.unmarshal b) >>= λ kis. load_keys kis []

unfoldable pub load_key_manager : (json : Json) → Option json.Text → Result TestKeyManager
unfolding keys_in_file make_test_key_manager
load_key_manager json file = keys_in_file json file >>= λ keys.
    ok (record make_test_key_manager { keys = keys; has_data_change_func = true })

-- `DataChangeFunc`: what is written to the file. `values` are those of the map, in the order that
-- `range` gives them in; `written` is what `os.WriteFile` returns.
unfoldable pub save_keys : (json : Json) → List KeyInit → Result (Unit {0}) → Result json.Text
save_keys json values written =
    or_panic (json.marshal values) >>= λ b. or_panic written >>= λ u. ok b

-- demo-client/main.go: what is typed is sent to the server as a text. The error of `SendMessage` is
-- logged; it is given back here.
module _ (o : Outside) (km : KeyManager) where
  unfoldable pub send_input :
      Result (Bytes → Result Reader) × Result (Bytes → Result Reader)
      → Bytes
      → Option Bytes
      → ClientState o km
      → Result (Unit {0})
  unfolding send_message make_header_store_state make_authority_ref
  send_input streams server_name none client = ok tt
  send_input streams server_name (some input) client =
      (send_message o km streams (make_authority_ref server_name) (leaf (Val.text input))
        (make_header_store_state o km client)).0
