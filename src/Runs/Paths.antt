-- ===== src/Runs/Paths.antt =====
-- The references of requests.
use dbuf_demo_go.Common.{◌≡◌, refl, [], ◌∷◌, false}
use dbuf_demo_go.Basic.Val
use dbuf_demo_go.Basic.Val.{DbufVal, to_dbuf_val_string}
use dbuf_demo_go.Basic.Error.{ok}
use dbuf_demo_go.Basic.Keys.{key_equal, bytes_equal}
use dbuf_demo_go.Basic.Compare.{compare, compare_bytes, equal}
use dbuf_demo_go.Basic.Decode.{decode_sequence, decode_loop, decode, decode_initial, start_initial}
use dbuf_demo_go.Basic.Decode.{decode_slice, read_slice}
use dbuf_demo_go.Protocol.Names
use dbuf_demo_go.Protocol.Reader.{Gives}
use dbuf_demo_go.Protocol.Body.{Headers, zero_val}
use dbuf_demo_go.Protocol.Path.{reference_key, get_path_properties, items_of}
use dbuf_demo_go.Protocol.Path.Split.{IsPathOf, get_path_properties-IsPathOf}

-- The host, a text, the marker and another text.
abbrev reference : DbufVal
reference = Val.array_slice (0xCB ∷ 0x41 ∷ 97 ∷ 0xCA ∷ 0x41 ∷ 98 ∷ [])

abbrev path_headers : Headers
path_headers = (to_dbuf_val_string reference_key, reference) ∷ []

reference_splits :
    get_path_properties path_headers
    ≡ ok (record {
      authority = Val.registry Names.host ∷ Val.text (97 ∷ []) ∷ [];
      sub_path = Val.text (98 ∷ []) ∷ [];
      has_operation = false;
      operation_id = zero_val;
      operation_params = [];
    })
unfolding get_path_properties items_of key_equal bytes_equal compare equal decode_sequence
    decode_loop decode decode_initial start_initial decode_slice read_slice Val.get_dbuf_val
    compare_bytes
reference_splits = refl

get_path_properties-IsPathOf_example : Gives (IsPathOf reference) (get_path_properties path_headers)
unfolding key_equal bytes_equal
get_path_properties-IsPathOf_example = get_path_properties-IsPathOf path_headers reference refl
