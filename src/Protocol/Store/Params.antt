-- ===== src/Protocol/Store/Params.antt =====
-- protocol/header.go: `GetHeaderStoreParams`.
use dbuf_demo_go.Common.{ℕ, ◌+◌, Bool, true, false, if◌then◌else◌, ltb, ◌==◌, List, []}
use dbuf_demo_go.Common.{Option, none, some, length}
use dbuf_demo_go.Basic.ParseType
use dbuf_demo_go.Basic.Val
use dbuf_demo_go.Basic.Val.{DbufVal, contents}
use dbuf_demo_go.Basic.Error.{Result, ok, err, ◌>>=◌, GoError, error_wrap, data_error}
use dbuf_demo_go.Basic.Error.{data_value_not_accepted, data_type_not_accepted}
use dbuf_demo_go.Basic.Decode.{decode_sequence}
use dbuf_demo_go.Basic.Keys.{find_key}
use dbuf_demo_go.Protocol.Names
use dbuf_demo_go.Protocol.Stream.{decoder}
use dbuf_demo_go.Protocol.Store.Item.{at, header_store_error}

pub record HeaderStoreParams : Type 0 where
  pub is_present : Bool
  pub is_store : Bool
  pub is_load : Bool
  pub load_id : ℕ
  pub store_id : ℕ
  pub store_params : List DbufVal

-- `HeaderStoreParams{}`
abbrev pub no_params : HeaderStoreParams
no_params = record {
  is_present = false;
  is_store = false;
  is_load = false;
  load_id = 0;
  store_id = 0;
  store_params = [];
}

-- The tests of the items `sv` of an array: an id, a map, and more.
unfoldable pub store_of : List DbufVal → Result HeaderStoreParams
store_of sv =
    let checked : Result HeaderStoreParams = (do
      id ← at sv 0
      headers ← at sv 1
      (if id.type == ParseType.uint
          then (if headers.type == ParseType.map
              then ok (record no_params {
                is_present = true;
                is_store = true;
                store_id = id.value;
                store_params = sv;
              })
              else err (header_store_error (data_error (Val.uint 1) data_type_not_accepted)))
          else err (header_store_error (data_error (Val.uint 0) data_type_not_accepted)))) in
    if ltb (length sv) 2 then err (header_store_error data_value_not_accepted) else checked

-- The items, or the error of `DecodeSequence` in one of the store.
abbrev pub store_items : Option GoError → List DbufVal → Result (List DbufVal)
store_items none sv = ok sv
store_items (some e) sv = err (header_store_error (error_wrap data_value_not_accepted e))

-- The `switch` on the type of the value of `header_store`.
unfoldable pub params_of : DbufVal → Result HeaderStoreParams
unfolding store_of
params_of value =
    let stored : Result HeaderStoreParams = (do
      d ← decode_sequence (decoder (contents value.slice))
      sv ← store_items d.error d.seq
      store_of sv) in
    if value.type == ParseType.uint
    then ok (record no_params { is_present = true; is_load = true; load_id = value.value })
    else if value.type == ParseType.array
    then stored
    else err (header_store_error data_type_not_accepted)

-- The value behind the key, if there is one.
abbrev pub params_at : List DbufVal → Option ℕ → Result HeaderStoreParams
params_at seq none = ok no_params
params_at seq (some i) = at seq (i + 1) >>= params_of

unfoldable pub get_header_store_params : List DbufVal → Result HeaderStoreParams
unfolding params_of
get_header_store_params seq = params_at seq (find_key seq (Val.registry Names.header_store))
