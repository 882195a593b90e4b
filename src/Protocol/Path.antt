-- ===== src/Protocol/Path.antt =====
-- protocol/header.go, `GetPathProperties`: the authority, the path and the operation of a request.
pub mod Split
use dbuf_demo_go.Common.{ℕ, suc, ◌+◌, Bool, true, false, not, if◌then◌else◌, ltb, ◌==◌}
use dbuf_demo_go.Common.{List, [], ◌∷◌, Option, none, some, length, get_or, take, drop}
use dbuf_demo_go.Basic.ParseType
use dbuf_demo_go.Basic.Val
use dbuf_demo_go.Basic.Val.{DbufVal, contents, to_dbuf_val_string}
use dbuf_demo_go.Basic.Error.{Result, ok, err, ◌>>=◌, GoError, data_error, data_key_missing}
use dbuf_demo_go.Basic.Error.{data_value_not_accepted, data_type_not_accepted}
use dbuf_demo_go.Basic.Compare.{equal}
use dbuf_demo_go.Basic.Decode.{DecodedSequence, decode_sequence}
use dbuf_demo_go.Protocol.Names
use dbuf_demo_go.Protocol.Stream.{decoder}
use dbuf_demo_go.Protocol.Body.{Headers, lookup, zero_val}

pub record PathProperties : Type 0 where
  pub authority : List DbufVal
  pub sub_path : List DbufVal
  pub has_operation : Bool
  pub operation_id : DbufVal
  pub operation_params : List DbufVal

-- `PathProperties{}`
abbrev pub no_path : PathProperties
no_path = record {
  authority = [];
  sub_path = [];
  has_operation = false;
  operation_id = zero_val;
  operation_params = [];
}

abbrev pub reference_key : DbufVal
reference_key = Val.registry Names.reference

abbrev pub operation_key : DbufVal
operation_key = Val.registry Names.operation

-- The values of a sequence, or its error under the key `key`.
abbrev pub values_of : DbufVal → Option GoError → List DbufVal → Result (List DbufVal)
values_of key none seq = ok seq
values_of key (some e) seq = err (data_error key e)

unfoldable pub items_of : DbufVal → DbufVal → Result (List DbufVal)
items_of key v = decode_sequence (decoder (contents v.slice)) >>= λ d. values_of key d.error d.seq

-- The index of the authority marker. The int -1 is none.
unfoldable pub marker_index : List DbufVal → Option ℕ
marker_index [] = none
marker_index (h ∷ sv) =
    let rest = marker_index sv in
    if equal h (Val.registry Names.authority_marker)
    then some 0
    else elim rest [ none ↦ none | some i ↦ some (suc i) ]

-- The slices before and behind the index of the marker.
unfoldable pub split_at : List DbufVal → Option ℕ → PathProperties
split_at sv none = record no_path { authority = sv }
split_at sv (some i) = record no_path { authority = take i sv; sub_path = drop (suc i) sv }

-- The tests of the items of a reference, and its parts.
unfoldable pub reference_parts : List DbufVal → Result PathProperties
unfolding marker_index split_at
reference_parts sv =
    if ltb (length sv) 1
    then err (data_error reference_key data_value_not_accepted)
    else if not (equal (get_or sv 0 zero_val) (Val.registry Names.host))
    then err (data_error reference_key data_value_not_accepted)
    else if ltb (length sv) 2
    then err (data_error reference_key data_value_not_accepted)
    else ok (split_at sv (marker_index sv))

unfoldable pub read_reference : Option DbufVal → Result PathProperties
unfolding items_of reference_parts
read_reference none = err (data_error reference_key data_key_missing)
read_reference (some p) =
    if p.type == ParseType.array
    then (items_of reference_key p >>= reference_parts)
    else err (data_error reference_key data_type_not_accepted)

-- The operation of an array: its first item, and the parameters behind it.
unfoldable pub operation_parts : PathProperties → List DbufVal → Result PathProperties
operation_parts out [] = err (data_error operation_key data_value_not_accepted)
operation_parts out (id ∷ params) =
    if id.type == ParseType.registry
    then ok (record out { operation_id = id; operation_params = params })
    else err (data_error operation_key (data_error (Val.uint 0) data_type_not_accepted))

unfoldable pub read_operation : PathProperties → Option DbufVal → Result PathProperties
unfolding items_of operation_parts
read_operation out none = ok out
read_operation out (some op) =
    let out' = record out { has_operation = true } in
    if op.type == ParseType.registry
    then ok (record out' { operation_id = op })
    else if op.type == ParseType.array
    then (items_of operation_key op >>= operation_parts out')
    else err (data_error operation_key data_type_not_accepted)

unfoldable pub get_path_properties : Headers → Result PathProperties
unfolding read_reference read_operation
get_path_properties headers = do
  out ← read_reference (lookup headers (to_dbuf_val_string reference_key))
  read_operation out (lookup headers (to_dbuf_val_string operation_key))
