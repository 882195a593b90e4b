-- ===== src/Basic/Val.antt =====
-- basic/val.go: the values of a decoded stream, their constructors and their order.
use dbuf_demo_go.Common.{ℕ, Bool, true, false, ◌&&◌, not, ◌==◌}
use dbuf_demo_go.Common.{if◌then◌else◌, [], Option, none, some, Bytes}
use dbuf_demo_go.Basic.Registry
use dbuf_demo_go.Basic.ParseType

-- A `[]byte` that may be nil. `none` is nil, which is not the empty slice.
abbrev pub Slice : Type 0
Slice = Option Bytes

-- `len` of a slice and its contents: nil has none.
abbrev pub contents : Slice → Bytes
contents none = []
contents (some b) = b

abbrev pub is_nil {ℓ} : {A : Type ℓ} → Option A → Bool
is_nil none = true
is_nil (some b) = false

pub record Optional {ℓ} (A : Type ℓ) : Type ℓ where
  pub has_value : Bool
  pub value : A

pub record InitialDecode : Type 0 where
  pub value : ℕ
  pub type : ℕ
  pub missing_extra_length : ℕ
  pub extra_length : ℕ

-- `InitialDecode{}`
abbrev pub zero_initial : InitialDecode
zero_initial = record { value = 0; type = 0; missing_extra_length = 0; extra_length = 0 }

pub record DbufVal : Type 0 where
  pub value : ℕ
  pub type : ℕ
  pub slice : Slice

-- A Go string is its bytes.
pub record DbufValString : Type 0 where
  pub value : ℕ
  pub type : ℕ
  pub string : Bytes

-- A `DbufValSeq`: `leaf` has a nil `Sequence` and `nest` one that is not nil, which may be empty.
-- `Sequence` is the type `[]DbufValSeq`.
mutual
  pub data DbufValSeq : Type 0 where
    leaf : DbufVal → DbufValSeq
    nest : DbufVal → Sequence → DbufValSeq

  pub data Sequence : Type 0 where
    no_items : Sequence
    item : DbufValSeq → Sequence → Sequence

abbrev pub type_has_slice : InitialDecode → Bool
type_has_slice v = not (v.type == ParseType.registry) && not (v.type == ParseType.uint)

abbrev pub type_has_nesting : InitialDecode → Bool
type_has_nesting v = if v.type == ParseType.array then true else v.type == ParseType.map

abbrev pub is_end_marker : InitialDecode → Bool
is_end_marker v = (v.type == ParseType.registry) && (v.value == Registry.end_marker)

unfoldable pub get_dbuf_val : InitialDecode → Slice → DbufVal
get_dbuf_val d parse_bytes = record {
  value = if is_nil parse_bytes then d.value else 0;
  type = d.type;
  slice = parse_bytes;
}

abbrev pub to_dbuf_val_string : DbufVal → DbufValString
to_dbuf_val_string v = record { value = v.value; type = v.type; string = contents v.slice }

abbrev pub uint : ℕ → DbufVal
uint n = record { type = ParseType.uint; value = n; slice = none }

abbrev pub integer : Bytes → DbufVal
integer b = record { type = ParseType.integer; value = 0; slice = some b }

abbrev pub registry : ℕ → DbufVal
registry n = record { type = ParseType.registry; value = n; slice = none }

abbrev pub float : Bytes → DbufVal
float b = record { type = ParseType.float; value = 0; slice = some b }

abbrev pub text : Bytes → DbufVal
text s = record { type = ParseType.text; value = 0; slice = some s }

abbrev pub bytes : Bytes → DbufVal
bytes b = record { type = ParseType.bytes; value = 0; slice = some b }

abbrev pub map : DbufVal
map = record { type = ParseType.map; value = 0; slice = none }

abbrev pub array : DbufVal
array = record { type = ParseType.array; value = 0; slice = none }

abbrev pub map_slice : Bytes → DbufVal
map_slice b = record { type = ParseType.map; value = 0; slice = some b }

abbrev pub array_slice : Bytes → DbufVal
array_slice b = record { type = ParseType.array; value = 0; slice = some b }
