-- ===== src/Runs/Numbers.antt =====
-- The integers, the order and the keys of values.
use dbuf_demo_go.Common.{◌≡◌, ◌^◌, ◌-◌, ◌↔◌, refl, arith, List, [], ◌∷◌, none, some, true}
use dbuf_demo_go.Basic.Val
use dbuf_demo_go.Basic.Val.{DbufVal, to_dbuf_val_string}
use dbuf_demo_go.Basic.Error.{ok}
use dbuf_demo_go.Basic.Number.{uint64, int64, get_u64, get_i64}
use dbuf_demo_go.Basic.Number.RoundTrip.{get_u64-uint64}
use dbuf_demo_go.Basic.Number.Signed.{get_i64-int64}
use dbuf_demo_go.Basic.Compare.{compare, compare_bytes, equal}
use dbuf_demo_go.Basic.Compare.Laws.{equal_iff, IsBefore, compare-Says}
use dbuf_demo_go.Basic.Keys.{validate_keys_unique, find_key, find_from}
use dbuf_demo_go.Basic.Keys.Laws.{
  AreNew, keys, validate_keys_unique_iff, first_pair, find_key-first_pair,
}

uint64_large : uint64 0xFFFF_FFFF_FF ≡ Val.integer (0 ∷ 255 ∷ 255 ∷ 255 ∷ 255 ∷ 255 ∷ [])
unfolding uint64
uint64_large = refl

-- -256 is the byte FF and the byte 00: its last byte has no sign.
int64_negative : int64 (2 ^ 64 - 256) ≡ Val.integer (255 ∷ 0 ∷ [])
unfolding int64
int64_negative = refl

get_u64-uint64_example : get_u64 (uint64 0xFFFF_FFFF_FF) ≡ ok 0xFFFF_FFFF_FF
get_u64-uint64_example = get_u64-uint64 0xFFFF_FFFF_FF (omega arith)

get_i64-int64_example : get_i64 (int64 (2 ^ 64 - 256)) ≡ ok (2 ^ 64 - 256)
get_i64-int64_example = get_i64-int64 (2 ^ 64 - 256) (omega arith)

abbrev abc : DbufVal
abc = Val.text (97 ∷ 98 ∷ 99 ∷ [])

abbrev abd : DbufVal
abd = Val.text (97 ∷ 98 ∷ 100 ∷ [])

abbrev pairs : List DbufVal
pairs = Val.uint 1 ∷ Val.uint 10 ∷ abc ∷ Val.uint 20 ∷ []

find_key-abc : find_key pairs abc ≡ some 2
unfolding find_key find_from equal compare compare_bytes
find_key-abc = refl

equal_iff_example :
    (equal Val.map (Val.map_slice []) ≡ true)
    ↔ (to_dbuf_val_string Val.map ≡ to_dbuf_val_string (Val.map_slice []))
equal_iff_example = equal_iff Val.map (Val.map_slice [])

compare-Says_example : IsBefore abc abd
unfolding compare compare_bytes
compare-Says_example = compare-Says abc abd

validate_keys_unique_iff_example : (validate_keys_unique pairs ≡ none) ↔ AreNew [] (keys pairs)
validate_keys_unique_iff_example = validate_keys_unique_iff pairs

find_key-first_pair_example : find_key pairs abc ≡ first_pair 0 pairs abc
find_key-first_pair_example = find_key-first_pair pairs abc
