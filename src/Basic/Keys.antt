-- ===== src/Basic/Keys.antt =====
-- basic/decode.go: `ValidateKeysUnique` and `FindKey`, on a sequence of keys and values in turn.
pub mod Laws
pub mod Equality
use dbuf_demo_go.Common.{ℕ, suc, ◌+◌, ◌%◌, Bool, true, false, ◌&&◌, ◌||◌, if◌then◌else◌, ltb, ◌==◌}
use dbuf_demo_go.Common.{List, [], ◌∷◌, Bytes, Option, none, some, length}
use dbuf_demo_go.Basic.Val.{DbufVal, DbufValString, to_dbuf_val_string}
use dbuf_demo_go.Basic.Error.{GoError, data_error, data_key_not_accepted}
use dbuf_demo_go.Basic.Compare.{equal}

-- `==` on `DbufValString`, which compares the fields.
unfoldable pub bytes_equal : Bytes → Bytes → Bool
bytes_equal [] [] = true
bytes_equal [] (y ∷ b) = false
bytes_equal (x ∷ a) [] = false
bytes_equal (x ∷ a) (y ∷ b) = (x == y) && bytes_equal a b

unfoldable pub key_equal : DbufValString → DbufValString → Bool
unfolding bytes_equal
key_equal a b = (a.value == b.value) && (a.type == b.type) && bytes_equal a.string b.string

-- The map `m` of `ValidateKeysUnique` is read for its keys only.
unfoldable pub has_key : List DbufValString → DbufValString → Bool
unfolding key_equal
has_key [] k = false
has_key (j ∷ m) k = key_equal j k || has_key m k

-- `i += 2` passes over the values.
unfoldable pub validate_from : List DbufValString → List DbufVal → Option GoError
unfolding has_key
validate_from m [] = none
validate_from m (k ∷ []) =
    if has_key m (to_dbuf_val_string k) then some (data_error k data_key_not_accepted) else none
validate_from m (k ∷ v ∷ seq) =
    let rest = validate_from (to_dbuf_val_string k ∷ m) seq in
    if has_key m (to_dbuf_val_string k) then some (data_error k data_key_not_accepted) else rest

unfoldable pub validate_keys_unique : List DbufVal → Option GoError
validate_keys_unique seq = validate_from [] seq

-- `i` counts what the loop has passed, and `n` is `len(seq)`. The int -1 is none.
unfoldable pub find_from : ℕ → ℕ → List DbufVal → DbufVal → Option ℕ
find_from i n [] val = none
find_from i n (sv ∷ seq) val =
    let rest = find_from (suc i) n seq val in
    if (i % 2 == 0) && equal sv val && ltb (i + 1) n then some i else rest

unfoldable pub find_key : List DbufVal → DbufVal → Option ℕ
find_key seq val = find_from 0 (length seq) seq val
