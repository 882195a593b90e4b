-- ===== src/Basic/Number.antt =====
-- The integers of basic/val.go: `Uint64`, `Int64`, `GetU64` and `GetI64`.
-- An int64 is its bit pattern, a number below 2 ^ 64: it is negative from 2 ^ 63 on, -1 is
-- 2 ^ 64 - 1, and the conversion between int64 and uint64 leaves the pattern alone.
pub mod RoundTrip
pub mod Signed
use dbuf_demo_go.Common.{ℕ, zero, suc, ◌+◌, ◌-◌, ◌*◌, ◌/◌, ◌%◌, ◌^◌, Bool, true, false, ◌&&◌, ◌||◌}
use dbuf_demo_go.Common.{if◌then◌else◌, ltb, leb, ◌==◌, not, [], ◌∷◌, Bytes, length, get_or, drop}
use dbuf_demo_go.Common.{to_u64, to_byte}
use dbuf_demo_go.Basic.Const.{max_u32}
use dbuf_demo_go.Basic.ParseType
use dbuf_demo_go.Basic.Val
use dbuf_demo_go.Basic.Val.{DbufVal, contents}
use dbuf_demo_go.Basic.Error.{Result, ok, err, data_value_not_accepted, data_type_not_accepted}

-- `binary.BigEndian.PutUint64(b[:], val)`
abbrev pub big_endian : ℕ → Bytes
big_endian val =
    to_byte (val / 2 ^ 56)
    ∷ to_byte (val / 2 ^ 48)
    ∷ to_byte (val / 2 ^ 40)
    ∷ to_byte (val / 2 ^ 32)
    ∷ to_byte (val / 2 ^ 24)
    ∷ to_byte (val / 2 ^ 16)
    ∷ to_byte (val / 2 ^ 8)
    ∷ to_byte val
    ∷ []

-- `i := 0; for i < limit && b[i] == x { i++ }`
unfoldable pub leading : ℕ → ℕ → Bytes → ℕ
leading x zero b = 0
leading x (suc limit) [] = 0
leading x (suc limit) (y ∷ b) = if y == x then suc (leading x limit b) else 0

-- The bytes of a number from the index `i` on, with a zero in front if the first would be a sign.
unfoldable pub signed_integer : ℕ → Bytes → DbufVal
signed_integer i b =
    if leb 0x80 (get_or b i 0) then Val.integer (drop i (0 ∷ b)) else Val.integer (drop i b)

unfoldable pub uint64 : ℕ → DbufVal
unfolding signed_integer leading
uint64 val =
    if leb val max_u32
    then Val.uint val
    else signed_integer (leading 0 7 (big_endian val)) (big_endian val)

-- `val < 0` of an int64
abbrev pub is_negative : ℕ → Bool
is_negative val = leb (2 ^ 63) val

-- The part of `Int64` for numbers below -1.
unfoldable pub negative_integer : ℕ → Bytes → DbufVal
negative_integer i b =
    if ltb (get_or b i 0) 0x80 then Val.integer (drop (i - 1) b) else Val.integer (drop i b)

unfoldable pub int64 : ℕ → DbufVal
unfolding signed_integer negative_integer leading
int64 val =
    if not (is_negative val) && leb val max_u32
    then Val.uint val
    else if val == 2 ^ 64 - 1
    then Val.integer []
    else if not (is_negative val)
    then signed_integer (leading 0 7 (big_endian val)) (big_endian val)
    else negative_integer (leading 0xff 7 (big_endian val)) (big_endian val)

-- `for … { u64 = u64<<8 + uint64(b) }`; in `GetI64` the sum is a bitwise or, of a number whose low
-- byte is 0 and a byte.
unfoldable pub shift_bytes : ℕ → Bytes → ℕ
shift_bytes acc [] = acc
shift_bytes acc (x ∷ b) = shift_bytes (to_u64 (to_u64 (acc * 2 ^ 8) + x)) b

-- The two tests at the top of `GetU64`.
unfoldable pub rejects_u64 : Bytes → Bool
rejects_u64 s =
    (length s == 0)
    || ltb 9 (length s)
    || ltb 127 (get_or s 0 0)
    || (ltb (get_or s 0 0) 128 && ltb (length s) 5)
    || (ltb (length s) 9 && (get_or s 0 0 == 0) && ltb (get_or s 1 0) 128)
    || ((length s == 9) && (not (get_or s 0 0 == 0) || ltb (get_or s 1 0) 128))

unfoldable pub get_u64 : DbufVal → Result ℕ
unfolding rejects_u64
get_u64 v =
    let s = contents v.slice in
    if v.type == ParseType.integer
    then (if rejects_u64 s
        then err data_value_not_accepted
        else ok (shift_bytes 0 (drop (if get_or s 0 0 == 0 then 1 else 0) s)))
    else if v.type == ParseType.uint
    then ok v.value
    else err data_type_not_accepted

-- The tests of `GetI64`, on a slice that is not empty.
unfoldable pub rejects_i64 : Bytes → Bool
rejects_i64 s =
    ltb 8 (length s)
    || (ltb 1 (length s) && (get_or s 0 0 == 0) && ltb (get_or s 1 0) 0x80)
    || (ltb 1 (length s) && (get_or s 0 0 == 0xFF) && leb 0x80 (get_or s 1 0))
    || ((length s == 1) && (get_or s 0 0 == 0xFF))

unfoldable pub get_i64 : DbufVal → Result ℕ
unfolding rejects_i64
get_i64 v =
    let s = contents v.slice in
    if v.type == ParseType.uint
    then ok v.value
    else if v.type == ParseType.integer
    then (if length s == 0
        then ok (2 ^ 64 - 1)
        else if rejects_i64 s
        then err data_value_not_accepted
        else ok (shift_bytes (if leb 0x80 (get_or s 0 0) then 2 ^ 64 - 1 else 0) s))
    else err data_type_not_accepted
