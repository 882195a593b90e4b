-- ===== src/Basic/Float.antt =====
-- The floats of basic/val.go: `Float64` and `GetFloat64`. The numbers themselves are parameters: float64
-- and float32 are those of Go, and float16 that of github.com/x448/float16.
pub mod RoundTrip
use dbuf_demo_go.Common.{ℕ, zero, suc, ◌+◌, ◌-◌, ◌*◌, ◌/◌, ◌%◌, ◌^◌, Bool, true, false, ◌&&◌, not}
use dbuf_demo_go.Common.{
  if◌then◌else◌, ltb, leb, ◌==◌, [], ◌∷◌, ◌++◌, Bytes, length, get_or, take, replicate, to_byte,
}
use dbuf_demo_go.Basic.ParseType
use dbuf_demo_go.Basic.Val
use dbuf_demo_go.Basic.Val.{DbufVal, contents}
use dbuf_demo_go.Basic.Error.{Result, ok, err, data_value_not_accepted, data_type_not_accepted}
use dbuf_demo_go.Basic.Number.{big_endian}

pub record Floats : Type 1 where
  pub Float64 : Type 0
  pub Float32 : Type 0
  pub Float16 : Type 0
  pub nan : Float64
  pub is_nan : Float64 → Bool
  -- `==` of float64 and of float32
  pub equal64 : Float64 → Float64 → Bool
  pub equal32 : Float32 → Float32 → Bool
  -- `float32(val)` and `float64(v32)`
  pub narrow : Float64 → Float32
  pub widen : Float32 → Float64
  -- `float16.Fromfloat32(v32)` and `v16.Float32()`
  pub to_half : Float32 → Float16
  pub of_half : Float16 → Float32
  -- `math.Float64bits`, `math.Float32bits`, `v16.Bits()`, and back
  pub bits64 : Float64 → ℕ
  pub bits32 : Float32 → ℕ
  pub bits16 : Float16 → ℕ
  pub of_bits64 : ℕ → Float64
  pub of_bits32 : ℕ → Float32
  pub of_bits16 : ℕ → Float16

-- `binary.BigEndian.PutUint16` and `PutUint32`
abbrev pub big_endian16 : ℕ → Bytes
big_endian16 n = to_byte (n / 2 ^ 8) ∷ to_byte n ∷ []

abbrev pub big_endian32 : ℕ → Bytes
big_endian32 n = to_byte (n / 2 ^ 24) ∷ to_byte (n / 2 ^ 16) ∷ to_byte (n / 2 ^ 8) ∷ to_byte n ∷ []

-- `BigEndian.Uint16` and the others, of the first `n` bytes
unfoldable pub from_big_endian : ℕ → Bytes → ℕ → ℕ
from_big_endian zero b acc = acc
from_big_endian (suc n) [] acc = acc
from_big_endian (suc n) (x ∷ b) acc = from_big_endian n b (acc * 2 ^ 8 + x)

-- `b[:n]` if the byte `n` is 0, and all of `b` if it is not.
abbrev pub without_zero : ℕ → Bytes → Bytes
without_zero n b = if get_or b n 0 == 0 then take n b else b

-- `i := 8; for i > 5 && b[i-1] == 0 { i-- }`, with `limit` rounds left.
unfoldable pub trimmed : ℕ → ℕ → Bytes → ℕ
trimmed zero i b = i
trimmed (suc limit) i b =
    let rest = trimmed limit (i - 1) b in if get_or b (i - 1) 0 == 0 then rest else i

-- `copy(b[:], v.Slice)` into eight zeros.
abbrev pub padded : Bytes → Bytes
padded b = b ++ replicate (8 - length b) 0

module _ (f : Floats) where
  open f use {
    Float64, Float32, nan, is_nan, equal64, equal32, narrow, widen, to_half, of_half, bits64,
    bits32, bits16, of_bits64, of_bits32, of_bits16,
  }

  -- A float32 of which nothing is lost.
  unfoldable pub float32_val : Float32 → DbufVal
  float32_val v32 =
      let v16 = to_half v32 in
      if equal32 (of_half v16) v32
      then Val.float (without_zero 1 (big_endian16 (bits16 v16)))
      else Val.float (without_zero 3 (big_endian32 (bits32 v32)))

  unfoldable pub float64 : Float64 → DbufVal
  unfolding float32_val trimmed
  float64 val =
      let b = big_endian (bits64 val) in
      if is_nan val
      then Val.float []
      else if equal64 (widen (narrow val)) val
      then float32_val (narrow val)
      else Val.float (take (trimmed 3 8 b) b)

  -- The `switch` on the length of the slice.
  unfoldable pub float_of : Bytes → Float64
  unfolding from_big_endian
  float_of b =
      if length b == 0
      then nan
      else if leb (length b) 2
      then widen (of_half (of_bits16 (from_big_endian 2 (padded b) 0)))
      else if leb (length b) 4
      then widen (of_bits32 (from_big_endian 4 (padded b) 0))
      else of_bits64 (from_big_endian 8 (padded b) 0)

  unfoldable pub get_float64 : DbufVal → Result Float64
  unfolding float_of
  get_float64 v =
      if not (v.type == ParseType.float)
      then err data_type_not_accepted
      else if ltb 8 (length (contents v.slice))
      then err data_value_not_accepted
      else ok (float_of (contents v.slice))
