-- ===== src/Basic/Wire.antt =====
-- The wire format of DBUF as a function on values, with no buffer and no index: the description that
-- the encoder of basic/encode.go and the decoder of basic/decode.go are held against.
use dbuf_demo_go.Common.{ℕ, ◌+◌, ◌*◌, ◌/◌, ◌%◌, ◌^◌, ◌≤◌, ◌<◌, ◌≡◌, if◌then◌else◌, ltb}
use dbuf_demo_go.Common.{Bool, true, false, not, ◌&&◌, ◌==◌, ◌⊎◌}
use dbuf_demo_go.Common.{List, [], ◌∷◌, ◌++◌, Bytes, none, some, length, IsU32, All, IsByte}
use dbuf_demo_go.Basic.Const.{max_u32}
use dbuf_demo_go.Basic.Val.{
  Slice, contents, DbufVal, DbufValSeq, leaf, nest, Sequence, no_items, item,
}
use dbuf_demo_go.Basic.ParseType

-- The header of a value: the type in three bits, and the number `n` in 5 to 37 more.
unfoldable pub header : ℕ → ℕ → Bytes
header t n =
    if ltb n 24
    then (t * 32 + n) ∷ []
    else if ltb n (2 ^ 10)
    then (t * 32 + 24 + n / 256) ∷ n % 256 ∷ []
    else if ltb n (2 ^ 17)
    then (t * 32 + 28 + n / 65536) ∷ n / 256 % 256 ∷ n % 256 ∷ []
    else if ltb n (2 ^ 24)
    then (t * 32 + 30) ∷ n / 65536 % 256 ∷ n / 256 % 256 ∷ n % 256 ∷ []
    else (t * 32 + 31) ∷ n / 16777216 % 256 ∷ n / 65536 % 256 ∷ n / 256 % 256 ∷ n % 256 ∷ []

-- The number in the header of a value without items.
abbrev pub slice_number : Slice → ℕ → ℕ
slice_number none n = n
slice_number (some b) n = length b

abbrev pub leaf_number : DbufVal → ℕ
leaf_number v = slice_number v.slice v.value

unfoldable mutual
  pub wire : DbufValSeq → Bytes
  wire (leaf v) = header v.type (leaf_number v) ++ contents v.slice
  wire (nest v seq) = header v.type (length (wire_items seq)) ++ wire_items seq

  pub wire_items : Sequence → Bytes
  wire_items no_items = []
  wire_items (item v seq) = wire v ++ wire_items seq

-- A value that has a slice has no number of its own, and its length is a uint32.
abbrev pub IsSliceOf : Slice → ℕ → Type 0
IsSliceOf none n = Unit {0}
IsSliceOf (some b) n = (n ≡ 0) × (length b ≤ max_u32) × All IsByte b

-- A value that the encoder is made for.
abbrev pub IsLeaf : DbufVal → Type 0
IsLeaf v = (v.type < 8) × IsU32 v.value × IsSliceOf v.slice v.value

-- The header of a value with items has its length from them, so the value has none of its own.
unfoldable mutual
  unfolding wire

  pub IsWellFormed : DbufValSeq → Type 0
  IsWellFormed (leaf v) = IsLeaf v
  IsWellFormed (nest v seq) =
      (v.type < 8) × (v.slice ≡ none) × (length (wire_items seq) ≤ max_u32) × ItemsAreWellFormed seq

  pub ItemsAreWellFormed : Sequence → Type 0
  ItemsAreWellFormed no_items = Unit {0}
  ItemsAreWellFormed (item v seq) = IsWellFormed v × ItemsAreWellFormed seq

-- The types whose values have a slice.
abbrev pub has_slice : ℕ → Bool
has_slice t = not (t == ParseType.registry) && not (t == ParseType.uint)

-- A value without a slice or items of its own has one of the two types for numbers, and a value that
-- has a slice one of the others, with the length of the slice for its number.
abbrev pub IsTypedLeaf : DbufVal → Type 0
IsTypedLeaf v =
    ((has_slice v.type ≡ true) × (leaf_number v ≡ length (contents v.slice)))
    ⊎ ((has_slice v.type ≡ false) × (v.slice ≡ none))

abbrev pub IsTyped : DbufValSeq → Type 0
IsTyped (leaf v) = IsTypedLeaf v
IsTyped (nest v seq) = has_slice v.type ≡ true

abbrev pub ItemsAreTyped : Sequence → Type 0
ItemsAreTyped no_items = Unit {0}
ItemsAreTyped (item v seq) = IsTyped v × ItemsAreTyped seq

-- What a receiver has of a value: items have become the bytes of a slice.
unfoldable pub received : DbufValSeq → DbufVal
unfolding wire
received (leaf v) =
    if has_slice v.type
    then record { value = 0; type = v.type; slice = some (contents v.slice) }
    else v
received (nest v seq) = record { value = 0; type = v.type; slice = some (wire_items seq) }

unfoldable pub received_items : Sequence → List DbufVal
unfolding received
received_items no_items = []
received_items (item v seq) = received v ∷ received_items seq
