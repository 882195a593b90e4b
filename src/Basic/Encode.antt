-- ===== src/Basic/Encode.antt =====
-- basic/encode.go: the encoder writes into a buffer of a fixed length, and the measure of a value is
-- the length of the buffer that it needs.
pub mod Write
pub mod Measure
pub mod Full
use dbuf_demo_go.Common.{ℕ, ◌+◌, ◌*◌, ◌%◌, ◌^◌, Bool, true, false}
use dbuf_demo_go.Common.{if◌then◌else◌, ltb, leb, ◌==◌, [], ◌∷◌, Bytes}
use dbuf_demo_go.Common.{none, some, length, set, replicate, to_byte, to_u32, to_u64, shr}
use dbuf_demo_go.Basic.Const.{single_byte_threshold, max_u32}
use dbuf_demo_go.Basic.Val.{Slice, contents, is_nil, DbufVal, DbufValSeq, leaf, nest}
use dbuf_demo_go.Basic.Val.{Sequence, no_items, item}
use dbuf_demo_go.Basic.Error.{Result, ok, err, ◌>>=◌, u32_overflow, incomplete_stream}

-- `Data` keeps its length; `Index` is where the next byte goes.
pub record EncoderState : Type 0 where
  pub bytes : Bytes
  pub index : ℕ

-- `d.Data[d.Index] = b; d.Index++`, after a check that the index is in bounds.
abbrev put : EncoderState → ℕ → EncoderState
put d b = record { bytes = set d.bytes d.index b; index = d.index + 1 }

-- `len(d.Data) <= d.Index+k`
abbrev is_full : EncoderState → ℕ → Bool
is_full d k = leb (length d.bytes) (d.index + k)

-- The initial byte carries `b` and the top bits of `l`, and the rest of `l` follows it.
unfoldable pub write_value : EncoderState → ℕ → ℕ → Result EncoderState
write_value d b l =
    if l == 0
    then (if is_full d 0 then err incomplete_stream else ok (put d b))
    else if ltb l (2 ^ 10)
    then (if is_full d 1
        then err incomplete_stream
        else ok (put (put d (to_byte (to_byte (shr l 8) + b))) (l % 256)))
    else if ltb l (2 ^ 17)
    then (if is_full d 2
        then err incomplete_stream
        else ok
            (put (put (put d (to_byte (to_byte (shr l 16) + b + 4))) (shr l 8 % 256)) (l % 256)))
    else if ltb l (2 ^ 24)
    then (if is_full d 3
        then err incomplete_stream
        else ok
            (put (put (put (put d (to_byte (b + 6))) (shr l 16 % 256)) (shr l 8 % 256)) (l % 256)))
    else if is_full d 4
    then err incomplete_stream
    else ok (
        put
          (put (put (put (put d (to_byte (b + 7))) (shr l 24 % 256)) (shr l 16 % 256))
            (shr l 8 % 256))
          (to_byte l))

unfoldable pub measure_extra_value : ℕ → ℕ → ℕ
measure_extra_value l threshold =
    if ltb l threshold
    then 1
    else if ltb l (2 ^ 10)
    then 2
    else if ltb l (2 ^ 17)
    then 3
    else if ltb l (2 ^ 24)
    then 4
    else 5

unfoldable pub write_initial : EncoderState → ℕ → ℕ → Result EncoderState
unfolding write_value
write_initial d parse_type parse_value =
    let b = to_byte (parse_type * 2 ^ 5) in
    if leb single_byte_threshold parse_value
    then write_value d (to_byte (b + single_byte_threshold)) parse_value
    else write_value d (to_byte (b + to_byte parse_value)) 0

-- `copy(data[index:index+len(b)], b)`, one byte at a time.
abbrev copy : Bytes → ℕ → Bytes → Bytes
copy buf index [] = buf
copy buf index (x ∷ b) = copy (set buf index x) (index + 1) b

unfoldable pub write_bytes : EncoderState → Bytes → Result EncoderState
write_bytes d b =
    if ltb (length d.bytes) (d.index + length b)
    then err incomplete_stream
    else ok (record { bytes = copy d.bytes d.index b; index = d.index + length b })

unfoldable pub measure : ℕ → ℕ → Bool → ℕ
unfolding measure_extra_value
measure l threshold is_string =
    let size = measure_extra_value l threshold in if is_string then to_u64 (size + l) else size

-- `MeasureValue` of a value with a nil `Sequence`.
unfoldable pub measure_leaf : DbufVal → Result ℕ
unfolding measure
measure_leaf v =
    if is_nil v.slice
    then ok (measure v.value single_byte_threshold false)
    else if ltb max_u32 (length (contents v.slice))
    then err (u32_overflow (length (contents v.slice)))
    else ok (measure (to_u32 (length (contents v.slice))) single_byte_threshold true)

-- What `MeasureValue` makes of the length `l` of a sequence.
unfoldable pub measure_nested : Bool → ℕ → Result ℕ
unfolding measure
measure_nested false l = ok l
measure_nested true l =
    if ltb max_u32 l
    then err (u32_overflow l)
    else ok (measure (to_u32 l) single_byte_threshold true)

unfoldable mutual
  unfolding measure_leaf measure_nested

  pub measure_value : DbufValSeq → Bool → Result ℕ
  measure_value (leaf v) nested = measure_leaf v
  measure_value (nest v seq) nested = measure_sequence seq 0 >>= measure_nested nested

  -- The loop over `v.Sequence`, with the sum so far.
  pub measure_sequence : Sequence → ℕ → Result ℕ
  measure_sequence no_items l = ok l
  measure_sequence (item sv seq) l =
      measure_value sv true >>= λ size. measure_sequence seq (to_u64 (l + size))

-- The value that `EncodeSeq` writes into the initial byte, for a nil `Sequence` and for another.
unfoldable pub leaf_parse_value : DbufVal → Result ℕ
leaf_parse_value v =
    let byte_length = length (contents v.slice) in
    if byte_length == 0
    then ok v.value
    else if ltb max_u32 byte_length
    then err (u32_overflow byte_length)
    else ok (to_u32 byte_length)

unfoldable pub sequence_parse_value : ℕ → Result ℕ
sequence_parse_value l = if ltb max_u32 l then err (u32_overflow l) else ok (to_u32 l)

unfoldable pub write_slice : EncoderState → Slice → Result EncoderState
unfolding write_bytes
write_slice d none = ok d
write_slice d (some b) = write_bytes d b

unfoldable mutual
  unfolding measure_value write_initial write_slice leaf_parse_value sequence_parse_value

  pub encode_seq : EncoderState → DbufValSeq → Result EncoderState
  encode_seq d (leaf v) = do
    parse_value ← leaf_parse_value v
    d₁ ← write_initial d (to_byte v.type) parse_value
    write_slice d₁ v.slice
  encode_seq d (nest v seq) = do
    _ ← leaf_parse_value v
    l ← measure_value (nest v seq) false
    parse_value ← sequence_parse_value l
    d₁ ← write_initial d (to_byte v.type) parse_value
    d₂ ← write_slice d₁ v.slice
    encode_items d₂ seq

  -- The loop over `v.Sequence`.
  pub encode_items : EncoderState → Sequence → Result EncoderState
  encode_items d no_items = ok d
  encode_items d (item sv seq) = encode_seq d sv >>= λ d'. encode_items d' seq

unfoldable pub encode : EncoderState → DbufVal → Result EncoderState
unfolding encode_seq
encode d v = encode_seq d (leaf v)

-- `EncoderState{Data: make([]byte, size)}`
abbrev pub make_state : ℕ → EncoderState
make_state size = record { bytes = replicate size 0; index = 0 }

unfoldable pub encode_full_seq : DbufValSeq → Result Bytes
unfolding measure_value encode_seq
encode_full_seq val = do
  size ← measure_value val true
  es ← encode_seq (make_state size) val
  ok es.bytes

-- The variadic `val` is nil if there are no arguments, and then `MeasureValue` gives the size of a
-- value with a nil `Sequence`.
abbrev variadic : Sequence → DbufValSeq
variadic no_items = leaf (record { value = 0; type = 0; slice = none })
variadic val = nest (record { value = 0; type = 0; slice = none }) val

unfoldable pub encode_sequence : Sequence → Result Bytes
unfolding measure_value encode_seq
encode_sequence val = do
  size ← measure_value (variadic val) false
  es ← encode_items (make_state size) val
  ok es.bytes

unfoldable pub encode_full : DbufVal → Result Bytes
unfolding encode_full_seq
encode_full val = encode_full_seq (leaf val)
