-- ===== src/Basic/Decode.antt =====
-- basic/decode.go up to `DecodeSequence`: reading values from a buffer at an index.
-- A read out of bounds of the buffer, which Go turns into a run-time panic, is `panic`.
pub mod Header
pub mod Read
pub mod Bounds
pub mod Sequence
pub mod RoundTrip
use dbuf_demo_go.Common.{ℕ, zero, suc, ◌+◌, ◌-◌, ◌*◌, ◌/◌, ◌%◌, ◌^◌, Bool, true, false}
use dbuf_demo_go.Common.{if◌then◌else◌, ltb, leb, ◌==◌, not, List, [], ◌∷◌, ◌++◌, Bytes, Option}
use dbuf_demo_go.Common.{none, some, length, get_or, take, drop, to_u32, shr}
use dbuf_demo_go.Basic.Const.{single_byte_threshold}
use dbuf_demo_go.Basic.Val.{
  Slice, DbufVal, InitialDecode, zero_initial, get_dbuf_val, type_has_slice,
}
use dbuf_demo_go.Basic.Error.{Result, ok, err, panic, stuck, ◌>>=◌, GoError, incomplete_stream}
use dbuf_demo_go.Basic.Encode.{measure_extra_value}
use dbuf_demo_go.Basic.Code

pub record DecoderState : Type 0 where
  pub bytes : Bytes
  pub index : ℕ

-- `len(d.Data) <= d.Index`
abbrev pub at_end : DecoderState → Bool
at_end d = leb (length d.bytes) d.index

-- `d.Data[d.Index]`, in bounds, and `d.Index++`.
abbrev pub current : DecoderState → ℕ
current d = get_or d.bytes d.index 0

abbrev pub advance : DecoderState → DecoderState
advance d = record d { index = d.index + 1 }

-- `v<<8 + uint32(b)`
abbrev pub shift_in : ℕ → ℕ → ℕ
shift_in v b = to_u32 (to_u32 (v * 2 ^ 8) + b)

-- The steps `if len(d.Data) <= d.Index {return}; v = v<<8 + uint32(d.Data[d.Index]); d.Index++` for
-- each of `missing` bytes: the value, the number of bytes still missing and the state.
unfoldable pub read_missing : ℕ → ℕ → DecoderState → ℕ × ℕ × DecoderState
read_missing zero v d = (v, 0, d)
read_missing (suc missing) v d =
    let rest = read_missing missing (shift_in v (current d)) (advance d) in
    if at_end d then (v, suc missing, d) else rest

pub record ExtraValue : Type 0 where
  pub val : ℕ
  pub missing_extra_length : ℕ
  pub extra_length : ℕ
  pub state : DecoderState

abbrev extra_value : ℕ → ℕ × ℕ × DecoderState → ExtraValue
extra_value extra_length (v, missing, d) = record {
  val = v;
  missing_extra_length = missing;
  extra_length = extra_length;
  state = d;
}

unfoldable pub read_extra_value : DecoderState → ℕ → ExtraValue
unfolding read_missing
read_extra_value d l1 =
    if ltb l1 4
    then extra_value 1 (read_missing 1 (l1 % 4) d)
    else if ltb l1 6
    then extra_value 2 (read_missing 2 (l1 % 2) d)
    else if ltb l1 7
    then extra_value 3 (read_missing 3 0 d)
    else extra_value 4 (read_missing 4 0 d)

-- `DecodeInitial` and `CheckCanonical` on an initial that misses bytes: the loop over the buffer.
unfoldable pub resume_initial : DecoderState → InitialDecode → InitialDecode × DecoderState
unfolding read_missing
resume_initial d i =
    let (v, missing, d') = read_missing i.missing_extra_length i.value d in
    (record i { value = v; missing_extra_length = missing }, d')

-- The same functions on a new initial, whose first byte is `b` and stands before the index of `d`.
unfoldable pub start_initial : ℕ → DecoderState → InitialDecode → InitialDecode × DecoderState
unfolding read_extra_value
start_initial b d i =
    let e = read_extra_value d (b % 8) in
    if leb single_byte_threshold (b % 32)
    then (
      record {
        value = e.val;
        type = shr b 5;
        missing_extra_length = e.missing_extra_length;
        extra_length = e.extra_length;
      },
      e.state,
    )
    else (record i { type = shr b 5; value = b % 32 }, d)

unfoldable pub decode_initial : DecoderState → InitialDecode → Result (InitialDecode × DecoderState)
decode_initial d i =
    if ltb 0 i.missing_extra_length
    then ok (resume_initial d i)
    else if at_end d
    then panic
    else ok (start_initial (current d) (advance d) i)

-- `i.ExtraLength+1 != MeasureExtraValue(i.Value, Single_byte_threshold)`
unfoldable pub measured_code : InitialDecode → ℕ
unfolding measure_extra_value
measured_code i =
    if i.extra_length + 1 == measure_extra_value i.value single_byte_threshold
    then Code.done
    else Code.non_canonical_initial_decode

-- The code for an initial that `start_initial` made of the byte `b`.
unfoldable pub started_code : ℕ → InitialDecode → ℕ
unfolding measured_code
started_code b i =
    if ltb (b % 32) single_byte_threshold
    then Code.done
    else if ltb 0 i.missing_extra_length
    then Code.continue
    else measured_code i

unfoldable pub check_canonical :
    DecoderState → InitialDecode → Result (ℕ × InitialDecode × DecoderState)
check_canonical d i =
    if ltb 0 i.missing_extra_length
    then (let (i', d') = resume_initial d i in ok (measured_code i', i', d'))
    else if at_end d
    then panic
    else (let (i', d') = start_initial (current d) (advance d) i in
        ok (started_code (current d) i', i', d'))

-- The bytes read, at most `c`, and the state after them. The index is at most the length.
unfoldable pub read_slice : DecoderState → ℕ → Bytes × DecoderState
read_slice r c =
    if ltb (to_u32 (length r.bytes - r.index)) c
    then (drop r.index r.bytes, record r { index = length r.bytes })
    else (take c (drop r.index r.bytes), record r { index = r.index + c })

-- The three results of `Decode`.
pub record Decoded : Type 0 where
  pub initial : InitialDecode
  pub parse_bytes : Slice
  pub error : Option GoError

-- The rest of `Decode`, behind `DecodeInitial`.
unfoldable pub decode_slice : InitialDecode → DecoderState → Decoded × DecoderState
decode_slice v d =
    if not (v.missing_extra_length == 0)
    then (record { initial = v; parse_bytes = none; error = some incomplete_stream }, d)
    else if type_has_slice v
    then (let (b, d') = read_slice d v.value in
        if ltb (to_u32 (length b)) v.value
        then (record { initial = v; parse_bytes = none; error = some incomplete_stream }, d')
        else (record { initial = record v { value = 0 }; parse_bytes = some b; error = none }, d'))
    else (record { initial = v; parse_bytes = none; error = none }, d)

unfoldable pub decode : DecoderState → Result (Decoded × DecoderState)
decode d =
    if at_end d
    then ok
        (record { initial = zero_initial; parse_bytes = none; error = some incomplete_stream }, d)
    else (decode_initial d zero_initial >>= λ r. ok (decode_slice r.0 r.1))

-- The results of `DecodeSequence`: on an error the values read before it are returned too.
pub record DecodedSequence : Type 0 where
  pub seq : List DbufVal
  pub error : Option GoError
  pub state : DecoderState

-- One round of the loop, on what `Decode` gave; `rest` is the rest of the loop.
abbrev pub decode_round :
    Decoded × DecoderState
    → List DbufVal
    → (List DbufVal → DecoderState → Result DecodedSequence)
    → Result DecodedSequence
decode_round (r, d) seq rest = elim r.error [
  | some e ↦ ok (record { seq = seq; error = some e; state = d })
  | none ↦ rest (seq ++ get_dbuf_val r.initial r.parse_bytes ∷ []) d
]

unfoldable pub decode_loop : ℕ → List DbufVal → DecoderState → Result DecodedSequence
decode_loop zero seq d =
    if ltb d.index (length d.bytes)
    then stuck
    else ok (record { seq = seq; error = none; state = d })
decode_loop (suc fuel) seq d =
    let more = decode d >>= λ r. decode_round r seq (decode_loop fuel) in
    if ltb d.index (length d.bytes)
    then more
    else ok (record { seq = seq; error = none; state = d })

-- Each round advances the index, so a round for each byte left is enough.
unfoldable pub decode_sequence : DecoderState → Result DecodedSequence
decode_sequence d = decode_loop (length d.bytes - d.index) [] d
