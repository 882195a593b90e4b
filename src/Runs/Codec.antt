-- ===== src/Runs/Codec.antt =====
-- The encoder and the decoder of the package basic.
use dbuf_demo_go.Common.{◌≡◌, refl, arith, [], ◌∷◌, ◌++◌, Bytes, length, true, some, inr}
use dbuf_demo_go.Basic.Val
use dbuf_demo_go.Basic.Val.{DbufVal, DbufValSeq, leaf, nest, Sequence, no_items, item, get_dbuf_val}
use dbuf_demo_go.Basic.Error.{ok, incomplete_stream}
use dbuf_demo_go.Basic.Wire.{header, wire, IsWellFormed, ItemsAreWellFormed, received}
use dbuf_demo_go.Basic.Wire.{received_items}
use dbuf_demo_go.Basic.Encode.{encode_seq, encode_full_seq, encode_sequence, write_bytes}
use dbuf_demo_go.Basic.Encode.{measure_value}
use dbuf_demo_go.Basic.Encode.Full.{encode_seq-wire}
use dbuf_demo_go.Basic.Encode.Measure.{measure_value-wire}
use dbuf_demo_go.Basic.Decode.{DecodedSequence, decode, decode_initial, decode_slice}
use dbuf_demo_go.Basic.Decode.{start_initial, read_slice, decode_loop, decode_sequence}
use dbuf_demo_go.Basic.Decode.Read.{reader}
use dbuf_demo_go.Basic.Decode.RoundTrip.{Decodes}
use dbuf_demo_go.Basic.Decode.Sequence.{read_whole}
use dbuf_demo_go.Basic.Decode.Bounds.{decode_sequence_returns}
use dbuf_demo_go.Basic.RoundTrip.{decode_sequence-encode_sequence, decode-encode_full_seq}

-- A map of a registry value to a text, and a number that takes three bytes.
abbrev pub message : DbufValSeq
message =
    nest Val.map (item (leaf (Val.registry 4)) (item (leaf (Val.text (104 ∷ 105 ∷ []))) no_items))

abbrev pub large : DbufValSeq
large = leaf (Val.uint 2000)

encode_message : encode_full_seq message ≡ ok (0xA4 ∷ 0xC4 ∷ 0x42 ∷ 104 ∷ 105 ∷ [])
unfolding encode_full_seq
encode_message = refl

encode_large : encode_full_seq large ≡ ok (0xFC ∷ 7 ∷ 208 ∷ [])
unfolding encode_full_seq
encode_large = refl

-- The tests TestMagicNumber and TestDecode of the repository.
magic_number :
    decode_initial (reader [] (0xDE ∷ 0xDE ∷ 0xDE ∷ 0xDE ∷ [])) Val.zero_initial
    ≡ ok (
      record { value = 14606046; type = 6; missing_extra_length = 0; extra_length = 3 },
      reader (0xDE ∷ 0xDE ∷ 0xDE ∷ 0xDE ∷ []) [],
    )
unfolding decode_initial start_initial
magic_number = refl

decode_incomplete :
    decode_sequence (reader [] (0x43 ∷ 97 ∷ 98 ∷ []))
    ≡ ok (record {
      seq = [];
      error = some incomplete_stream;
      state = reader (0x43 ∷ 97 ∷ 98 ∷ []) [];
    })
unfolding decode_sequence decode_loop decode decode_initial start_initial decode_slice read_slice
decode_incomplete = refl

message-IsWellFormed : IsWellFormed message
unfolding IsWellFormed header
message-IsWellFormed = (
  omega arith,
  refl,
  omega arith,
  (
    (omega arith, omega arith, tt),
    ((omega arith, omega arith, (refl, omega arith, omega arith)), tt),
  ),
)

both-AreWellFormed : ItemsAreWellFormed (item message (item large no_items))
unfolding IsWellFormed
both-AreWellFormed = (message-IsWellFormed, ((omega arith, omega arith, tt), tt))

decode_sequence-encode_sequence_example :
    (b : Bytes) × (encode_sequence (item message (item large no_items)) ≡ ok b)
    × (decode_sequence (reader [] b)
        ≡ read_whole (received_items (item message (item large no_items))) b)
unfolding header
decode_sequence-encode_sequence_example =
    decode_sequence-encode_sequence message (item large no_items) both-AreWellFormed
      (refl, (inr (refl, refl), tt)) (unfold wire in omega arith)

decode-encode_full_seq_example :
    (b : Bytes) × (encode_full_seq message ≡ ok b)
    × Decodes (reader (1 ∷ 2 ∷ []) b) (received message) (reader ((1 ∷ 2 ∷ []) ++ b) [])
unfolding header
decode-encode_full_seq_example =
    decode-encode_full_seq message (1 ∷ 2 ∷ []) message-IsWellFormed refl
      (unfold wire in omega arith)

encode_seq-wire_example :
    encode_seq (record { bytes = 0 ∷ 0 ∷ []; index = 1 }) message
    ≡ write_bytes (record { bytes = 0 ∷ 0 ∷ []; index = 1 }) (wire message)
encode_seq-wire_example =
    encode_seq-wire (record { bytes = 0 ∷ 0 ∷ []; index = 1 }) message message-IsWellFormed

measure_value-wire_example : measure_value message true ≡ ok (length (wire message))
measure_value-wire_example = measure_value-wire message message-IsWellFormed

decode_sequence_returns_example :
    (s : DecodedSequence) × (decode_sequence (reader [] (0x43 ∷ 97 ∷ [])) ≡ ok s)
decode_sequence_returns_example = decode_sequence_returns (reader [] (0x43 ∷ 97 ∷ []))
