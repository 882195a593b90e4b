-- ===== src/Basic/RoundTrip.antt =====
-- The encoder and the decoder together.
use dbuf_demo_go.Common.{
  ◌≡◌, arith, [], ◌++◌, Bytes, IsU32, length, append-nil, length-append, subst,
}
use dbuf_demo_go.Basic.Val.{DbufValSeq, Sequence, item}
use dbuf_demo_go.Basic.Error.{ok}
use dbuf_demo_go.Basic.Wire.{
  wire, wire_items, IsWellFormed, ItemsAreWellFormed, IsTyped, ItemsAreTyped,
}
use dbuf_demo_go.Basic.Wire.{received, received_items}
use dbuf_demo_go.Basic.Encode.{encode_full_seq, encode_sequence}
use dbuf_demo_go.Basic.Encode.Full.{encode_full_seq-wire, encode_sequence-wire}
use dbuf_demo_go.Basic.Decode.{decode_sequence}
use dbuf_demo_go.Basic.Decode.Read.{reader}
use dbuf_demo_go.Basic.Decode.RoundTrip.{Decodes, decode-wire}
use dbuf_demo_go.Basic.Decode.Sequence.{read_whole, decode_sequence-wire}

-- `EncodeSequence` of well-formed values of types that fit them, less than 2 ^ 32 bytes together,
-- succeeds, and `DecodeSequence` of the bytes gives these values back, each as its receiver has it,
-- with no error and no byte left.
pub decode_sequence-encode_sequence :
    (v : DbufValSeq) (seq : Sequence)
    → ItemsAreWellFormed (item v seq)
    → ItemsAreTyped (item v seq)
    → IsU32 (length (wire_items (item v seq)))
    → (b : Bytes) × (encode_sequence (item v seq) ≡ ok b)
      × (decode_sequence (reader [] b) ≡ read_whole (received_items (item v seq)) b)
decode_sequence-encode_sequence v seq h t k = (
  wire_items (item v seq),
  encode_sequence-wire v seq h (omega arith),
  decode_sequence-wire (item v seq) h t k,
)

-- `EncodeFullSeq` of a well-formed value of a type that fits it, less than 2 ^ 32 bytes, succeeds, and
-- `Decode` of the bytes, whatever stands before them in the buffer, gives the value back as its
-- receiver has it, with the index at the end.
pub decode-encode_full_seq :
    (v : DbufValSeq) (front : Bytes)
    → IsWellFormed v
    → IsTyped v
    → IsU32 (length (wire v))
    → (b : Bytes) × (encode_full_seq v ≡ ok b)
      × Decodes (reader front b) (received v) (reader (front ++ b) [])
decode-encode_full_seq v front h t k = (
  wire v,
  encode_full_seq-wire v h,
  subst (λ (x : Bytes). Decodes (reader front x) (received v) (reader (front ++ wire v) []))
      (append-nil (wire v))
      (decode-wire v front [] h t (omega (arith, length-append (wire v) [], k))),
)
