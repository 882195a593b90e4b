-- ===== src/Basic/Decode/Sequence.antt =====
-- `DecodeSequence`: it ends on every buffer, and reads back what `EncodeSequence` wrote.
use dbuf_demo_go.Common.{ℕ, zero, suc, ◌+◌, ◌-◌, ◌≤◌, ◌<◌, ◌≡◌, refl, ap, ◌∙◌, sym}
use dbuf_demo_go.Common.{[], ◌∷◌, ◌++◌, Bytes, arith, length, length-append, append_assoc}
use dbuf_demo_go.Common.{IsU32, lt→ltb, le→ltb, none, append-nil, List}
use dbuf_demo_go.Basic.Val.{
  contents, DbufVal, DbufValSeq, Sequence, no_items, item, get_dbuf_val, leaf, nest,
}
use dbuf_demo_go.Basic.Wire.{header, wire, wire_items, IsWellFormed, ItemsAreWellFormed}
use dbuf_demo_go.Basic.Wire.{ItemsAreTyped, received, received_items, leaf_number}
use dbuf_demo_go.Basic.Error.{Result, ok}
use dbuf_demo_go.Basic.Encode.Measure.{length-header_bounds}
use dbuf_demo_go.Basic.Decode.{DecoderState, Decoded, DecodedSequence, decode_loop}
use dbuf_demo_go.Basic.Decode.{decode_sequence, decode_round}
use dbuf_demo_go.Basic.Decode.Read.{reader}
use dbuf_demo_go.Basic.Decode.RoundTrip.{Decodes, decode-wire}

-- The outcome of a loop that has read `seq` and has come to the end of the buffer `bytes`.
abbrev pub read_whole : List DbufVal → Bytes → Result DecodedSequence
read_whole seq bytes = ok (record { seq = seq; error = none; state = reader bytes [] })

decode_loop_end :
    (fuel : ℕ) (seq : List DbufVal) (front : Bytes)
    → decode_loop fuel seq (reader front []) ≡ read_whole seq front
unfolding decode_loop
decode_loop_end zero seq front =
    rw (append-nil, le→ltb (length front) (length front) (omega arith)) refl
decode_loop_end (suc fuel) seq front =
    rw (append-nil, le→ltb (length front) (length front) (omega arith)) refl

decode_round_ok :
    (r : Decoded) (d : DecoderState) (v : DbufVal) (seq : List DbufVal)
    (rest : List DbufVal → DecoderState → Result DecodedSequence)
    → r.error ≡ none
    → get_dbuf_val r.initial r.parse_bytes ≡ v
    → decode_round (r, d) seq rest ≡ rest (seq ++ v ∷ []) d
decode_round_ok r d v seq rest e g = rw (e, g) refl

decode_loop_step :
    (fuel : ℕ) (seq : List DbufVal) (d d' : DecoderState) (v : DbufVal)
    → d.index < length d.bytes
    → Decodes d v d'
    → decode_loop (suc fuel) seq d ≡ decode_loop fuel (seq ++ v ∷ []) d'
unfolding decode_loop
decode_loop_step fuel seq d d' v h (r, e, no_error, g) =
    rw (lt→ltb _ _ h, e) (decode_round_ok r d' v seq (decode_loop fuel) no_error g)

length-wire_pos : (v : DbufValSeq) → 1 ≤ length (wire v)
unfolding wire
length-wire_pos (leaf v) = omega (
  arith,
  length-append (header v.type (leaf_number v)) (contents v.slice),
  length-header_bounds v.type (leaf_number v),
)
length-wire_pos (nest v seq) =
    let n = length (wire_items seq) in
    omega (arith, length-append (header v.type n) (wire_items seq), length-header_bounds v.type n)

decode_loop-wire :
    (seq : Sequence) (fuel : ℕ) (acc : List DbufVal) (front : Bytes)
    → ItemsAreWellFormed seq
    → ItemsAreTyped seq
    → IsU32 (length (wire_items seq))
    → length (wire_items seq) ≤ fuel
    → decode_loop fuel acc (reader front (wire_items seq))
      ≡ read_whole (acc ++ received_items seq) (front ++ wire_items seq)
unfolding wire received_items IsWellFormed
decode_loop-wire no_items fuel acc front h t k hf =
    decode_loop_end fuel acc front
    ∙ ap (λ a. read_whole a front) (sym (append-nil acc))
    ∙ ap (λ f. read_whole (acc ++ []) f) (sym (append-nil front))
decode_loop-wire (item v seq) zero acc front h t k hf =
    absurd (omega (arith, length-append (wire v) (wire_items seq), length-wire_pos v))
decode_loop-wire (item v seq) (suc fuel) acc front h t k hf =
    decode_loop_step fuel acc (reader front (wire v ++ wire_items seq))
      (reader (front ++ wire v) (wire_items seq)) (received v)
      (omega (arith, total, length-append front (wire v ++ wire_items seq), length-wire_pos v))
      (decode-wire v front (wire_items seq) h.0 t.0 k)
    ∙ decode_loop-wire seq fuel (acc ++ received v ∷ []) (front ++ wire v) h.1 t.1
        (omega (arith, total)) (omega (arith, total, length-wire_pos v))
    ∙ ap (λ a. read_whole a ((front ++ wire v) ++ wire_items seq))
        (append_assoc acc (received v ∷ []) (received_items seq))
    ∙ ap (λ f. read_whole (acc ++ received_items (item v seq)) f)
        (append_assoc front (wire v) (wire_items seq))
  where
    total : length (wire v ++ wire_items seq) ≡ length (wire v) + length (wire_items seq)
    total = length-append (wire v) (wire_items seq)

-- `DecodeSequence` reads a sequence of values back from their wire formats, each as its receiver has
-- it, with no error and no byte left, if they are well formed, have the types that fit them, and
-- take less than 2 ^ 32 bytes together.
pub decode_sequence-wire :
    (seq : Sequence)
    → ItemsAreWellFormed seq
    → ItemsAreTyped seq
    → IsU32 (length (wire_items seq))
    → decode_sequence (reader [] (wire_items seq))
      ≡ read_whole (received_items seq) (wire_items seq)
unfolding decode_sequence
decode_sequence-wire seq h t k =
    decode_loop-wire seq (length (wire_items seq) - 0) [] [] h t k (omega arith)
