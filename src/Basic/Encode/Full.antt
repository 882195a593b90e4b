-- ===== src/Basic/Encode/Full.antt =====
-- The encoder writes the wire format.
use dbuf_demo_go.Common.{ℕ, ◌+◌, ◌^◌, ◌≤◌, ◌<◌, ◌≡◌, refl, ap, ◌∙◌, sym, some, none}
use dbuf_demo_go.Common.{
  append-nil, Bool-cases, ltb, ltb→le, to_byte, [], ◌∷◌, ◌++◌, Bytes, arith, length, length-append,
  append_assoc,
}
use dbuf_demo_go.Common.{IsU32, length-replicate, set-append, replicate, inl, inr}
use dbuf_demo_go.Basic.Const.{max_u32}
use dbuf_demo_go.Basic.Val.{DbufVal, DbufValSeq, leaf, nest, Sequence, no_items, item, Slice}
use dbuf_demo_go.Basic.Error.{Result, ok, err, panic, stuck, ◌>>=◌}
use dbuf_demo_go.Basic.Wire.{header, wire, wire_items, IsWellFormed, ItemsAreWellFormed, IsLeaf}
use dbuf_demo_go.Basic.Wire.{leaf_number}
use dbuf_demo_go.Basic.Encode.{EncoderState, copy, write_bytes}
use dbuf_demo_go.Basic.Encode.{leaf_parse_value, sequence_parse_value, encode_seq, encode_items}
use dbuf_demo_go.Basic.Encode.{encode_full_seq, make_state, encode_sequence}
use dbuf_demo_go.Basic.Encode.Write.{write_bytes-append, write_initial-header, length-copy}
use dbuf_demo_go.Basic.Encode.Measure.{measure_value-wire, measure_value-wire_items}

small_byte : (t : ℕ) → t < 8 → to_byte t ≡ t
small_byte t h = omega arith

abbrev val_of : ℕ → ℕ → Slice → DbufVal
val_of n t s = record { value = n; type = t; slice = s }

-- An empty slice leaves the value's number, which is 0.
slice_parse_value :
    (n t : ℕ) (s : Slice)
    → IsLeaf (val_of n t s)
    → leaf_parse_value (val_of n t s) ≡ ok (leaf_number (val_of n t s))
unfolding leaf_parse_value
slice_parse_value n t none h = refl
slice_parse_value n t (some b) h = let zero_number = h.2.0 in let small = h.2.1 in ground arith

leaf_number-IsU32 :
    (n t : ℕ) (s : Slice) → IsLeaf (val_of n t s) → IsU32 (leaf_number (val_of n t s))
leaf_number-IsU32 n t none h = h.1
leaf_number-IsU32 n t (some b) h = omega (arith, h.2.1)

-- The index has not passed the end of the buffer.
abbrev pub IsInBounds : EncoderState → Type 0
IsInBounds d = d.index ≤ length d.bytes

pub write_empty : (d : EncoderState) → IsInBounds d → write_bytes d [] ≡ ok d
unfolding write_bytes
write_empty d h = ground arith

>>=-ok {ℓ} : {A : Type ℓ} (r : Result A) → (r >>= ok) ≡ r
>>=-ok (ok a) = refl
>>=-ok (err e) = refl
>>=-ok panic = refl
>>=-ok stuck = refl

-- What follows a write may rely on an index in bounds.
after_write :
    (d : EncoderState) (xs : Bytes) (f g : EncoderState → Result EncoderState)
    → ((d' : EncoderState) → IsInBounds d' → f d' ≡ g d')
    → (write_bytes d xs >>= f) ≡ (write_bytes d xs >>= g)
unfolding write_bytes
after_write d xs f g h = elim (Bool-cases (ltb (length d.bytes) (d.index + length xs))) [
  | inl full ↦ rw full
  | inr fits ↦ rw fits (h _ (rw (length-copy d.bytes d.index xs) (ltb→le _ _ fits)))
]

slice_encode :
    (d : EncoderState) (n t : ℕ) (s : Slice)
    → IsLeaf (val_of n t s)
    → encode_seq d (leaf (val_of n t s)) ≡ write_bytes d (wire (leaf (val_of n t s)))
unfolding encode_seq wire
slice_encode d n t none h =
    rw (small_byte t h.0, write_initial-header d t n h.0 h.1, append-nil) (>>=-ok _)
slice_encode d n t (some b) h =
    rw (slice_parse_value n t (some b) h, small_byte t h.0)
      (rw (write_initial-header d t (length b) h.0 (omega (arith, h.2.1)))
        (sym (write_bytes-append d (header t (length b)) b)))

sequence_parse_value_small : (l : ℕ) → l ≤ max_u32 → sequence_parse_value l ≡ ok l
unfolding sequence_parse_value
sequence_parse_value_small l h = ground arith

no_slice : (v : DbufVal) → v.slice ≡ none → leaf_parse_value v ≡ ok v.value
unfolding leaf_parse_value
no_slice v e = rw e refl

mutual
  unfolding encode_seq wire IsWellFormed

  wire_encode :
      (d : EncoderState) (v : DbufValSeq) → IsWellFormed v → encode_seq d v ≡ write_bytes d (wire v)
  wire_encode d (leaf v) h = slice_encode d v.value v.type v.slice h
  wire_encode d (nest v seq) h =
      let l = length (wire_items seq) in
      rw
        (
          no_slice v h.1,
          measure_value-wire_items v seq h.3 (omega (arith, h.2)),
          sequence_parse_value_small l h.2,
          small_byte v.type h.0,
          h.1,
        )
        (rw (write_initial-header d v.type l h.0 (omega (arith, h.2))) (
          after_write d (header v.type l) _ _ (λ d' k. items_encode d' seq h.3 k)
          ∙ sym (write_bytes-append d (header v.type l) (wire_items seq))))

  items_encode :
      (d : EncoderState) (seq : Sequence)
      → ItemsAreWellFormed seq
      → IsInBounds d
      → encode_items d seq ≡ write_bytes d (wire_items seq)
  items_encode d no_items h k = sym (write_empty d k)
  items_encode d (item v seq) h k = rw (wire_encode d v h.0) (
      after_write d (wire v) _ _ (λ d' k'. items_encode d' seq h.1 k')
      ∙ sym (write_bytes-append d (wire v) (wire_items seq)))

-- Whatever the buffer, `EncodeSeq` of a well-formed value writes its wire format at the index, all of
-- it if it fits, and reports an incomplete stream otherwise.
pub encode_seq-wire :
    (d : EncoderState) (v : DbufValSeq) → IsWellFormed v → encode_seq d v ≡ write_bytes d (wire v)
encode_seq-wire d v h = wire_encode d v h

copy_over :
    (front room b : Bytes)
    → length room ≡ length b
    → copy (front ++ room) (length front) b ≡ front ++ b
copy_over front [] [] e = refl
copy_over front [] (x ∷ b) e = absurd (omega arith)
copy_over front (y ∷ room) [] e = absurd (omega arith)
copy_over front (y ∷ room) (x ∷ b) e =
    let end : length front + 1 ≡ length (front ++ x ∷ []) =
      omega (arith, length-append front (x ∷ [])) in
    rw (set-append front room y x, end)
      (ap (λ t. copy t (length (front ++ x ∷ [])) b) (sym (append_assoc front (x ∷ []) room))
        ∙ copy_over (front ++ x ∷ []) room b (omega (arith, e))
        ∙ append_assoc front (x ∷ []) b)

-- A buffer of the right size is filled by one write.
fill_buffer : (b : Bytes) → (write_bytes (make_state (length b)) b >>= λ es. ok es.bytes) ≡ ok b
unfolding write_bytes
fill_buffer b = ground (
  arith,
  length-replicate {A = ℕ} (length b) 0,
  copy_over [] (replicate (length b) 0) b (length-replicate (length b) 0),
)

-- `EncodeFullSeq` of a well-formed value succeeds, and gives the wire format of the value.
pub encode_full_seq-wire : (v : DbufValSeq) → IsWellFormed v → encode_full_seq v ≡ ok (wire v)
unfolding encode_full_seq
encode_full_seq-wire v h =
    rw (measure_value-wire v h, encode_seq-wire (make_state (length (wire v))) v h)
      (fill_buffer (wire v))

-- `EncodeSequence` of at least one argument, all well formed and together shorter than 2 ^ 64 bytes,
-- succeeds, and gives their wire formats one after the other.
pub encode_sequence-wire :
    (v : DbufValSeq) (seq : Sequence)
    → ItemsAreWellFormed (item v seq)
    → length (wire_items (item v seq)) < 2 ^ 64
    → encode_sequence (item v seq) ≡ ok (wire_items (item v seq))
unfolding encode_sequence
encode_sequence-wire v seq h k =
    rw
      (
        measure_value-wire_items _ (item v seq) h k,
        items_encode (make_state (length (wire_items (item v seq)))) (item v seq) h (omega arith),
      )
      (fill_buffer (wire_items (item v seq)))
