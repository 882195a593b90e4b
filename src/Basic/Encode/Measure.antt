-- ===== src/Basic/Encode/Measure.antt =====
-- `MeasureValue` gives the length of the wire format.
use dbuf_demo_go.Common.{ℕ, ◌+◌, ◌^◌, ◌≤◌, ◌<◌, ◌≡◌, refl, ap, true, false, some, none}
use dbuf_demo_go.Common.{append-nil, to_u64, arith, length, length-append}
use dbuf_demo_go.Basic.Const.{single_byte_threshold, max_u32}
use dbuf_demo_go.Basic.Val.{DbufVal, DbufValSeq, leaf, nest, Sequence, no_items, item, Slice}
use dbuf_demo_go.Basic.Error.{ok}
use dbuf_demo_go.Basic.Wire.{header, wire, wire_items, IsWellFormed, ItemsAreWellFormed, IsLeaf}
use dbuf_demo_go.Basic.Encode.{measure_extra_value, measure, measure_leaf, measure_nested}
use dbuf_demo_go.Basic.Encode.{measure_value, measure_sequence}

pub length-header : (t n : ℕ) → length (header t n) ≡ measure_extra_value n single_byte_threshold
unfolding header measure_extra_value
length-header t n = ground arith

pub length-header_bounds : (t n : ℕ) → (1 ≤ length (header t n)) × (length (header t n) ≤ 5)
unfolding header
length-header_bounds t n = ground arith

measure_string :
    (t n : ℕ) → n ≤ max_u32 → measure n single_byte_threshold true ≡ length (header t n) + n
unfolding measure
measure_string t n h = omega (arith, length-header t n, length-header_bounds t n)

abbrev val_of : ℕ → ℕ → Slice → DbufVal
val_of n t s = record { value = n; type = t; slice = s }

slice_measure :
    (n t : ℕ) (s : Slice)
    → IsLeaf (val_of n t s)
    → measure_leaf (val_of n t s) ≡ ok (length (wire (leaf (val_of n t s))))
unfolding measure_leaf wire
slice_measure n t none h = rw (append-nil, length-header) (unfold measure in refl)
slice_measure n t (some b) h =
    let small : length b ≤ max_u32 = h.2.1 in
    ground (arith, measure_string t (length b) small, length-append (header t (length b)) b)

-- A value without items is measured as long as its format.
pub measure_leaf-wire : (v : DbufVal) → IsLeaf v → measure_leaf v ≡ ok (length (wire (leaf v)))
measure_leaf-wire v h = slice_measure v.value v.type v.slice h

pub measure_nested-header :
    (t l : ℕ) → l ≤ max_u32 → measure_nested true l ≡ ok (length (header t l) + l)
unfolding measure_nested
measure_nested-header t l h = ground (arith, measure_string t l h)

mutual
  unfolding measure_value wire IsWellFormed

  wire_measure : (v : DbufValSeq) → IsWellFormed v → measure_value v true ≡ ok (length (wire v))
  wire_measure (leaf v) h = measure_leaf-wire v h
  wire_measure (nest v seq) h =
      rw (items_measure seq 0 (length (wire_items seq)) h.3 (omega arith) (omega (arith, h.2)))
        (rw length-append (measure_nested-header v.type (length (wire_items seq)) h.2))

  items_measure :
      (seq : Sequence) (l r : ℕ)
      → ItemsAreWellFormed seq
      → l + length (wire_items seq) ≡ r
      → r < 2 ^ 64
      → measure_sequence seq l ≡ ok r
  items_measure no_items l r h e k = ap ok (omega arith)
  items_measure (item v seq) l r h e k = rw (wire_measure v h.0) (
      items_measure seq (to_u64 (l + length (wire v))) r h.1
        (omega (arith, length-append (wire v) (wire_items seq))) k)

-- `MeasureValue` of a nested value is the length of its format.
pub measure_value-wire :
    (v : DbufValSeq) → IsWellFormed v → measure_value v true ≡ ok (length (wire v))
measure_value-wire v h = wire_measure v h

-- `MeasureValue` of a sequence that is not nested is the length of its items.
pub measure_value-wire_items :
    (v : DbufVal) (seq : Sequence)
    → ItemsAreWellFormed seq
    → length (wire_items seq) < 2 ^ 64
    → measure_value (nest v seq) false ≡ ok (length (wire_items seq))
unfolding measure_value
measure_value-wire_items v seq h k =
    rw (items_measure seq 0 (length (wire_items seq)) h (omega arith) k) refl
