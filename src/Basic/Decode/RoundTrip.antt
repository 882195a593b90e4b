-- ===== src/Basic/Decode/RoundTrip.antt =====
-- The decoder reads back what the encoder wrote.
use dbuf_demo_go.Common.{ℕ, ◌-◌, ◌<◌, ◌≡◌, refl, ap, ◌∙◌, sym, inl, inr}
use dbuf_demo_go.Common.{
  [], ◌∷◌, ◌++◌, Bytes, arith, length, length-append, append_assoc, false, true,
}
use dbuf_demo_go.Common.{IsU32, ltb, le→ltb}
use dbuf_demo_go.Common.{none, some, drop-append, take-append, append-nil, to_u32}
use dbuf_demo_go.Basic.Val.{zero_initial, DbufVal, DbufValSeq, leaf, nest}
use dbuf_demo_go.Basic.Val.{Slice, get_dbuf_val}
use dbuf_demo_go.Basic.Wire.{header, wire, wire_items, IsWellFormed, IsLeaf}
use dbuf_demo_go.Basic.Wire.{has_slice, IsTypedLeaf, IsTyped, received}
use dbuf_demo_go.Basic.Error.{ok}
use dbuf_demo_go.Basic.Decode.{at_end, DecoderState, Decoded, decode_initial, decode_slice}
use dbuf_demo_go.Basic.Decode.{read_slice, decode}
use dbuf_demo_go.Basic.Decode.Read.{reader, reader_more, reader-current, reader-advance}
use dbuf_demo_go.Basic.Decode.Header.{
  initial_of, header_byte, header_rest, header_parts, start_header,
}

-- `DecodeInitial` reads a whole header back.
pub decode_initial-header :
    (t n : ℕ) (front rest : Bytes)
    → t < 8
    → IsU32 n
    → decode_initial (reader front (header t n ++ rest)) zero_initial
      ≡ ok (initial_of t n, reader (front ++ header t n) rest)
unfolding decode_initial
decode_initial-header t n front rest ht hn =
    let b = header_byte t n in
    let more = header_rest n in
    rw
      (
        header_parts t n,
        reader_more front b (more ++ rest),
        reader-current front b (more ++ rest),
        reader-advance front b (more ++ rest),
      )
      (ap ok (start_header t n (front ++ b ∷ []) rest zero_initial ht hn refl refl)
        ∙ ap (λ f. ok (initial_of t n, reader f rest)) (append_assoc front (b ∷ []) more))

pub read_slice_all :
    (front b rest : Bytes)
    → IsU32 (length (b ++ rest))
    → read_slice (reader front (b ++ rest)) (length b) ≡ (b, reader (front ++ b) rest)
unfolding read_slice
read_slice_all front b rest h =
    rw (enough, drop-append front (b ++ rest), take-append b rest)
      (λ i. (
        b,
        record { bytes = sym (append_assoc front b rest) i; index = sym (length-append front b) i },
      ))
  where
    enough : ltb (to_u32 (length (front ++ (b ++ rest)) - length front)) (length b) ≡ false
    enough = le→ltb _ _ (omega (arith, length-append front (b ++ rest), length-append b rest))

-- What `Decode` returns for a value with a slice, and for a number.
abbrev sliced : ℕ → Bytes → Decoded
sliced t b = record {
  initial = record (initial_of t (length b)) { value = 0 };
  parse_bytes = some b;
  error = none;
}

abbrev numbered : ℕ → ℕ → Decoded
numbered t n = record { initial = initial_of t n; parse_bytes = none; error = none }

decode_slice_all :
    (t : ℕ) (front b rest : Bytes)
    → has_slice t ≡ true
    → IsU32 (length (b ++ rest))
    → decode_slice (initial_of t (length b)) (reader front (b ++ rest))
      ≡ (sliced t b, reader (front ++ b) rest)
unfolding decode_slice
decode_slice_all t front b rest ht h =
    rw (ht, read_slice_all front b rest h)
      (rw (le→ltb (to_u32 (length b)) (length b) (omega (arith, length-append b rest))) refl)

header_not_empty :
    (t n : ℕ) (front rest : Bytes) → at_end (reader front (header t n ++ rest)) ≡ false
header_not_empty t n front rest =
    rw (header_parts t n) (reader_more front (header_byte t n) (header_rest n ++ rest))

-- A value whose header has the type `t` and the length of the slice `b`.
decode-sliced :
    (t : ℕ) (front b rest : Bytes)
    → t < 8
    → has_slice t ≡ true
    → IsU32 (length (b ++ rest))
    → decode (reader front ((header t (length b) ++ b) ++ rest))
      ≡ ok (sliced t b, reader (front ++ (header t (length b) ++ b)) rest)
unfolding decode
decode-sliced t front b rest ht hs h =
    rw (append_assoc (header t (length b)) b rest, ← append_assoc front (header t (length b)) b)
      (rw
        (
          header_not_empty t (length b) front (b ++ rest),
          decode_initial-header t (length b) front (b ++ rest) ht
              (omega (arith, length-append b rest)),
        )
        (ap ok (decode_slice_all t (front ++ header t (length b)) b rest hs h)))

decode_number :
    (t n : ℕ) (front rest : Bytes)
    → t < 8
    → IsU32 n
    → has_slice t ≡ false
    → decode (reader front (header t n ++ rest))
      ≡ ok (numbered t n, reader (front ++ header t n) rest)
unfolding decode decode_slice
decode_number t n front rest ht hn hs =
    rw (header_not_empty t n front rest, decode_initial-header t n front rest ht hn, hs) refl

-- `Decode` succeeds on the state `d`, gives the value `v` and ends in the state `d'`.
abbrev pub Decodes : DecoderState → DbufVal → DecoderState → Type 0
Decodes d v d' =
    (r : Decoded) × (decode d ≡ ok (r, d'))
    × (r.error ≡ none)
    × (get_dbuf_val r.initial r.parse_bytes ≡ v)

abbrev val_of : ℕ → ℕ → Slice → DbufVal
val_of n t s = record { value = n; type = t; slice = s }

tail_IsU32 : (xs ys zs : Bytes) → IsU32 (length ((xs ++ ys) ++ zs)) → IsU32 (length (ys ++ zs))
tail_IsU32 xs ys zs h =
    omega (arith, length-append (xs ++ ys) zs, length-append xs ys, length-append ys zs)

decode_leaf :
    (n t : ℕ) (s : Slice) (front rest : Bytes)
    → IsLeaf (val_of n t s)
    → IsTypedLeaf (val_of n t s)
    → IsU32 (length (wire (leaf (val_of n t s)) ++ rest))
    → Decodes
        (reader front (wire (leaf (val_of n t s)) ++ rest))
        (received (leaf (val_of n t s)))
        (reader (front ++ wire (leaf (val_of n t s))) rest)
unfolding wire received get_dbuf_val
decode_leaf n t none front rest h (inl (e, z)) k = (
  sliced t [],
  rw z (decode-sliced t front [] rest h.0 e (tail_IsU32 (header t n) [] rest k)),
  refl,
  rw e refl,
)
decode_leaf n t none front rest h (inr (e, z)) k =
    (numbered t n, rw append-nil (decode_number t n front rest h.0 h.1 e), refl, rw e refl)
decode_leaf n t (some b) front rest h (inl (e, z)) k = (
  sliced t b,
  decode-sliced t front b rest h.0 e (tail_IsU32 (header t (length b)) b rest k),
  refl,
  rw e refl,
)
decode_leaf n t (some b) front rest h (inr (e, z)) k = cc

-- `Decode` reads the wire format of a value from the front of what is left in the buffer, and leaves
-- the rest.
pub decode-wire :
    (v : DbufValSeq) (front rest : Bytes)
    → IsWellFormed v
    → IsTyped v
    → IsU32 (length (wire v ++ rest))
    → Decodes (reader front (wire v ++ rest)) (received v) (reader (front ++ wire v) rest)
unfolding wire IsWellFormed received get_dbuf_val
decode-wire (leaf v) front rest h t k = decode_leaf v.value v.type v.slice front rest h t k
decode-wire (nest v seq) front rest h t k =
    let b = wire_items seq in
    (
      sliced v.type b,
      decode-sliced v.type front b rest h.0 t (tail_IsU32 (header v.type (length b)) b rest k),
      refl,
      refl,
    )
