-- ===== src/Basic/Decode/Bounds.antt =====
-- On every buffer, well formed or not: the decoder reads no byte out of bounds, goes on with each
-- value, and so comes to an end.
use dbuf_demo_go.Common.{ℕ, zero, suc, ◌+◌, ◌-◌, ◌%◌, ◌≤◌, ◌<◌, ◌≡◌, refl, ap, ◌∙◌, inl, inr}
use dbuf_demo_go.Common.{[], arith, length, Bool-cases, ltb}
use dbuf_demo_go.Common.{IsU32, le→ltb, ltb→lt, lt→leb, none, List, Option-cases}
use dbuf_demo_go.Basic.Val.{DbufVal, InitialDecode, zero_initial}
use dbuf_demo_go.Basic.Error.{ok}
use dbuf_demo_go.Basic.Decode.{DecoderState, Decoded, DecodedSequence, advance}
use dbuf_demo_go.Basic.Decode.{
  current, read_missing, read_extra_value, start_initial, decode_initial,
}
use dbuf_demo_go.Basic.Decode.{
  check_canonical, resume_initial, shift_in, read_slice, decode_slice, decode, decode_loop,
}
use dbuf_demo_go.Basic.Decode.{decode_sequence, decode_round}

-- `d'` is a later state over the same buffer, in bounds.
pub record Follows (d d' : DecoderState) : Type 0 where
  pub same : d'.bytes ≡ d.bytes
  pub onward : d.index ≤ d'.index
  pub inside : d'.index ≤ length d.bytes

read_missing-Follows :
    (m v : ℕ) (d : DecoderState) → d.index ≤ length d.bytes → Follows d (read_missing m v d).2
unfolding read_missing
read_missing-Follows zero v d h = ground arith
read_missing-Follows (suc m) v d h =
    ground (arith, read_missing-Follows m (shift_in v (current d)) (advance d))

start_initial-Follows :
    (b : ℕ) (d : DecoderState) (i : InitialDecode)
    → d.index ≤ length d.bytes
    → Follows d (start_initial b d i).1
unfolding start_initial read_extra_value
start_initial-Follows b d i h = ground (
  arith,
  read_missing-Follows 1 (b % 8 % 4) d h,
  read_missing-Follows 2 (b % 8 % 2) d h,
  read_missing-Follows 3 0 d h,
  read_missing-Follows 4 0 d h,
)

read_slice-Follows :
    (d : DecoderState) (c : ℕ) → d.index ≤ length d.bytes → Follows d (read_slice d c).1
unfolding read_slice
read_slice-Follows d c h = ground arith

decode_slice-Follows :
    (v : InitialDecode) (d : DecoderState)
    → d.index ≤ length d.bytes
    → Follows d (decode_slice v d).1
unfolding decode_slice
decode_slice-Follows v d h = ground (arith, read_slice-Follows d v.value h)

-- Before the end of the buffer `Decode` returns with no panic, and at least one byte further.
pub decode_onward :
    (d : DecoderState)
    → d.index < length d.bytes
    → (r : Decoded) × (d' : DecoderState) × (decode d ≡ ok (r, d')) × Follows (advance d) d'
unfolding decode decode_initial
decode_onward d h =
    let i = start_initial (current d) (advance d) zero_initial in
    let h' : d.index + 1 ≤ length d.bytes = omega arith in
    let first = start_initial-Follows (current d) (advance d) zero_initial h' in
    let second = decode_slice-Follows i.0 i.1 (omega (arith, first, ap length first.same)) in
    let r = decode_slice i.0 i.1 in (r.0, r.1, rw (lt→leb _ _ h) refl, joined first second)
  where
    joined : {a b c : DecoderState} → Follows a b → Follows b c → Follows a c
    joined f g = record {
      same = g.same ∙ f.same;
      onward = omega (arith, f.onward, g.onward);
      inside = omega (arith, g.inside, ap length f.same);
    }

decode_round_returns :
    (fuel : ℕ) (r : Decoded) (d : DecoderState) (seq : List DbufVal)
    → ((acc : List DbufVal) → (s : DecodedSequence) × (decode_loop fuel acc d ≡ ok s))
    → (s : DecodedSequence) × (decode_round (r, d) seq (decode_loop fuel) ≡ ok s)
decode_round_returns fuel r d seq ih = elim (Option-cases r.error) [
  | inl e ↦ rw e (ih _)
  | inr (x, e) ↦ rw e (_, refl)
]

decode_loop_returns :
    (fuel : ℕ) (seq : List DbufVal) (d : DecoderState)
    → length d.bytes - d.index ≤ fuel
    → (s : DecodedSequence) × (decode_loop fuel seq d ≡ ok s)
unfolding decode_loop
decode_loop_returns zero seq d h = (
  record { seq = seq; error = none; state = d },
  rw (le→ltb d.index (length d.bytes) (omega arith)) refl,
)
decode_loop_returns (suc fuel) seq d h = elim (Bool-cases (ltb d.index (length d.bytes))) [
  | inr done ↦ (record { seq = seq; error = none; state = d }, rw done refl)
  | inl more ↦
      let (r, d', e, f) = decode_onward d (ltb→lt _ _ more) in
      rw (more, e)
        (decode_round_returns fuel r d' seq
          (λ acc. decode_loop_returns fuel acc d' (omega (arith, f.onward, ap length f.same))))
]

-- `DecodeSequence` returns on every buffer: no read is out of bounds, and the loop ends.
pub decode_sequence_returns :
    (d : DecoderState) → (s : DecodedSequence) × (decode_sequence d ≡ ok s)
unfolding decode_sequence
decode_sequence_returns d = decode_loop_returns (length d.bytes - d.index) [] d (omega arith)

pub read_missing-IsU32 : (m v : ℕ) (d : DecoderState) → IsU32 v → IsU32 (read_missing m v d).0
unfolding read_missing
read_missing-IsU32 zero v d h = h
read_missing-IsU32 (suc m) v d h =
    ground (arith, read_missing-IsU32 m (shift_in v (current d)) (advance d))

start_initial-IsU32 :
    (b : ℕ) (d : DecoderState) (i : InitialDecode) → IsU32 (start_initial b d i).0.value
unfolding start_initial read_extra_value
start_initial-IsU32 b d i = ground (
  arith,
  read_missing-IsU32 1 (b % 8 % 4) d,
  read_missing-IsU32 2 (b % 8 % 2) d,
  read_missing-IsU32 3 0 d,
  read_missing-IsU32 4 0 d,
)

resume_onward :
    (d : DecoderState) (i : InitialDecode)
    → d.index < length d.bytes
    → 0 < i.missing_extra_length
    → Follows (advance d) (resume_initial d i).1
unfolding resume_initial
resume_onward d i h k = missing (i.missing_extra_length) k
  where
    missing : (m : ℕ) → 0 < m → Follows (advance d) (read_missing m i.value d).2
    missing zero k = absurd (omega arith)
    missing (suc m) k =
        unfold read_missing in
        rw (lt→leb _ _ h)
          (read_missing-Follows m (shift_in i.value (current d)) (advance d) (omega arith))

-- Before the end of the buffer `CheckCanonical` returns with no panic, and at least one byte further.
pub check_canonical_onward :
    (d : DecoderState) (i : InitialDecode)
    → d.index < length d.bytes
    → IsU32 i.value
    → (code : ℕ) × (i' : InitialDecode) × (d' : DecoderState) × (check_canonical d i
        ≡ ok (code, i', d'))
      × Follows (advance d) d'
      × IsU32 i'.value
unfolding check_canonical
check_canonical_onward d i h v = elim (Bool-cases (ltb 0 i.missing_extra_length)) [
  | inl more ↦ rw more (
    _,
    _,
    _,
    refl,
    resume_onward d i h (ltb→lt _ _ more),
    unfold resume_initial in read_missing-IsU32 i.missing_extra_length i.value d v,
  )
  | inr whole ↦
      rw (whole, lt→leb _ _ h)
        (
          _,
          _,
          _,
          refl,
          start_initial-Follows (current d) (advance d) i (omega arith),
          start_initial-IsU32 (current d) (advance d) i,
        )
]
