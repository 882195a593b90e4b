-- ===== src/Protocol/Store/Merge.antt =====
-- protocol/header.go: the loops of `GetHeaderStoreProperties`, which puts the headers of a request
-- and the protected headers of an item together.
--
-- The decoded protected headers are slices of one buffer. `append(prefix.Slice, suffix.Slice...)`
-- writes the suffix into that buffer, behind the prefix, if the buffer has room for it, and so over
-- the headers that come after: they are read as they are then.
pub mod Plain
pub mod Views
use dbuf_demo_go.Common.{ℕ, zero, suc, ◌+◌, ◌-◌, Bool, true, false, ◌&&◌, not, if◌then◌else◌}
use dbuf_demo_go.Common.{ltb, leb, ◌==◌, List, [], ◌∷◌, ◌++◌, Bytes, Option, none, some, length}
use dbuf_demo_go.Common.{get_or}
use dbuf_demo_go.Common.Dict
use dbuf_demo_go.Basic.ParseType
use dbuf_demo_go.Basic.Val.{DbufVal, Slice, contents, get_dbuf_val, to_dbuf_val_string}
use dbuf_demo_go.Basic.Error.{Result, ok, err, panic, stuck, ◌>>=◌, GoError, data_error}
use dbuf_demo_go.Basic.Error.{data_key_not_accepted, data_type_not_accepted}
use dbuf_demo_go.Basic.Compare.{equal}
use dbuf_demo_go.Basic.Decode.{DecoderState, Decoded, decode}
use dbuf_demo_go.Basic.Keys.Equality.{key_eq}
use dbuf_demo_go.Protocol.Names
use dbuf_demo_go.Protocol.Stream.{part_error}
use dbuf_demo_go.Protocol.Body.{Headers, lookup}
use dbuf_demo_go.Protocol.Path.{reference_key}

-- A decoded value, and the place of its slice in the buffer.
pub record View : Type 0 where
  pub val : DbufVal
  pub start : ℕ

abbrev view_of : Decoded → DecoderState → View
view_of r d = record {
  val = get_dbuf_val r.initial r.parse_bytes;
  start = d.index - length (contents r.parse_bytes);
}

-- One round of the loop of `DecodeSequence`, which keeps the place of each value.
abbrev views_round :
    Decoded × DecoderState
    → List View
    → (List View → DecoderState → Result (List View × Option GoError))
    → Result (List View × Option GoError)
views_round (r, d) seq rest = elim r.error [
  | some e ↦ ok (seq, some e)
  | none ↦ rest (seq ++ view_of r d ∷ []) d
]

unfoldable pub views_loop : ℕ → List View → DecoderState → Result (List View × Option GoError)
views_loop zero seq d = if ltb d.index (length d.bytes) then stuck else ok (seq, none)
views_loop (suc fuel) seq d =
    let more = decode d >>= λ r. views_round r seq (views_loop fuel) in
    if ltb d.index (length d.bytes) then more else ok (seq, none)

-- `DecodeSequence` with the places of the values.
unfoldable pub decode_views : DecoderState → Result (List View × Option GoError)
unfolding views_loop
decode_views d = views_loop (length d.bytes - d.index) [] d

-- The bytes `b` from the place `p` on, after `s` has been written at the place `q`.
unfoldable pub written : ℕ → Bytes → ℕ → Bytes → Bytes
written p [] q s = []
written p (x ∷ b) q s =
    (if leb q p && ltb p (q + length s) then get_or s (p - q) 0 else x) ∷ written (suc p) b q s

-- The writes into the buffer so far, each with its place.
abbrev pub Writes : Type 0
Writes = List (ℕ × Bytes)

abbrev pub written_slice : ℕ → Slice → ℕ × Bytes → Slice
written_slice p none w = none
written_slice p (some b) (q, s) = some (written p b q s)

-- A value as the buffer has it after the writes.
abbrev pub current : Writes → View → DbufVal
current [] v = v.val
current (w ∷ writes) v =
    current writes
      (record v { val = record (v.val) { slice = written_slice v.start (v.val.slice) w } })

-- `append(prefix.Slice, suffix.Slice...)`: the result, and what it has written, if the buffer of the
-- length `room` holds it.
abbrev pub append_slice : Slice → Slice → Slice
append_slice none suffix = if length (contents suffix) == 0 then none else some (contents suffix)
append_slice (some p) suffix = some (p ++ contents suffix)

abbrev pub append_writes : ℕ → ℕ → Slice → Slice → Writes
append_writes room start none suffix = []
append_writes room start (some p) suffix =
    let end_place = start + length p in
    if leb (end_place + length (contents suffix)) room
    then (end_place, contents suffix) ∷ []
    else []

-- The headers of the request, and its last reference.
unfoldable pub request_headers :
    Headers → Option DbufVal → List DbufVal → Result (Headers × Option DbufVal)
request_headers m ref [] = ok (m, ref)
request_headers m ref (h ∷ []) = panic
request_headers m ref (h ∷ v ∷ details) =
    request_headers (Dict.put m (to_dbuf_val_string h) v)
      (if equal h reference_key then some v else ref) details

-- The error of a header that the request and the item both have.
abbrev pub header_error : DbufVal → GoError → GoError
header_error h e = part_error Names.header (data_error h e)

-- The reference of the item with that of the request behind it.
abbrev pub joined : DbufVal → DbufVal → DbufVal
joined prefix suffix = record {
  type = prefix.type;
  value = prefix.value;
  slice = append_slice prefix.slice suffix.slice;
}

-- The test `h.Equal(…) && refIndex != -1`, and the reference of the request.
abbrev pub reference_for : DbufVal → Option DbufVal → Option DbufVal
reference_for h ref = if equal h reference_key then ref else none

-- A protected header `h` with the last value missing: `loadVals[i+1]` is out of bounds.
abbrev pub merge_key : DbufVal → Option DbufVal → Option DbufVal → Result Headers
merge_key h (some suffix) existing = panic
merge_key h none (some v) = err (header_error h data_key_not_accepted)
merge_key h none none = panic

-- A protected header `h` with a value, by the reference to join it with and by the value that the
-- headers have for it so far.
abbrev pub merge_pair :
    DbufVal
    → (DbufVal → Result Headers)
    → Result Headers
    → Option DbufVal
    → Option DbufVal
    → Result Headers
merge_pair h join plain (some suffix) existing =
    if not (suffix.type == ParseType.array)
    then err (header_error h data_type_not_accepted)
    else join suffix
merge_pair h join plain none (some v) = err (header_error h data_key_not_accepted)
merge_pair h join plain none none = plain

module _ (room : ℕ) (ref : Option DbufVal) where
  -- The loop over the protected headers.
  unfoldable pub merge : Writes → List View → Headers → Result Headers
  merge writes [] m = ok m
  merge writes (hv ∷ []) m =
      let h = current writes hv in
      merge_key h (reference_for h ref) (lookup m (to_dbuf_val_string h))
  merge writes (hv ∷ vv ∷ views) m =
      let h = current writes hv in
      let v = current writes vv in
      merge_pair h
        (λ suffix.
          merge (writes ++ append_writes room vv.start v.slice suffix.slice) views
            (Dict.put m (to_dbuf_val_string h) (joined v suffix)))
        (merge writes views (Dict.put m (to_dbuf_val_string h) v)) (reference_for h ref)
        (lookup m (to_dbuf_val_string h))
