-- ===== src/Basic/Check.antt =====
-- basic/decode.go, `ReadState` and `CheckComplete`: the check of a stream that comes in buffers.
-- The stack and the counts of the map entries are lists with the top first, where the slices of the
-- program have it last.
pub mod Stack
pub mod Invariant
pub mod Enter
pub mod Leave
pub mod Complete
use dbuf_demo_go.Common.{ℕ, zero, suc, ◌+◌, ◌-◌, ◌*◌, ◌%◌, min, Bool, true, false, ◌&&◌, ◌||◌, not}
use dbuf_demo_go.Common.{
  if◌then◌else◌, ltb, leb, ◌==◌, List, [], ◌∷◌, ◌++◌, Bytes, Option, none, some,
}
use dbuf_demo_go.Common.{length, take, drop, to_u32, to_u64, sub_u32, sub_u64}
use dbuf_demo_go.Basic.ParseType
use dbuf_demo_go.Basic.Val.{InitialDecode, type_has_slice, type_has_nesting, is_end_marker}
use dbuf_demo_go.Basic.Error.{Result, ok, err, panic, stuck, ◌>>=◌}
use dbuf_demo_go.Basic.Decode.{DecoderState, at_end, check_canonical}
use dbuf_demo_go.Basic.Code

pub record ReadState : Type 0 where
  pub state : DecoderState
  pub previous_bytes_read : ℕ
  pub initial : InitialDecode

-- The number is an int64, which no stream is long enough to overflow.
abbrev pub total_bytes_read : ReadState → ℕ
total_bytes_read r = r.previous_bytes_read + r.state.index

abbrev pub set_buffer : ReadState → Bytes → ReadState
set_buffer r buf = record r {
  previous_bytes_read = r.previous_bytes_read + length r.state.bytes;
  state = record { bytes = buf; index = 0 };
}

pub record CheckCompleteState : Type 0 where
  pub read_state : ReadState
  pub stack : List InitialDecode
  pub map_counts : List ℕ
  pub total : ℕ
  pub use_length : Bool
  pub use_end_marker : Bool
  pub slice_mode : Bool

-- A code of the loop's `return`, or none if it goes on, and what it has made of the state.
pub record Consumed : Type 0 where
  pub code : Option ℕ
  pub stack : List InitialDecode
  pub map_counts : List ℕ

-- `s.MapCounts[len(s.MapCounts)-1]++`
unfoldable pub bump : List ℕ → Result (List ℕ)
bump [] = panic
bump (c ∷ counts) = ok (to_u32 (c + 1) ∷ counts)

-- The same, if the value at the top of the stack is a map.
unfoldable pub bump_parent : List InitialDecode → List ℕ → Result (List ℕ)
unfolding bump
bump_parent [] counts = ok counts
bump_parent (e ∷ stack) counts = if e.type == ParseType.map then bump counts else ok counts

-- What is left of the counts when a value of type `t` is complete, or none if it is a map with a key
-- and no value.
unfoldable pub close_map : List ℕ → Result (Option (List ℕ))
close_map [] = panic
close_map (c ∷ counts) = ok (if c % 2 == 1 then none else some counts)

unfoldable pub close_value : ℕ → List ℕ → Result (Option (List ℕ))
unfolding close_map
close_value t counts = if t == ParseType.map then close_map counts else ok (some counts)

-- The loops `for i := len(s.Stack) - 1; i >= 0; i--`, which take `advanced` bytes from every length
-- of the stack and drop what is complete. `above` are the values that the loop has passed and `below`
-- those to come; `has_slice` is the test of the first of the two loops, which the second lacks.
unfoldable pub consume :
    Bool → ℕ → List InitialDecode → List InitialDecode → List ℕ → Result Consumed
unfolding close_value bump_parent
consume has_slice advanced above [] counts =
    ok (record { code = none; stack = above; map_counts = counts })
consume has_slice advanced above (e ∷ below) counts =
    let e' = record e { value = sub_u32 e.value advanced } in
    let onward = consume has_slice advanced (above ++ e' ∷ []) below counts in
    let stop : ℕ → Result Consumed =
      λ code. ok (record { code = some code; stack = above ++ e' ∷ below; map_counts = counts }) in
    let closed = close_value e.type counts >>= λ left. elim left [
      | none ↦ stop Code.map_count_odd
      | some counts' ↦ bump_parent below counts' >>= consume has_slice advanced [] below
    ] in
    if e'.value == 0
    then (if has_slice then stop Code.nested_length_exceeded_top_of_stack_complete else closed)
    else onward

-- A round of the loop of `CheckComplete`: the code that it returns, or none to go on.
abbrev pub Round : Type 0
Round = Result (Option ℕ × CheckCompleteState)

abbrev return_code : ℕ → CheckCompleteState → Round
return_code code s = ok (some code, s)

-- `len(s.Stack) > 0 && s.Stack[len(s.Stack)-1].Value < n`
abbrev pub top_below : List InitialDecode → ℕ → Bool
top_below [] n = false
top_below (e ∷ stack) n = ltb e.value n

abbrev pub is_empty {ℓ} : {A : Type ℓ} → List A → Bool
is_empty [] = true
is_empty (x ∷ xs) = false

-- `s.UseLength && s.Length < uint64(advanced)`
abbrev pub exceeds : CheckCompleteState → ℕ → Bool
exceeds s advanced = s.use_length && ltb s.total advanced

-- A value without a slice counts for the map that it stands in, as soon as its initial is complete.
unfoldable pub count_item : InitialDecode → List InitialDecode → List ℕ → Result (List ℕ)
unfolding bump_parent
count_item ini stack counts =
    if (ini.missing_extra_length == 0) && not (type_has_slice ini)
    then bump_parent stack counts
    else ok counts

-- The end of a round outside slice mode, behind the loop over the stack.
unfoldable pub enter : InitialDecode → CheckCompleteState → Round
enter ini s =
    if ltb 0 ini.missing_extra_length
    then return_code Code.continue s
    else if type_has_slice ini
    then (if top_below s.stack ini.value
        then return_code Code.nested_length_exceeded_append_to_stack s
        else ok (
          none,
          record s {
            map_counts = if ini.type == ParseType.map then 0 ∷ s.map_counts else s.map_counts;
            stack = ini ∷ s.stack;
            slice_mode = not (type_has_nesting ini);
          },
        ))
    else if is_empty s.stack
        && ((s.use_end_marker && is_end_marker ini) || (s.use_length && (s.total == 0)))
    then return_code Code.done s
    else ok (none, s)

-- The state with what a loop over the stack has made of it, and the loop's code or the rest.
unfoldable pub consumed : CheckCompleteState → Consumed → (CheckCompleteState → Round) → Round
consumed s c rest =
    let s' = record s { stack = c.stack; map_counts = c.map_counts } in
    elim c.code [ some code ↦ return_code code s' | none ↦ rest s' ]

-- A round outside slice mode, behind `CheckCanonical`, which has read `advanced` bytes.
unfoldable pub initial_round : ℕ → CheckCompleteState → Round
initial_round advanced s =
    let ini = s.read_state.initial in
    let s' = record s { total = sub_u64 s.total advanced } in
    if exceeds s advanced
    then return_code Code.total_length_exceeded_initial_decode s
    else if top_below s.stack advanced
    then return_code Code.nested_length_exceeded_initial_decode s'
    else (do
      counts ← count_item ini s.stack s.map_counts
      c ← consume (type_has_slice ini) advanced [] s.stack counts
      consumed s' c (enter ini))

unfoldable pub read_initial : CheckCompleteState → Round
read_initial s =
    let d = s.read_state.state in
    let after = check_canonical d s.read_state.initial >>= λ r.
    let s' = record s { read_state = record (s.read_state) { initial = r.1; state = r.2 } } in
    if ltb Code.continue r.0
    then return_code r.0 s'
    else initial_round (to_u32 (r.2.index - d.index)) s' in
    if at_end d then return_code Code.continue s else after

-- `s.ReadState.State.Data[i] >= 248` for one of the bytes.
unfoldable pub has_invalid_utf8 : Bytes → Bool
has_invalid_utf8 [] = false
has_invalid_utf8 (b ∷ bs) = leb 248 b || has_invalid_utf8 bs

-- The end of a round in slice mode, behind the loop over the stack.
unfoldable pub leave : Bool → CheckCompleteState → Round
leave is_cut s =
    if is_empty s.stack && (s.use_length && (s.total == 0))
    then return_code Code.done s
    else if is_cut
    then return_code Code.continue s
    else ok (none, record s { slice_mode = false })

-- A round in slice mode with `top` at the top of the stack, after the bytes of its slice.
unfoldable pub slice_round : ℕ → Bool → CheckCompleteState → Round
slice_round advanced is_cut s =
    if exceeds s advanced
    then return_code Code.total_length_exceeded_slice s
    else (consume false advanced [] s.stack s.map_counts >>= λ c.
        consumed (record s { total = sub_u64 s.total advanced }) c (leave is_cut))

unfoldable pub read_slice_of : InitialDecode → CheckCompleteState → Round
read_slice_of top s =
    let d = s.read_state.state in
    let remaining = to_u32 (length d.bytes - d.index) in
    let advanced = min top.value remaining in
    let s' = record s {
      read_state = record (s.read_state) { state = record d { index = d.index + advanced } };
    } in
    if (top.type == ParseType.text) && has_invalid_utf8 (take advanced (drop d.index d.bytes))
    then return_code Code.invalid_utf8 s
    else slice_round advanced (ltb remaining top.value) s'

unfoldable pub read_top : List InitialDecode → CheckCompleteState → Round
read_top [] s = panic
read_top (top ∷ stack) s = read_slice_of top s

unfoldable pub round : CheckCompleteState → Round
round s = if s.slice_mode then read_top s.stack s else read_initial s

unfoldable pub check_loop : ℕ → CheckCompleteState → Result (ℕ × CheckCompleteState)
check_loop zero s = stuck
check_loop (suc fuel) s =
    round s >>= λ r. elim r.0 [ some code ↦ ok (code, r.1) | none ↦ check_loop fuel r.1 ]

-- Two rounds at most are made for each byte, and one more that finds the buffer at its end.
abbrev pub loop_fuel : Bytes → ℕ
loop_fuel buf = 2 * length buf + 3

unfoldable pub check_complete : CheckCompleteState → Bytes → Result (ℕ × CheckCompleteState)
check_complete s buf =
    check_loop (loop_fuel buf) (record s { read_state = set_buffer s.read_state buf })
