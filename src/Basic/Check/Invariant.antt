-- ===== src/Basic/Check/Invariant.antt =====
-- The states of `CheckComplete` between two rounds, and what a round keeps of them.
use dbuf_demo_go.Common.{ℕ, ◌+◌, ◌*◌, ◌-◌, ◌≤◌, ◌<◌, ◌≡◌, true, false, if◌then◌else◌}
use dbuf_demo_go.Common.{IsU32, IsU64, length, Option, none, some, ◌⊎◌}
use dbuf_demo_go.Basic.Val.{is_end_marker}
use dbuf_demo_go.Basic.Check.{CheckCompleteState, Round, is_empty}
use dbuf_demo_go.Basic.Check.Stack.{IsOrdered, IsCounted}
use dbuf_demo_go.Basic.Error.{ok}
use dbuf_demo_go.Basic.Code

pub record IsConsistent (s : CheckCompleteState) : Type 0 where
  pub ordered : IsOrdered 0 s.stack
  pub counted : IsCounted s.stack s.map_counts
  pub open_slice : s.slice_mode ≡ true → is_empty s.stack ≡ false
  pub inside : s.read_state.state.index ≤ length s.read_state.state.bytes
  pub small : IsU32 (length s.read_state.state.bytes)
  pub initial_value : IsU32 s.read_state.initial.value
  pub length_left : IsU64 s.total

-- `s'` has read on in the buffer of `s`, and has taken what it read from the total length.
pub record ReadsOn (s s' : CheckCompleteState) : Type 0 where
  pub same_buffer : s'.read_state.state.bytes ≡ s.read_state.state.bytes
  pub same_previous : s'.read_state.previous_bytes_read ≡ s.read_state.previous_bytes_read
  pub same_use : s'.use_length ≡ s.use_length
  pub onward : s.read_state.state.index ≤ s'.read_state.state.index
  pub paid :
      s.use_length ≡ true
      → s'.total + s'.read_state.state.index ≡ s.total + s.read_state.state.index

-- `CheckComplete` has come to an end: nothing is open, and no length is left or an end marker has
-- been read. Only the mode may be out of order, after a slice, and then the length is used up.
pub record IsComplete (s : CheckCompleteState) : Type 0 where
  pub closed : is_empty s.stack ≡ true
  pub ended :
      ((s.use_length ≡ true) × (s.total ≡ 0))
      ⊎ ((s.use_end_marker ≡ true) × (is_end_marker s.read_state.initial ≡ true))
  pub settled : IsConsistent (record s { slice_mode = false })
  pub after_slice : s.slice_mode ≡ true → (s.use_length ≡ true) × (s.total ≡ 0)

-- What the loop has left to do: a slice needs no byte, and the mode changes after it.
abbrev pub left_to_do : CheckCompleteState → ℕ
left_to_do s =
    2 * (length s.read_state.state.bytes - s.read_state.state.index)
    + (if s.slice_mode then 1 else 0)

-- A round that goes on keeps the state in order and comes nearer to its end. One that returns
-- `Continue` keeps it in order too. `Done` is returned at an end only, and the state is left in slice
-- mode if a slice came last.
abbrev pub Keeps : CheckCompleteState → Option ℕ → CheckCompleteState → Type 0
Keeps s none s' = IsConsistent s' × ReadsOn s s' × (left_to_do s' < left_to_do s)
Keeps s (some code) s' =
    (code ≡ Code.continue → IsConsistent s' × ReadsOn s s')
    × (code ≡ Code.done → IsComplete s' × ReadsOn s s')

-- The round returns, and keeps what it has to.
abbrev pub Settles : CheckCompleteState → Round → Type 0
Settles s m = (r : Option ℕ × CheckCompleteState) × (m ≡ ok r) × Keeps s r.0 r.1
