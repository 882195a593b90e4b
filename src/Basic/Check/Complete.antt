-- ===== src/Basic/Check/Complete.antt =====
-- `CheckComplete` as a whole: it returns on every buffer, and what its codes mean for the lengths.
use dbuf_demo_go.Common.{ℕ, zero, suc, ◌+◌, ◌≤◌, ◌<◌, ◌≡◌, refl, ◌∙◌, arith}
use dbuf_demo_go.Common.{Bool, true, false, if◌then◌else◌, IsU32}
use dbuf_demo_go.Common.{Option, none, some, length, Bytes}
use dbuf_demo_go.Basic.Error.{Result, ok}
use dbuf_demo_go.Basic.Check.{
  CheckCompleteState, set_buffer, round, read_top, read_initial, check_loop,
}
use dbuf_demo_go.Basic.Check.{check_complete, loop_fuel}
use dbuf_demo_go.Basic.Check.Invariant.{
  IsConsistent, ReadsOn, IsComplete, left_to_do, Keeps, Settles,
}
use dbuf_demo_go.Basic.Check.Enter.{read_initial-Settles, bit}
use dbuf_demo_go.Basic.Check.Leave.{read_top-Settles}
use dbuf_demo_go.Basic.Code

round_of :
    (s : CheckCompleteState) (slice : Bool)
    → IsConsistent s
    → s.slice_mode ≡ slice
    → Settles s (if slice then read_top s.stack s else read_initial s)
round_of s true h mode = read_top-Settles s h mode
round_of s false h mode = read_initial-Settles s h mode

round-Settles : (s : CheckCompleteState) → IsConsistent s → Settles s (round s)
unfolding round
round-Settles s h = round_of s s.slice_mode h refl

ReadsOn-trans : {a b c : CheckCompleteState} → ReadsOn a b → ReadsOn b c → ReadsOn a c
ReadsOn-trans f g = record {
  same_buffer = g.same_buffer ∙ f.same_buffer;
  same_previous = g.same_previous ∙ f.same_previous;
  same_use = g.same_use ∙ f.same_use;
  onward = omega (arith, f.onward, g.onward);
  paid = λ u. g.paid (f.same_use ∙ u) ∙ f.paid u;
}

-- What the code that the loop returns says about its last state.
abbrev pub LoopEnds : CheckCompleteState → ℕ → CheckCompleteState → Type 0
LoopEnds s code s' =
    (code ≡ Code.continue → IsConsistent s' × ReadsOn s s')
    × (code ≡ Code.done → IsComplete s' × ReadsOn s s')

loop_onward :
    {s s' s'' : CheckCompleteState} (code : ℕ)
    → ReadsOn s s'
    → LoopEnds s' code s''
    → LoopEnds s code s''
loop_onward code f (go, end) =
    (λ e. ((go e).0, ReadsOn-trans f (go e).1), λ e. ((end e).0, ReadsOn-trans f (end e).1))

-- The loop returns from the state `s`, with a code that says so much.
abbrev Returns : CheckCompleteState → Result (ℕ × CheckCompleteState) → Type 0
Returns s m = (code : ℕ) × (s' : CheckCompleteState) × (m ≡ ok (code, s')) × LoopEnds s code s'

-- The rest of a loop after a round with the outcome `o`.
after_round :
    (fuel : ℕ) (s : CheckCompleteState) (o : Option ℕ) (s' : CheckCompleteState)
    → Keeps s o s'
    → left_to_do s < suc fuel
    → (IsConsistent s' → left_to_do s' < fuel → Returns s' (check_loop fuel s'))
    → Returns s (elim o [ some code ↦ ok (code, s') | none ↦ check_loop fuel s' ])
after_round fuel s (some code) s' k l ih = (code, s', refl, k)
after_round fuel s none s' (h, f, less) l ih =
    let (code, s'', run, ends) = ih h (omega arith) in (code, s'', run, loop_onward code f ends)

check_loop-Returns :
    (fuel : ℕ) (s : CheckCompleteState)
    → IsConsistent s
    → left_to_do s < fuel
    → Returns s (check_loop fuel s)
unfolding check_loop
check_loop-Returns zero s h l = absurd (omega arith)
check_loop-Returns (suc fuel) s h l =
    let ((o, s'), run, k) = round-Settles s h in
    rw run (after_round fuel s o s' k l (λ h' l'. check_loop-Returns fuel s' h' l'))

-- The state with a new buffer is in order too.
set_buffer-IsConsistent :
    (s : CheckCompleteState) (buf : Bytes)
    → IsConsistent s
    → IsU32 (length buf)
    → IsConsistent (record s { read_state = set_buffer s.read_state buf })
set_buffer-IsConsistent s buf h small = record {
  ordered = h.ordered;
  counted = h.counted;
  open_slice = h.open_slice;
  inside = omega arith;
  small = small;
  initial_value = h.initial_value;
  length_left = h.length_left;
}

-- `CheckComplete` returns, with what its loop keeps.
pub check_complete_ends :
    (s : CheckCompleteState) (buf : Bytes)
    → IsConsistent s
    → IsU32 (length buf)
    → (code : ℕ) × (s' : CheckCompleteState) × (check_complete s buf ≡ ok (code, s'))
      × LoopEnds (record s { read_state = set_buffer s.read_state buf }) code s'
unfolding check_complete
check_complete_ends s buf h small =
    check_loop-Returns (loop_fuel buf) (record s { read_state = set_buffer s.read_state buf })
      (set_buffer-IsConsistent s buf h small) (omega (arith, bit s.slice_mode))

-- On a consistent state and a buffer shorter than 2 ^ 32 bytes `CheckComplete` returns: its loop ends,
-- no index is out of bounds, and no pop finds an empty slice. On `Continue` the state is consistent
-- again, for the next buffer; on `Done` nothing is open, and the end of the stream has been found. On
-- both, if the total length is in use, what is left of it and what has been read of the buffer make
-- up the length before.
pub check_complete_returns :
    (s : CheckCompleteState) (buf : Bytes)
    → IsConsistent s
    → IsU32 (length buf)
    → (code : ℕ) × (s' : CheckCompleteState) × (check_complete s buf ≡ ok (code, s'))
      × (code ≡ Code.continue → IsConsistent s')
      × (code ≡ Code.done → IsComplete s')
      × (code ≤ Code.continue
          → s.use_length ≡ true
          → s'.total + s'.read_state.state.index ≡ s.total)
check_complete_returns s buf h small =
    let (code, s', run, ends) = check_complete_ends s buf h small in
    (code, s', run, (λ e. (ends.0 e).0), (λ e. (ends.1 e).0), λ e used. paid_by code s' ends e used)
  where
    paid_by :
        (code : ℕ) (s' : CheckCompleteState)
        → LoopEnds (record s { read_state = set_buffer s.read_state buf }) code s'
        → code ≤ Code.continue
        → s.use_length ≡ true
        → s'.total + s'.read_state.state.index ≡ s.total
    paid_by zero s' ends e used = omega (arith, (ends.1 refl).1.paid used)
    paid_by (suc zero) s' ends e used = omega (arith, (ends.0 refl).1.paid used)
    paid_by (suc (suc n)) s' ends e used = absurd (omega arith)
