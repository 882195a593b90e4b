-- ===== src/Runs/Checks.antt =====
-- `CheckComplete` on the streams of the repository's tests.
use dbuf_demo_go.Common.{ℕ, ◌+◌, ◌≡◌, ◌≤◌, refl, arith, Bool, true, false, List, [], ◌∷◌, Bytes}
use dbuf_demo_go.Basic.Val.{zero_initial}
use dbuf_demo_go.Basic.Error.{Result, ok, ◌>>=◌}
use dbuf_demo_go.Basic.Code
use dbuf_demo_go.Basic.Decode.{check_canonical, start_initial, started_code}
use dbuf_demo_go.Basic.Check
use dbuf_demo_go.Basic.Check.{CheckCompleteState, check_complete}
use dbuf_demo_go.Basic.Check.Invariant.{IsConsistent, IsComplete}
use dbuf_demo_go.Basic.Check.Complete.{check_complete_returns}

-- The state that the tests start from.
abbrev start : Bool → ℕ → Bool → CheckCompleteState
start use_length total use_end_marker = record {
  read_state = record {
    state = record { bytes = []; index = 0 };
    previous_bytes_read = 0;
    initial = zero_initial;
  };
  stack = [];
  map_counts = [];
  total = total;
  use_length = use_length;
  use_end_marker = use_end_marker;
  slice_mode = false;
}

-- The code of the last buffer, while the codes before it are `Continue`.
run : CheckCompleteState → Bytes → List Bytes → Result ℕ
run s buf [] = check_complete s buf >>= λ r. ok r.0
run s buf (next ∷ bufs) = check_complete s buf >>= λ r. run r.1 next bufs

nesting_done :
    run (start true 6 false) (0x85 ∷ 0x84 ∷ 0x83 ∷ 0x42 ∷ 0xE5 ∷ 0xE5 ∷ []) [] ≡ ok Code.done
unfolding run check_complete Check.check_loop Check.round Check.read_initial check_canonical
    Check.initial_round Check.count_item Check.consume Check.consumed Check.enter Check.read_top
    Check.read_slice_of Check.has_invalid_utf8 Check.slice_round Check.leave start_initial
    started_code
nesting_done = refl

start-IsConsistent : IsConsistent (start true 3 false)
start-IsConsistent = record {
  ordered = tt;
  counted = refl;
  open_slice = λ e. cc;
  inside = omega arith;
  small = omega arith;
  initial_value = omega arith;
  length_left = omega arith;
}

check_complete_returns_example :
    (code : ℕ) × (s' : CheckCompleteState) × (check_complete (start true 3 false) (0x42 ∷ 0xE5 ∷ [])
      ≡ ok (code, s'))
    × (code ≡ Code.continue → IsConsistent s')
    × (code ≡ Code.done → IsComplete s')
    × (code ≤ Code.continue → true ≡ true → s'.total + s'.read_state.state.index ≡ 3)
check_complete_returns_example =
    check_complete_returns (start true 3 false) (0x42 ∷ 0xE5 ∷ []) start-IsConsistent (omega arith)
