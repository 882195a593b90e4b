-- ===== src/Basic/Check/Leave.antt =====
-- The rounds of `CheckComplete` in slice mode.
use dbuf_demo_go.Common.{ℕ, ◌+◌, ◌-◌, ◌<◌, ◌≡◌, refl, ap, ◌∙◌, arith}
use dbuf_demo_go.Common.{Bool, true, false, ◌&&◌, ltb, ◌==◌, ==_iff, min}
use dbuf_demo_go.Common.{List, [], ◌∷◌, length, none, sub_u64, Bool-cases, take, drop}
use dbuf_demo_go.Common.{inl, inr, ltb→lt, Option-cases, &&-eq_true, to_u32}
use dbuf_demo_go.Basic.ParseType
use dbuf_demo_go.Basic.Val.{InitialDecode}
use dbuf_demo_go.Basic.Error.{ok}
use dbuf_demo_go.Basic.Check.{
  CheckCompleteState, Consumed, is_empty, exceeds, leave, consumed, consume,
}
use dbuf_demo_go.Basic.Check.{slice_round, read_slice_of, read_top, has_invalid_utf8}
use dbuf_demo_go.Basic.Check.Stack.{IsOrdered, IsCounted, IsOrdered-weaken, IsKept, consume_keeps}
use dbuf_demo_go.Basic.Check.Stack.{consume_cut}
use dbuf_demo_go.Basic.Check.Invariant.{IsConsistent, ReadsOn, left_to_do, Settles}
use dbuf_demo_go.Basic.Check.Enter.{refused, continues, completes, not_exceeded}

-- `s₀` is the state at the start of the round, and `s` the one after the bytes of the slice.
module _ (s₀ s : CheckCompleteState) (advanced : ℕ) (is_cut : Bool) (h : IsConsistent s)
    (mode : s.slice_mode ≡ true) (mode₀ : s₀.slice_mode ≡ true)
    (read : s.read_state.state.index ≡ s₀.read_state.state.index + advanced)
    (same : s.read_state.state.bytes ≡ s₀.read_state.state.bytes)
    (same_previous : s.read_state.previous_bytes_read ≡ s₀.read_state.previous_bytes_read)
    (same_use : s.use_length ≡ s₀.use_length) (same_total : s.total ≡ s₀.total) where
  -- The state with the bytes of the slice paid for, and the stack and counts `c`.
  abbrev paid_state : Consumed → Bool → CheckCompleteState
  paid_state c m = record s {
    total = sub_u64 s.total advanced;
    stack = c.stack;
    map_counts = c.map_counts;
    slice_mode = m;
  }

  paid-IsConsistent :
      (c : Consumed) (m : Bool)
      → IsKept c
      → c.code ≡ none
      → (m ≡ true → is_empty c.stack ≡ false)
      → IsConsistent (paid_state c m)
  paid-IsConsistent c m k e open_slice = record {
    ordered = IsOrdered-weaken 0 1 c.stack (omega arith) (k.ordered e);
    counted = k.counted e;
    open_slice = open_slice;
    inside = h.inside;
    small = h.small;
    initial_value = h.initial_value;
    length_left = omega arith;
  }

  paid-ReadsOn :
      (c : Consumed) (m : Bool) → exceeds s advanced ≡ false → ReadsOn s₀ (paid_state c m)
  paid-ReadsOn c m e = record {
    same_buffer = same;
    same_previous = same_previous;
    same_use = same_use;
    onward = omega (arith, read);
    paid = λ with_length.
        let enough = not_exceeded s advanced e (same_use ∙ with_length) in
        omega (arith, same_total, read, h.length_left);
  }

  less_left : left_to_do (record s { slice_mode = false }) < left_to_do s₀
  less_left = rw mode₀ (omega (arith, read, ap length same))

  leave-Settles :
      (c : Consumed)
      → IsKept c
      → c.code ≡ none
      → exceeds s advanced ≡ false
      → (is_cut ≡ true → is_empty c.stack ≡ false)
      → Settles s₀ (leave is_cut (paid_state c s.slice_mode))
  unfolding leave
  leave-Settles c k e within cut =
      elim (Bool-cases (is_empty c.stack && (s.use_length && (sub_u64 s.total advanced == 0)))) [
        | inl over ↦
            let (nothing_open, end) = &&-eq_true (is_empty c.stack) _ over in
            let (with_length, none_left) = &&-eq_true s.use_length _ end in
            rw over (
              completes s₀ _ (paid-ReadsOn c s.slice_mode within) (record {
                closed = nothing_open;
                ended = inl (with_length, (==_iff (sub_u64 s.total advanced) 0).0 none_left);
                settled = paid-IsConsistent c false k e (λ m. absurd cc);
                after_slice = λ _. (with_length, (==_iff (sub_u64 s.total advanced) 0).0 none_left);
              }))
        | inr not_over ↦ elim (Bool-cases is_cut) [
          | inl cut_short ↦
              rw (not_over, cut_short)
                (continues s₀ _ (paid-IsConsistent c s.slice_mode k e (λ _. cut cut_short))
                  (paid-ReadsOn c s.slice_mode within))
          | inr whole ↦
              rw (not_over, whole)
                (
                  _,
                  refl,
                  (paid-IsConsistent c false k e (λ m. cc), paid-ReadsOn c false within, less_left),
                )
        ]
      ]

  after_consume :
      (c : Consumed)
      → IsKept c
      → exceeds s advanced ≡ false
      → (is_cut ≡ true → is_empty c.stack ≡ false)
      → Settles s₀ (consumed (record s { total = sub_u64 s.total advanced }) c (leave is_cut))
  unfolding consumed
  after_consume c k within cut = elim (Option-cases c.code) [
    | inl none_yet ↦ rw none_yet (leave-Settles c k none_yet within cut)
    | inr (code, stop) ↦ rw stop (refused s₀ code _ (k.refuses code stop))
  ]

  pub slice_round-Settles :
      (c : Consumed)
      → consume false advanced [] s.stack s.map_counts ≡ ok c
      → IsKept c
      → (is_cut ≡ true → is_empty c.stack ≡ false)
      → Settles s₀ (slice_round advanced is_cut s)
  unfolding slice_round
  slice_round-Settles c run k cut = elim (Bool-cases (exceeds s advanced)) [
    | inl over ↦ rw over (refused s₀ _ s (omega arith))
    | inr within ↦ rw (within, run) (after_consume c k within cut)
  ]

read_slice_of-Settles :
    (s : CheckCompleteState) (top : InitialDecode) (below : List InitialDecode)
    → s.stack ≡ top ∷ below
    → IsConsistent s
    → s.slice_mode ≡ true
    → Settles s (read_slice_of top s)
unfolding read_slice_of
read_slice_of-Settles s top below e h mode =
    let d = s.read_state.state in
    let remaining = to_u32 (length d.bytes - d.index) in
    let advanced = min top.value remaining in
    let s' = record s {
      read_state = record (s.read_state) { state = record d { index = d.index + advanced } };
    } in
    let exact : to_u32 (length d.bytes - d.index) ≡ length d.bytes - d.index =
      omega (arith, h.small) in
    let ordered : IsOrdered 0 (top ∷ below) = rw e at h.ordered in
    let counted : IsCounted (top ∷ below) s.map_counts = rw e at h.counted in
    let paid : IsOrdered advanced (top ∷ below) = (omega arith, ordered.1, ordered.2) in
    let h' : IsConsistent s' = record {
      ordered = h.ordered;
      counted = h.counted;
      open_slice = h.open_slice;
      inside = omega (arith, exact, h.inside);
      small = h.small;
      initial_value = h.initial_value;
      length_left = h.length_left;
    } in
    let settles =
      slice_round-Settles s s' advanced (ltb remaining top.value) h' mode mode refl refl refl refl
        refl in
    elim (Bool-cases
      ((top.type == ParseType.text) && has_invalid_utf8 (take advanced (drop d.index d.bytes)))) [
        | inl invalid ↦ rw invalid (refused s _ s (omega arith))
        | inr valid ↦ rw valid (elim (Bool-cases (ltb remaining top.value)) [
          | inl cut ↦
              let short = ltb→lt _ _ cut in
              let (c, run, k, open_still) =
                consume_cut advanced top below s.map_counts paid (omega arith) counted in
              settles c (rw e run) k (λ _. open_still)
          | inr whole ↦
              let (c, run, k) =
                consume_keeps false advanced (top ∷ below) s.map_counts paid counted in
              settles c (rw e run) k (λ cut. cc)
        ])
      ]

-- In slice mode a round returns and keeps what it has to: there is a value at the top of the stack.
pub read_top-Settles :
    (s : CheckCompleteState) → IsConsistent s → s.slice_mode ≡ true → Settles s (read_top s.stack s)
unfolding read_top
read_top-Settles s h mode = top_of s.stack refl
  where
    top_of : (stack : List InitialDecode) → s.stack ≡ stack → Settles s (read_top stack s)
    top_of [] e = absurd (empty_stack (rw e at h.open_slice mode))
      where
        empty_stack : is_empty {A = InitialDecode} [] ≡ false → ⊥
        empty_stack p = cc
    top_of (top ∷ below) e = read_slice_of-Settles s top below e h mode
