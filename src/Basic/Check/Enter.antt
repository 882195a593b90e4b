-- ===== src/Basic/Check/Enter.antt =====
-- The rounds of `CheckComplete` outside slice mode.
use dbuf_demo_go.Common.{ℕ, suc, ◌+◌, ◌-◌, ◌≤◌, ◌<◌, ◌≡◌, refl, ap, ◌∙◌, arith}
use dbuf_demo_go.Common.{
  Bool, true, false, ◌&&◌, ◌||◌, not, if◌then◌else◌, ltb, ◌==◌, ==_iff, IsU32,
}
use dbuf_demo_go.Common.{List, [], ◌∷◌, length, none, some, sub_u64, Bool-cases}
use dbuf_demo_go.Common.{
  inl, inr, ltb→lt, ltb→le, leb→lt, Option-cases, &&-eq_true, ||-eq_true, to_u32,
}
use dbuf_demo_go.Basic.ParseType
use dbuf_demo_go.Basic.Val.{InitialDecode, type_has_slice, type_has_nesting, is_end_marker}
use dbuf_demo_go.Basic.Error.{ok}
use dbuf_demo_go.Basic.Decode.{DecoderState, at_end, advance}
use dbuf_demo_go.Basic.Decode.Bounds.{Follows, check_canonical_onward}
use dbuf_demo_go.Basic.Check.{CheckCompleteState, Consumed, is_empty, top_below, exceeds, enter}
use dbuf_demo_go.Basic.Check.{count_item, consumed, initial_round, read_initial, return_code}
use dbuf_demo_go.Basic.Check.Stack.{IsOrdered, IsCounted, IsOrdered-weaken, IsKept, consume_keeps}
use dbuf_demo_go.Basic.Check.Stack.{bump_parent_keeps}
use dbuf_demo_go.Basic.Check.Invariant.{
  IsConsistent, ReadsOn, IsComplete, left_to_do, Keeps, Settles,
}
use dbuf_demo_go.Basic.Code

push-IsOrdered :
    (e : InitialDecode) (stack : List InitialDecode)
    → IsU32 e.value
    → IsOrdered 0 stack
    → top_below stack e.value ≡ false
    → IsOrdered 0 (e ∷ stack)
push-IsOrdered e [] h k t = (omega arith, h, tt)
push-IsOrdered e (x ∷ stack) h k t = (omega arith, h, (ltb→le _ _ t, k.1, k.2))

push-IsCounted :
    (e : InitialDecode) (stack : List InitialDecode) (counts : List ℕ)
    → IsCounted stack counts
    → IsCounted (e ∷ stack) (if e.type == ParseType.map then 0 ∷ counts else counts)
push-IsCounted e stack counts h = elim (Bool-cases (e.type == ParseType.map)) [
  | inl map ↦ rw map (ap suc h)
  | inr other ↦ rw other h
]

-- A code for a stream that is refused says nothing about the state.
pub refused :
    (s : CheckCompleteState) (code : ℕ) (s' : CheckCompleteState)
    → Code.continue < code
    → Settles s (return_code code s')
refused s code s' h =
    ((some code, s'), refl, ((λ k. absurd (omega arith)), λ k. absurd (omega arith)))

pub continues :
    (s s' : CheckCompleteState)
    → IsConsistent s'
    → ReadsOn s s'
    → Settles s (return_code Code.continue s')
continues s s' h k = ((some Code.continue, s'), refl, ((λ _. (h, k)), λ e. absurd (omega arith)))

pub completes :
    (s s' : CheckCompleteState)
    → ReadsOn s s'
    → IsComplete s'
    → Settles s (return_code Code.done s')
completes s s' k c = ((some Code.done, s'), refl, ((λ e. absurd (omega arith)), λ _. (c, k)))

pub bit : (b : Bool) → (if b then 1 else 0) ≤ 1
bit true = omega arith
bit false = omega arith

module _ (s₀ s : CheckCompleteState) (h : IsConsistent s) (on : ReadsOn s₀ s) where
  -- A byte read pays for a change of mode.
  less_left :
      (mode : Bool)
      → s₀.read_state.state.index < s.read_state.state.index
      → left_to_do (record s { slice_mode = mode }) < left_to_do s₀
  less_left mode further = omega (arith, bit mode, ap length on.same_buffer, h.inside)

  enter_slice :
      s₀.read_state.state.index < s.read_state.state.index
      → top_below s.stack s.read_state.initial.value ≡ false
      → Keeps s₀ none (record s {
        map_counts =
            if s.read_state.initial.type == ParseType.map then 0 ∷ s.map_counts else s.map_counts;
        stack = s.read_state.initial ∷ s.stack;
        slice_mode = not (type_has_nesting s.read_state.initial);
      })
  enter_slice further top =
      let ini = s.read_state.initial in
      (
        record {
          ordered = push-IsOrdered ini s.stack h.initial_value h.ordered top;
          counted = push-IsCounted ini s.stack s.map_counts h.counted;
          open_slice = λ _. refl;
          inside = h.inside;
          small = h.small;
          initial_value = h.initial_value;
          length_left = h.length_left;
        },
        record {
          same_buffer = on.same_buffer;
          same_previous = on.same_previous;
          same_use = on.same_use;
          onward = on.onward;
          paid = on.paid;
        },
        less_left (not (type_has_nesting ini)) further,
      )

  ended :
      (is_empty s.stack
          && ((s.use_end_marker && is_end_marker s.read_state.initial)
              || (s.use_length && (s.total == 0))))
        ≡ true
      → s.slice_mode ≡ false
      → IsComplete s
  ended e mode =
      let (nothing_open, end) = &&-eq_true (is_empty s.stack) _ e in
      record {
        closed = nothing_open;
        ended = elim (||-eq_true (s.use_end_marker && is_end_marker s.read_state.initial) _ end) [
          | inl marker ↦ inr (&&-eq_true s.use_end_marker _ marker)
          | inr used ↦
              let (with_length, none_left) = &&-eq_true s.use_length _ used in
              inl (with_length, (==_iff s.total 0).0 none_left)
        ];
        settled = record {
          ordered = h.ordered;
          counted = h.counted;
          open_slice = λ m. absurd cc;
          inside = h.inside;
          small = h.small;
          initial_value = h.initial_value;
          length_left = h.length_left;
        };
        after_slice = λ m. absurd cc;
      }

  enter-Settles :
      s.slice_mode ≡ false
      → s₀.read_state.state.index < s.read_state.state.index
      → Settles s₀ (enter s.read_state.initial s)
  unfolding enter
  enter-Settles mode further =
      let ini = s.read_state.initial in
      elim (Bool-cases (ltb 0 ini.missing_extra_length)) [
        | inl more ↦ rw more (continues s₀ s h on)
        | inr whole ↦ elim (Bool-cases (type_has_slice ini)) [
          | inl slice ↦ elim (Bool-cases (top_below s.stack ini.value)) [
            | inl over ↦ rw (whole, slice, over) (refused s₀ _ s (omega arith))
            | inr fits ↦ rw (whole, slice, fits) (_, refl, enter_slice further fits)
          ]
          | inr number ↦
              elim (Bool-cases (
                is_empty s.stack
                && ((s.use_end_marker && is_end_marker ini) || (s.use_length && (s.total == 0))))) [
                  | inl over ↦ rw (whole, number, over) (completes s₀ s on (ended over mode))
                  | inr not_yet ↦
                      rw (whole, number, not_yet) (_, refl, (h, on, less_left s.slice_mode further))
                ]
        ]
      ]

pub not_exceeded :
    (s : CheckCompleteState) (n : ℕ) → exceeds s n ≡ false → s.use_length ≡ true → n ≤ s.total
not_exceeded s n e used = ltb→le _ _ (rw used at e)

pub top-IsOrdered :
    (n : ℕ) (stack : List InitialDecode)
    → IsOrdered 0 stack
    → top_below stack n ≡ false
    → IsOrdered n stack
top-IsOrdered n [] h t = tt
top-IsOrdered n (e ∷ stack) h t = (ltb→le _ _ t, h.1, h.2)

-- `s₀` is the state at the start of the round, and `s` the one after `CheckCanonical`.
module _ (s₀ s : CheckCompleteState) (advanced : ℕ) (h : IsConsistent s)
    (mode : s.slice_mode ≡ false)
    (read : s.read_state.state.index ≡ s₀.read_state.state.index + advanced)
    (some_read : 0 < advanced) (same : s.read_state.state.bytes ≡ s₀.read_state.state.bytes)
    (same_previous : s.read_state.previous_bytes_read ≡ s₀.read_state.previous_bytes_read)
    (same_use : s.use_length ≡ s₀.use_length) (same_total : s.total ≡ s₀.total) where
  count_item_keeps :
      (counts : List ℕ) × (count_item s.read_state.initial s.stack s.map_counts ≡ ok counts)
      × IsCounted s.stack counts
  unfolding count_item
  count_item_keeps =
      let ini = s.read_state.initial in
      elim (Bool-cases ((ini.missing_extra_length == 0) && not (type_has_slice ini))) [
        | inl item ↦ rw item (bump_parent_keeps s.stack s.map_counts h.counted)
        | inr part ↦ rw part (s.map_counts, refl, h.counted)
      ]

  -- The state with the bytes of the initial paid for, and the stack and counts `c`.
  abbrev paid_state : Consumed → CheckCompleteState
  paid_state c = record s {
    total = sub_u64 s.total advanced;
    stack = c.stack;
    map_counts = c.map_counts;
  }

  paid-IsConsistent : (c : Consumed) → IsKept c → c.code ≡ none → IsConsistent (paid_state c)
  paid-IsConsistent c k e = record {
    ordered = IsOrdered-weaken 0 1 c.stack (omega arith) (k.ordered e);
    counted = k.counted e;
    open_slice = λ m. cc;
    inside = h.inside;
    small = h.small;
    initial_value = h.initial_value;
    length_left = omega arith;
  }

  paid-ReadsOn : (c : Consumed) → exceeds s advanced ≡ false → ReadsOn s₀ (paid_state c)
  paid-ReadsOn c e = record {
    same_buffer = same;
    same_previous = same_previous;
    same_use = same_use;
    onward = omega (arith, read);
    paid = λ with_length.
        let enough = not_exceeded s advanced e (same_use ∙ with_length) in
        omega (arith, same_total, read, h.length_left);
  }

  after_consume :
      (c : Consumed)
      → IsKept c
      → exceeds s advanced ≡ false
      → Settles s₀
          (consumed (record s { total = sub_u64 s.total advanced }) c (enter s.read_state.initial))
  unfolding consumed
  after_consume c k within = elim (Option-cases c.code) [
    | inl none_yet ↦ rw none_yet (
        enter-Settles s₀ (paid_state c) (paid-IsConsistent c k none_yet) (paid-ReadsOn c within)
          mode (omega arith))
    | inr (code, stop) ↦ rw stop (refused s₀ code _ (k.refuses code stop))
  ]

  pub initial_round-Settles : Settles s₀ (initial_round advanced s)
  unfolding initial_round
  initial_round-Settles = elim (Bool-cases (exceeds s advanced)) [
    | inl over ↦ rw over (refused s₀ _ s (omega arith))
    | inr within ↦ elim (Bool-cases (top_below s.stack advanced)) [
      | inl over ↦ rw (within, over) (refused s₀ _ _ (omega arith))
      | inr fits ↦
          let (counts, counted, k) = count_item_keeps in
          let ini = s.read_state.initial in
          let (c, consumed_eq, kept) =
            consume_keeps (type_has_slice ini) advanced s.stack counts
              (top-IsOrdered advanced s.stack h.ordered fits) k in
          rw (within, fits, counted, consumed_eq) (after_consume c kept within)
    ]
  ]

pub ReadsOn-self : (s : CheckCompleteState) → ReadsOn s s
ReadsOn-self s = record {
  same_buffer = refl;
  same_previous = refl;
  same_use = refl;
  onward = omega arith;
  paid = λ _. refl;
}

-- The state after `CheckCanonical`.
abbrev read_state_of : CheckCompleteState → InitialDecode → DecoderState → CheckCompleteState
read_state_of s i d = record s { read_state = record (s.read_state) { initial = i; state = d } }

read-IsConsistent :
    (s : CheckCompleteState) (i : InitialDecode) (d : DecoderState)
    → IsConsistent s
    → Follows (advance s.read_state.state) d
    → IsU32 i.value
    → IsConsistent (read_state_of s i d)
read-IsConsistent s i d h f v = record {
  ordered = h.ordered;
  counted = h.counted;
  open_slice = h.open_slice;
  inside = omega (arith, f.inside, ap length f.same);
  small = omega (arith, h.small, ap length f.same);
  initial_value = v;
  length_left = h.length_left;
}

-- Outside slice mode a round returns and keeps what it has to.
pub read_initial-Settles :
    (s : CheckCompleteState) → IsConsistent s → s.slice_mode ≡ false → Settles s (read_initial s)
unfolding read_initial
read_initial-Settles s h mode = elim (Bool-cases (at_end s.read_state.state)) [
  | inl done ↦ rw done (continues s s h (ReadsOn-self s))
  | inr more ↦
      let d = s.read_state.state in
      let (code, i', d', canonical, f, v) =
        check_canonical_onward d s.read_state.initial (leb→lt _ _ more) h.initial_value in
      let advanced = to_u32 (d'.index - d.index) in
      let exact : to_u32 (d'.index - d.index) ≡ d'.index - d.index =
        omega (arith, f.inside, h.small) in
      rw (more, canonical)
        (elim (Bool-cases (ltb Code.continue code)) [
          | inl bad ↦ rw bad (refused s code _ (ltb→lt _ _ bad))
          | inr good ↦ rw good (
              initial_round-Settles s (read_state_of s i' d') advanced
                (read-IsConsistent s i' d' h f v) mode (omega (arith, exact, f.onward))
                (omega (arith, exact, f.onward)) f.same refl refl refl)
        ])
]
