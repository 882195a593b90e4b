-- ===== src/Protocol/Body/Bounds.antt =====
-- `ReadCheckValue` and the checks behind it: no panic, and what they read is bounded.
use dbuf_demo_go.Common.{ℕ, zero, suc, ◌+◌, ◌<◌, ◌≡◌, refl, sym, ap, ◌∙◌, subst}
use dbuf_demo_go.Common.{arith, true, false, inl, inr}
use dbuf_demo_go.Common.{Bytes, length, Bool-cases, IsU32}
use dbuf_demo_go.Basic.Error.{ok}
use dbuf_demo_go.Basic.Check.{CheckCompleteState, set_buffer}
use dbuf_demo_go.Basic.Check.Invariant.{IsConsistent, IsComplete, ReadsOn}
use dbuf_demo_go.Basic.Check.Complete.{check_complete_ends, LoopEnds}
use dbuf_demo_go.Protocol.Reader.{Returns, if-Returns}
use dbuf_demo_go.Protocol.Body.{check_value, refused}

-- A state that more than `n` bytes can still be read from before its length, if it is in use, is used
-- up.
pub record HasMore (n : ℕ) (s : CheckCompleteState) : Type 0 where
  pub consistent : IsConsistent s
  pub more : s.use_length ≡ true → n < s.total

ok_injective {ℓ} : {A : Type ℓ} {a b : A} → ok a ≡ ok b → a ≡ b
ok_injective e = cc

module _ (n : ℕ) (s : CheckCompleteState) (buf : Bytes) (h : HasMore (n + length buf) s) where
  -- What is behind the buffer after a code that is not refused.
  left_behind :
      (s' : CheckCompleteState)
      → IsConsistent s'
      → ReadsOn (record s { read_state = set_buffer s.read_state buf }) s'
      → HasMore n s'
  left_behind s' c on = record {
    consistent = c;
    more = λ u. omega (
      arith,
      on.paid (sym on.same_use ∙ u),
      h.more (sym on.same_use ∙ u),
      c.inside,
      ap length on.same_buffer,
    );
  }

  done_behind :
      (s' : CheckCompleteState)
      → IsComplete s'
      → ReadsOn (record s { read_state = set_buffer s.read_state buf }) s'
      → HasMore n s'
  done_behind s' c on =
      left_behind s'
        (subst (λ m. IsConsistent (record s' { slice_mode = m })) (sym outside) c.settled) on
    where
      outside : s'.slice_mode ≡ false
      outside = elim (Bool-cases s'.slice_mode) [
        | inl m ↦
            let (u, none_left) = c.after_slice m in
            absurd (
              omega (
                arith,
                on.paid (sym on.same_use ∙ u),
                h.more (sym on.same_use ∙ u),
                c.settled.inside,
                ap length on.same_buffer,
              ))
        | inr m ↦ m
      ]

  behind :
      (code : ℕ) (s' : CheckCompleteState)
      → LoopEnds (record s { read_state = set_buffer s.read_state buf }) code s'
      → refused code ≡ false
      → HasMore n s'
  behind zero s' ends e = let (c, on) = ends.1 refl in done_behind s' c on
  behind (suc zero) s' ends e = let (c, on) = ends.0 refl in left_behind s' c on
  behind (suc (suc code)) s' ends e = absurd (ground arith)

  -- The check of a buffer returns, and if it accepts it, more can be read behind it.
  pub check_value-HasMore :
      IsU32 (length buf)
      → Returns (check_value s buf)
        × ((r : ℕ × CheckCompleteState) → check_value s buf ≡ ok r → HasMore n r.1)
  unfolding check_value
  check_value-HasMore small =
      let (code, s', run, ends) = check_complete_ends s buf h.consistent small in
      rw run (elim (Bool-cases (refused code)) [
        | inl e ↦ rw e (tt, λ r e'. absurd cc)
        | inr e ↦
            rw e (tt, λ r e'. subst (λ o. HasMore n o.1) (ok_injective e') (behind code s' ends e))
      ])

-- The check of a buffer from a state in order returns in any case.
pub check_value-Returns :
    (s : CheckCompleteState) (buf : Bytes)
    → IsConsistent s
    → IsU32 (length buf)
    → Returns (check_value s buf)
unfolding check_value
check_value-Returns s buf h small =
    let (code, s', run, ends) = check_complete_ends s buf h small in
    rw run (if-Returns (refused code) _ _ (λ e. tt) (λ e. tt))
