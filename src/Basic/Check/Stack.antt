-- ===== src/Basic/Check/Stack.antt =====
-- The loop over the stack of `CheckComplete`: from a stack whose lengths grow downwards it does not
-- panic, and leaves such a stack.
use dbuf_demo_go.Common.{ℕ, suc, ◌+◌, ◌%◌, ◌≤◌, ◌<◌, ◌≡◌, ◌⊎◌, ◌≢◌, refl, ap, ◌∙◌, sym, arith}
use dbuf_demo_go.Common.{Bool, true, false, if◌then◌else◌, ◌==◌, IsU32}
use dbuf_demo_go.Common.{
  List, [], ◌∷◌, ◌++◌, length, none, some, sub_u32, to_u32, Bool-cases, inl, inr,
}
use dbuf_demo_go.Common.{append_assoc, append-nil}
use dbuf_demo_go.Basic.ParseType
use dbuf_demo_go.Basic.Code
use dbuf_demo_go.Basic.Val.{InitialDecode}
use dbuf_demo_go.Basic.Error.{ok}
use dbuf_demo_go.Basic.Check.{
  Consumed, is_empty, bump, bump_parent, close_map, close_value, consume,
}

-- The lengths of a stack are uint32s from `low` on, and none is longer than one below it.
abbrev pub IsOrdered : ℕ → List InitialDecode → Type 0
IsOrdered low [] = Unit {0}
IsOrdered low (e ∷ stack) = (low ≤ e.value) × IsU32 e.value × IsOrdered e.value stack

-- The number of maps on a stack.
abbrev pub maps : List InitialDecode → ℕ
maps [] = 0
maps (e ∷ stack) = if e.type == ParseType.map then suc (maps stack) else maps stack

-- There is a count for each map of the stack.
abbrev pub IsCounted : List InitialDecode → List ℕ → Type 0
IsCounted stack counts = length counts ≡ maps stack

abbrev lower : ℕ → InitialDecode → InitialDecode
lower n e = record e { value = sub_u32 e.value n }

abbrev lower_all : ℕ → List InitialDecode → List InitialDecode
lower_all n [] = []
lower_all n (e ∷ stack) = lower n e ∷ lower_all n stack

==_ne : (n : ℕ) → 0 < n → (n == 0) ≡ false
==_ne n h = ground arith

==_false : (m n : ℕ) → (m == n) ≡ false → m ≢ n
==_false m n h e = ground arith

maps-lower_all : (n : ℕ) (stack : List InitialDecode) → maps (lower_all n stack) ≡ maps stack
maps-lower_all n [] = refl
maps-lower_all n (e ∷ stack) = ground (arith, maps-lower_all n stack)

pub IsOrdered-weaken :
    (low high : ℕ) (stack : List InitialDecode)
    → low ≤ high
    → IsOrdered high stack
    → IsOrdered low stack
IsOrdered-weaken low high [] h k = tt
IsOrdered-weaken low high (e ∷ stack) h k = (omega arith, k.1, k.2)

lower_all-IsOrdered :
    (n low high : ℕ) (stack : List InitialDecode)
    → IsOrdered high stack
    → low + n ≤ high
    → IsOrdered low (lower_all n stack)
lower_all-IsOrdered n low high [] h k = tt
lower_all-IsOrdered n low high (e ∷ stack) h k = (
  omega (arith, h.0, h.1),
  omega (arith, h.0, h.1),
  lower_all-IsOrdered n (sub_u32 e.value n) e.value stack h.2 (omega (arith, h.0, h.1)),
)

-- Nothing is complete: the lengths fall, and all else stays.
consume_open :
    (has_slice : Bool) (n : ℕ) (above below : List InitialDecode) (counts : List ℕ)
    → IsOrdered (suc n) below
    → consume has_slice n above below counts
      ≡ ok (record { code = none; stack = above ++ lower_all n below; map_counts = counts })
unfolding consume
consume_open has_slice n above [] counts h =
    λ i. ok (record { code = none; stack = sym (append-nil above) i; map_counts = counts })
consume_open has_slice n above (e ∷ below) counts h =
    let left : (sub_u32 e.value n == 0) ≡ false = ==_ne _ (omega (arith, h.0, h.1)) in
    rw left (
      consume_open has_slice n (above ++ lower n e ∷ []) below counts
        (IsOrdered-weaken (suc n) e.value below h.0 h.2)
      ∙ ap (λ st. ok (record { code = none; stack = st; map_counts = counts }))
          (append_assoc above (lower n e ∷ []) (lower_all n below)))

-- What closing a value leaves, where there is a count for each map.
close_cases :
    (e : InitialDecode) (below : List InitialDecode) (counts : List ℕ)
    → IsCounted (e ∷ below) counts
    → (close_value e.type counts ≡ ok none)
      ⊎ ((counts' : List ℕ) × (close_value e.type counts ≡ ok (some counts'))
          × IsCounted below counts')
unfolding close_value close_map
close_cases e below [] h = ground arith
close_cases e below (c ∷ counts) h = elim (Bool-cases (e.type == ParseType.map)) [
  | inr other ↦ inr (c ∷ counts, rw other refl, rw other at h)
  | inl map ↦ elim (Bool-cases (c % 2 == 1)) [
    | inl odd ↦ inl (rw (map, odd) refl)
    | inr even ↦ inr (counts, rw (map, even) refl, ground arith)
  ]
]

pub bump_parent_keeps :
    (stack : List InitialDecode) (counts : List ℕ)
    → IsCounted stack counts
    → (counts' : List ℕ) × (bump_parent stack counts ≡ ok counts') × IsCounted stack counts'
unfolding bump_parent bump
bump_parent_keeps [] counts h = (counts, refl, h)
bump_parent_keeps (e ∷ stack) [] h = elim (Bool-cases (e.type == ParseType.map)) [
  | inr other ↦ ([], rw other refl, h)
  | inl map ↦ absurd (ground arith)
]
bump_parent_keeps (e ∷ stack) (c ∷ counts) h = elim (Bool-cases (e.type == ParseType.map)) [
  | inr other ↦ (c ∷ counts, rw other refl, h)
  | inl map ↦ (to_u32 (c + 1) ∷ counts, rw map refl, h)
]

-- The result of the loop. If it stops with a code, then the stream is refused; if not, every length
-- left is at least 1, and the stack keeps a count for each map.
pub record IsKept (c : Consumed) : Type 0 where
  pub ordered : c.code ≡ none → IsOrdered 1 c.stack
  pub refuses : (code : ℕ) → c.code ≡ some code → Code.continue < code
  pub counted : c.code ≡ none → IsCounted c.stack c.map_counts

stopped :
    (code : ℕ) (stack : List InitialDecode) (counts : List ℕ)
    → Code.continue < code
    → IsKept (record { code = some code; stack = stack; map_counts = counts })
stopped code stack counts h = record {
  ordered = λ e. cc;
  refuses = λ k e. ground arith;
  counted = λ e. cc;
}

open-IsKept :
    (n : ℕ) (stack : List InitialDecode) (counts : List ℕ)
    → IsOrdered (suc n) stack
    → IsCounted stack counts
    → IsKept (record { code = none; stack = lower_all n stack; map_counts = counts })
open-IsKept n stack counts h k = record {
  ordered = λ _. lower_all-IsOrdered n 1 (suc n) stack h (omega arith);
  refuses = λ code e. cc;
  counted = λ _. k ∙ sym (maps-lower_all n stack);
}

-- If the value at the top is not complete, then no value is.
first_open :
    (has_slice : Bool) (n : ℕ) (e : InitialDecode) (below : List InitialDecode) (counts : List ℕ)
    → IsOrdered n (e ∷ below)
    → IsCounted (e ∷ below) counts
    → (sub_u32 e.value n == 0) ≡ false
    → (c : Consumed) × (consume has_slice n [] (e ∷ below) counts ≡ ok c) × IsKept c
first_open has_slice n e below counts h k more =
    let left = ==_false (sub_u32 e.value n) 0 more in
    let long : suc n ≤ e.value = omega (arith, left, h.0, h.1) in
    (
      _,
      consume_open has_slice n [] (e ∷ below) counts (long, h.1, h.2),
      open-IsKept n (e ∷ below) counts (long, h.1, h.2) k,
    )

-- The loop returns, whatever it finds.
pub consume_keeps :
    (has_slice : Bool) (n : ℕ) (below : List InitialDecode) (counts : List ℕ)
    → IsOrdered n below
    → IsCounted below counts
    → (c : Consumed) × (consume has_slice n [] below counts ≡ ok c) × IsKept c
unfolding consume
consume_keeps has_slice n [] counts h k = (
  record { code = none; stack = []; map_counts = counts },
  refl,
  record { ordered = λ e. tt; refuses = λ code e. cc; counted = λ e. k },
)
consume_keeps true n (e ∷ below) counts h k = elim (Bool-cases (sub_u32 e.value n == 0)) [
  | inl done ↦ rw done (_, refl, stopped _ _ _ (omega arith))
  | inr more ↦ first_open true n e below counts h k more
]
consume_keeps false n (e ∷ below) counts h k = elim (Bool-cases (sub_u32 e.value n == 0)) [
  | inl done ↦ elim (close_cases e below counts k) [
    | inl odd ↦ rw (done, odd) (_, refl, stopped _ _ _ (omega arith))
    | inr (counts', closed, k') ↦
        let (counts'', bumped, k'') = bump_parent_keeps below counts' k' in
        rw (done, closed, bumped)
          (consume_keeps false n below counts'' (IsOrdered-weaken n e.value below h.0 h.2) k'')
  ]
  | inr more ↦ first_open false n e below counts h k more
]

-- Where the value at the top is longer than what is read of it, the stack stays open.
pub consume_cut :
    (n : ℕ) (e : InitialDecode) (below : List InitialDecode) (counts : List ℕ)
    → IsOrdered n (e ∷ below)
    → n < e.value
    → IsCounted (e ∷ below) counts
    → (c : Consumed) × (consume false n [] (e ∷ below) counts ≡ ok c)
      × IsKept c
      × (is_empty c.stack ≡ false)
consume_cut n e below counts h l k = (
  _,
  consume_open false n [] (e ∷ below) counts (l, h.1, h.2),
  open-IsKept n (e ∷ below) counts (l, h.1, h.2) k,
  refl,
)
