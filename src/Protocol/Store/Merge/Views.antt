-- ===== src/Protocol/Store/Merge/Views.antt =====
-- The decoding of protected headers with their places, against `DecodeSequence`.
use mathlib.Core.List.{map-append}
use dbuf_demo_go.Common.{ℕ, zero, suc, ◌-◌, ◌≡◌, refl, ◌∙◌, ap, sym, Bool-cases, inl, inr, ltb}
use dbuf_demo_go.Common.{List, [], ◌∷◌, ◌++◌, map, Option, Option-cases, length}
use dbuf_demo_go.Basic.Val.{DbufVal}
use dbuf_demo_go.Basic.Error.{Result, ok, err, panic, stuck, ◌>>=◌, GoError}
use dbuf_demo_go.Basic.Decode.{
  DecoderState, Decoded, DecodedSequence, decode, decode_loop, decode_round, decode_sequence,
}
use dbuf_demo_go.Protocol.Store.Merge.{View, view_of, views_round, views_loop, decode_views}

-- The values without their places, and what `DecodeSequence` returns beside its state.
abbrev pub values : Result (List View × Option GoError) → Result (List DbufVal × Option GoError)
values m = m >>= λ p. ok (map (λ (v : View). v.val) p.0, p.1)

abbrev pub returned : Result DecodedSequence → Result (List DbufVal × Option GoError)
returned m = m >>= λ r. ok (r.seq, r.error)

bind-agree {ℓ κ ι} :
    {A : Type ℓ} {B : Type κ} {C : Type ι} (m : Result A) (f : A → Result B) (g : B → Result C)
    → (m >>= f >>= g) ≡ (m >>= λ a. f a >>= g)
bind-agree (ok a) f g = refl
bind-agree (err e) f g = refl
bind-agree panic f g = refl
bind-agree stuck f g = refl

bind-same {ℓ κ} :
    {A : Type ℓ} {B : Type κ} (m : Result A) (f g : A → Result B)
    → ((a : A) → f a ≡ g a)
    → (m >>= f) ≡ (m >>= g)
bind-same (ok a) f g h = h a
bind-same (err e) f g h = refl
bind-same panic f g h = refl
bind-same stuck f g h = refl

-- One round of both loops, if they agree from there on.
round-agree :
    (fuel : ℕ) (seq : List View) (r : Decoded) (d' : DecoderState)
    → ((seq' : List View) (d'' : DecoderState)
        → values (views_loop fuel seq' d'')
          ≡ returned (decode_loop fuel (map (λ (v : View). v.val) seq') d''))
    → values (views_round (r, d') seq (views_loop fuel))
      ≡ returned (decode_round (r, d') (map (λ (v : View). v.val) seq) (decode_loop fuel))
round-agree fuel seq r d' onward = elim (Option-cases r.error) [
  | inl e ↦ rw e (
      onward (seq ++ view_of r d' ∷ []) d'
      ∙ ap (λ vals. returned (decode_loop fuel vals d'))
          (map-append (λ (v : View). v.val) seq (view_of r d' ∷ [])))
  | inr (x, e) ↦ rw e refl
]

views_loop-decode_loop :
    (fuel : ℕ) (seq : List View) (d : DecoderState)
    → values (views_loop fuel seq d) ≡ returned (decode_loop fuel (map (λ (v : View). v.val) seq) d)
unfolding views_loop decode_loop
views_loop-decode_loop zero seq d = elim (Bool-cases (ltb d.index (length d.bytes))) [
  | inl e ↦ rw e refl
  | inr e ↦ rw e refl
]
views_loop-decode_loop (suc fuel) seq d = elim (Bool-cases (ltb d.index (length d.bytes))) [
  | inl e ↦ rw e (
      bind-agree (decode d) _ _
      ∙ bind-same (decode d) _ _
          (λ (r, d'). round-agree fuel seq r d' (views_loop-decode_loop fuel))
      ∙ sym (bind-agree (decode d) _ _))
  | inr e ↦ rw e refl
]

-- The values that the protected headers are decoded to with their places are those of `DecodeSequence`,
-- with the same error.
pub decode_views-decode_sequence :
    (d : DecoderState) → values (decode_views d) ≡ returned (decode_sequence d)
unfolding decode_views decode_sequence
decode_views-decode_sequence d = views_loop-decode_loop (length d.bytes - d.index) [] d
