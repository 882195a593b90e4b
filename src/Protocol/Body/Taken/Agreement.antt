-- ===== src/Protocol/Body/Taken/Agreement.antt =====
-- The two accounts of the body agree, and no call gives bytes back to the stream.
use dbuf_demo_go.Common.{
  ◌∙◌, ℕ, zero, suc, ◌+◌, ◌≤◌, ◌≡◌, refl, sym, Bool-cases, inl, inr, arith, Bool, true, false, ◌&&◌,
  ◌||◌, if◌then◌else◌, ltb, leb, List, [], length, length-drop,
}
use dbuf_demo_go.Basic.Val.{InitialDecode, zero_initial, DbufVal, type_has_slice}
use dbuf_demo_go.Basic.Error.{Result, ok, err, panic, stuck, GoError}
use dbuf_demo_go.Basic.Error
use dbuf_demo_go.Basic.Decode.{decode_initial}
use dbuf_demo_go.Basic.Check.{CheckCompleteState, total_bytes_read}
use dbuf_demo_go.Protocol.Names
use dbuf_demo_go.Protocol.Reader.{Reader, read_full, map_err}
use dbuf_demo_go.Protocol.Stream.{decoder, part_error}
use dbuf_demo_go.Protocol.Action.{Action, continue}
use dbuf_demo_go.Protocol.Body.{
  sized, BodyLengthProperties, Headers, Checked, check_value, check_rest, check_slice,
  read_check_value, body_loop, read_body, read_footer, get_content, get_single_body, check_state,
  add_value, body_fuel, has_footer, get_body_length_properties, get_single_body_of,
}
use dbuf_demo_go.Protocol.Body.Taken.{
  take_full, wrap_err, take_rest, take_slice, take_check_value, take_values, take_body, take_footer,
  take_content, take_single_body,
}

-- A result with the reader that is left, as one value.
abbrev with_left {ℓ κ} : {A : Type ℓ} {B : Type κ} → (A → Reader → B) → Result A × Reader → Result B
with_left f (ok a, r) = ok (f a r)
with_left f (err e, r) = err e
with_left f (panic, r) = panic
with_left f (stuck, r) = stuck

-- The call that was given the reader `r` has the result `y`, and leaves no more than there was.
abbrev Agrees {ℓ κ} :
    {A : Type ℓ} {B : Type κ} → (A → Reader → B) → Reader → Result A × Reader → Result B → Type κ
Agrees f r x y = (with_left f x ≡ y) × (length x.1.bytes ≤ length r.bytes)

bind-Agrees {ℓ κ ι μ} :
    {A : Type ℓ} {B : Type κ} {C : Type ι} {D : Type μ} (f : A → Reader → C) (g : B → Reader → D)
    (k : A → Action Reader B) (k' : C → Result D) (r : Reader) (x : Result A × Reader)
    (y : Result C)
    → Agrees f r x y
    → ((a : A) (r' : Reader) → Agrees g r' (k a r') (k' (f a r')))
    → Agrees g r (continue k x.0 x.1) (Error.◌>>=◌ y k')
bind-Agrees f g k k' r (ok a, r') y h next =
    let (same, less) = next a r' in rw (sym h.0) (same, omega (arith, less, h.1))
bind-Agrees f g k k' r (err e, r') y h next = rw (sym h.0) (refl, h.1)
bind-Agrees f g k k' r (panic, r') y h next = rw (sym h.0) (refl, h.1)
bind-Agrees f g k k' r (stuck, r') y h next = rw (sym h.0) (refl, h.1)

-- A part that does not read.
lift-Agrees {ℓ κ ι} :
    {A : Type ℓ} {B : Type κ} {D : Type ι} (g : B → Reader → D) (k : A → Action Reader B)
    (k' : A → Result D) (r : Reader) (m : Result A)
    → ((a : A) → Agrees g r (k a r) (k' a))
    → Agrees g r (continue k m r) (Error.◌>>=◌ m k')
lift-Agrees g k k' r (ok a) next = next a
lift-Agrees g k k' r (err e) next = (refl, omega arith)
lift-Agrees g k k' r panic next = (refl, omega arith)
lift-Agrees g k k' r stuck next = (refl, omega arith)

-- The end, if it does not read.
end-Agrees {ℓ κ} :
    {A : Type ℓ} {B : Type κ} (f : A → B) (g : A → Reader → B) (r : Reader) (m : Result A)
    (y : Result B)
    → with_left g (m, r) ≡ y
    → Agrees g r (m, r) y
end-Agrees f g r m y same = (same, omega arith)

if-Agrees {ℓ κ} :
    {A : Type ℓ} {B : Type κ} (f : A → Reader → B) (r : Reader) (b : Bool) (m m' : Action Reader A)
    (y y' : Result B)
    → Agrees f r (m r) y
    → Agrees f r (m' r) y'
    → Agrees f r ((if b then m else m') r) (if b then y else y')
if-Agrees f r true m m' y y' h h' = h
if-Agrees f r false m m' y y' h h' = h'

wrap-Agrees {ℓ κ} :
    {A : Type ℓ} {B : Type κ} (f : A → Reader → B) (e : GoError → GoError) (r : Reader)
    (x : Result A × Reader) (y : Result B)
    → Agrees f r x y
    → Agrees f r (map_err e x.0, x.1) (map_err e y)
wrap-Agrees f e r (ok a, r') y h = rw (sym h.0) (refl, h.1)
wrap-Agrees f e r (err x, r') y h = rw (sym h.0) (refl, h.1)
wrap-Agrees f e r (panic, r') y h = rw (sym h.0) (refl, h.1)
wrap-Agrees f e r (stuck, r') y h = rw (sym h.0) (refl, h.1)

abbrev pair {ℓ} : {A : Type ℓ} → A → Reader → A × Reader
pair a r = (a, r)

take_full-Agrees : (n : ℕ) (r : Reader) → Agrees pair r (take_full n r) (read_full n r)
unfolding take_full read_full
take_full-Agrees n r = elim (Bool-cases (leb n (length r.bytes))) [
  | inl h ↦ rw h (refl, omega (arith, length-drop n r.bytes))
  | inr h ↦ rw h (refl, omega arith)
]

abbrev rested :
    InitialDecode × ℕ × CheckCompleteState
    → Reader
    → InitialDecode × Reader × ℕ × CheckCompleteState
rested (a, code, s) r = (a, r, code, s)

abbrev checked : DbufVal × Bool → Reader → Checked
checked (v, last) r = (v, last, r)

take_rest-Agrees :
    (a : InitialDecode) (r : Reader) (code : ℕ) (s : CheckCompleteState)
    → Agrees rested r (take_rest a code s r) (check_rest a r code s)
unfolding take_rest check_rest
take_rest-Agrees a r code s =
    if-Agrees rested r (ltb 0 a.missing_extra_length) _ _ _ _
      (bind-Agrees pair rested _ _ r (take_full a.missing_extra_length r)
        (read_full a.missing_extra_length r) (take_full-Agrees a.missing_extra_length r)
        (λ more r'.
          lift-Agrees rested _ _ r'
            (check_value (record s { read_state = record (s.read_state) { initial = a } }) more)
            (λ c.
              lift-Agrees rested _ _ r' (decode_initial (decoder more) a)
                (λ d. (refl, omega arith)))))
      (refl, omega arith)

sized-checked :
    (max_size : ℕ) (s : CheckCompleteState) (v : DbufVal × Bool) (r : Reader)
    → with_left checked (sized max_size s v, r) ≡ sized max_size s (checked v r)
sized-checked max_size s v r = elim (Bool-cases (ltb max_size (total_bytes_read s.read_state))) [
  | inl h ↦ rw h refl
  | inr h ↦ rw h refl
]

take_slice-Agrees :
    (max_size : ℕ) (a : InitialDecode) (r : Reader) (code : ℕ) (s : CheckCompleteState)
    → Agrees checked r (take_slice max_size a code s r) (check_slice max_size a r code s)
unfolding take_slice check_slice
take_slice-Agrees max_size a r code s =
    if-Agrees checked r (type_has_slice a) _ _ _ _
      (if-Agrees checked r (ltb max_size (total_bytes_read s.read_state + a.value)) _ _ _ _
        (refl, omega arith)
        (bind-Agrees pair checked _ _ r (take_full a.value r) (read_full a.value r)
          (take_full-Agrees a.value r)
          (λ more r'.
            lift-Agrees checked _ _ r' (check_value s more)
              (λ c. (sized-checked max_size c.1 _ r', omega arith)))))
      (sized-checked max_size s _ r, omega arith)

take_check_value-Agrees :
    (s : CheckCompleteState) (max_size : ℕ) (r : Reader)
    → Agrees checked r (take_check_value s max_size r) (read_check_value r s max_size)
unfolding take_check_value read_check_value
take_check_value-Agrees s max_size r =
    bind-Agrees pair checked _ _ r (take_full 1 r) (read_full 1 r) (take_full-Agrees 1 r)
      (λ first r₁. lift-Agrees checked _ _ r₁ (check_value s first) (λ c.
        lift-Agrees checked _ _ r₁ (decode_initial (decoder first) zero_initial) (λ d.
          bind-Agrees rested checked _ _ r₁ (take_rest d.0 c.0 c.1 r₁) (check_rest d.0 r₁ c.0 c.1)
            (take_rest-Agrees d.0 r₁ c.0 c.1)
            (λ all r₂. take_slice-Agrees max_size all.0 r₂ all.1 all.2))))

take_values-Agrees :
    (fuel : ℕ) (has_length : Bool) (s : CheckCompleteState) (max_size : ℕ) (body : List DbufVal)
    (r : Reader)
    → Agrees pair r
        (take_values fuel has_length s max_size body r)
        (body_loop fuel has_length s max_size body r)
unfolding take_values body_loop
take_values-Agrees zero has_length s max_size body r = (refl, omega arith)
take_values-Agrees (suc fuel) has_length s max_size body r =
    bind-Agrees checked pair _ _ r
      (wrap_err (part_error Names.body) (take_check_value s max_size) r)
      (map_err (part_error Names.body) (read_check_value r s max_size))
      (wrap-Agrees checked (part_error Names.body) r (take_check_value s max_size r)
        (read_check_value r s max_size) (take_check_value-Agrees s max_size r))
      (λ v r'.
        if-Agrees pair r' v.1 _ _ _ _ (refl, omega arith)
          (take_values-Agrees fuel has_length s max_size (add_value has_length body v.0) r'))

take_body-Agrees :
    (clp : BodyLengthProperties) (max_size : ℕ) (r : Reader)
    → Agrees pair r (take_body clp max_size r) (read_body r clp max_size)
unfolding take_body read_body
take_body-Agrees clp max_size r =
    take_values-Agrees (body_fuel r) clp.has_length
      (check_state clp.has_length clp.length clp.has_indefinite_length) max_size [] r

take_footer-Agrees : (r : Reader) → Agrees pair r (take_footer r) (read_footer r)
unfolding take_footer read_footer
take_footer-Agrees r =
    let s = check_state true Names.max_header_size false in
    bind-Agrees checked pair _ _ r
      (wrap_err (part_error Names.footer) (take_check_value s Names.max_header_size) r)
      (map_err (part_error Names.footer) (read_check_value r s Names.max_header_size))
      (wrap-Agrees checked (part_error Names.footer) r (take_check_value s Names.max_header_size r)
        (read_check_value r s Names.max_header_size)
        (take_check_value-Agrees s Names.max_header_size r))
      (λ v r'. (refl, omega arith))

take_content-Agrees :
    (clp : BodyLengthProperties) (max_size : ℕ) (r : Reader)
    → Agrees pair r (take_content clp max_size r) (get_content r clp max_size)
unfolding take_content get_content
take_content-Agrees clp max_size r =
    if-Agrees pair r clp.has_value _ _ _ _ (refl, omega arith)
      (if-Agrees pair r ((has_footer clp || clp.has_value) && ltb 0 max_size) _ _ _ _
        (if-Agrees pair r (clp.has_length && ltb max_size clp.length) _ _ _ _ (refl, omega arith)
          (bind-Agrees pair pair _ _ r (take_body clp max_size r) (read_body r clp max_size)
            (take_body-Agrees clp max_size r)
            (λ b r'.
              bind-Agrees pair pair _ _ r' (take_footer r') (read_footer r') (take_footer-Agrees r')
                (λ f r''. (refl, omega arith)))))
        (refl, omega arith))

abbrev value_only {ℓ} : {A : Type ℓ} → A → Reader → A
value_only a r = a

with_left-value {ℓ} : {A : Type ℓ} (x : Result A × Reader) → with_left value_only x ≡ x.0
with_left-value (ok a, r) = refl
with_left-value (err e, r) = refl
with_left-value (panic, r) = refl
with_left-value (stuck, r) = refl

take_single_body-Agrees :
    (headers : Headers) (max_size : ℕ) (r : Reader)
    → Agrees value_only r (take_single_body headers max_size r) (get_single_body r headers max_size)
unfolding take_single_body get_single_body
take_single_body-Agrees headers max_size r =
    lift-Agrees value_only _ _ r (get_body_length_properties headers) (λ clp.
      bind-Agrees pair value_only _ _ r (take_content clp max_size r) (get_content r clp max_size)
        (take_content-Agrees clp max_size r)
        (λ c r'. (with_left-value (get_single_body_of c.body, r'), omega arith)))

-- With the reader as a state `GetSingleBody` has the result that it has without, and after an error
-- too it leaves no more of the stream than there was.
pub take_single_body-left :
    (headers : Headers) (max_size : ℕ) (r : Reader)
    → ((take_single_body headers max_size r).0 ≡ get_single_body r headers max_size)
      × (length (take_single_body headers max_size r).1.bytes ≤ length r.bytes)
take_single_body-left headers max_size r =
    let (same, less) = take_single_body-Agrees headers max_size r in
    (sym (with_left-value (take_single_body headers max_size r)) ∙ same, less)
