-- ===== src/Protocol/Body/Size.antt =====
-- The size of what `GetContent` keeps of a body.
use dbuf_demo_go.Common.{ℕ, zero, suc, ◌≤◌, ◌≡◌, Bool, false, ◌&&◌, ◌||◌, not}
use dbuf_demo_go.Common.{ltb, List, [], ◌∷◌, length, All, All-append}
use dbuf_demo_go.Common.{Bool-cases, inl, inr}
use dbuf_demo_go.Basic.Registry
use dbuf_demo_go.Basic.Val
use dbuf_demo_go.Basic.Val.{DbufVal, contents}
use dbuf_demo_go.Basic.Compare.{equal}
use dbuf_demo_go.Basic.Check.{CheckCompleteState}
use dbuf_demo_go.Protocol.Names
use dbuf_demo_go.Protocol.Reader.{Reader, map_err, map_err-ok}
use dbuf_demo_go.Protocol.Reader.{Gives, if-Gives, bind-Gives, gives_ok}
use dbuf_demo_go.Protocol.Stream.{part_error}
use dbuf_demo_go.Protocol.Body.{read_check_value, BodyLengthProperties, add_value, body_loop}
use dbuf_demo_go.Protocol.Body.{body_fuel, read_body, read_footer, has_footer, get_content}
use dbuf_demo_go.Protocol.Body.{check_state, ContentProperties}
use dbuf_demo_go.Protocol.Body.Content.{read_check_value-bounded}

abbrev pub IsSmall : ℕ → DbufVal → Type 0
IsSmall max_size v = length (contents v.slice) ≤ max_size

add_value-IsSmall :
    (has_length : Bool) (max_size : ℕ) (body : List DbufVal) (v : DbufVal)
    → All (IsSmall max_size) body
    → IsSmall max_size v
    → All (IsSmall max_size) (add_value has_length body v)
unfolding add_value
add_value-IsSmall has_length max_size body v h small =
    elim (Bool-cases (has_length || not (equal v (Val.registry Registry.end_marker)))) [
      | inl e ↦ rw e (All-append (IsSmall max_size) body (v ∷ []) h (small, tt))
      | inr e ↦ rw e h
    ]

body_loop-IsSmall :
    (fuel : ℕ) (has_length : Bool) (s : CheckCompleteState) (max_size : ℕ) (body : List DbufVal)
    (r : Reader)
    → All (IsSmall max_size) body
    → Gives (λ c. All (IsSmall max_size) c.0) (body_loop fuel has_length s max_size body r)
unfolding body_loop
body_loop-IsSmall zero has_length s max_size body r h = tt
body_loop-IsSmall (suc fuel) has_length s max_size body r h =
    bind-Gives _ (map_err (part_error Names.body) (read_check_value r s max_size)) _ (λ v e.
      let bounded = gives_ok _ _ v (read_check_value-bounded r s max_size) (map_err-ok _ _ v e) in
      let h' = add_value-IsSmall has_length max_size body v.0 h bounded.0 in
      if-Gives _ v.1 _ _ (λ last. h')
        (λ more.
          body_loop-IsSmall fuel has_length s max_size (add_value has_length body v.0) v.2 h'))

-- Every value of a body that `GetContent` has read from the stream has a slice of at most
-- `maxBufferSize` bytes.
pub get_content-IsSmall :
    (r : Reader) (clp : BodyLengthProperties) (max_buffer_size : ℕ)
    → clp.has_value ≡ false
    → Gives (λ c. All (IsSmall max_buffer_size) (c.0.body)) (get_content r clp max_buffer_size)
unfolding get_content read_body
get_content-IsSmall r clp max_buffer_size no_value =
    if-Gives P clp.has_value _ _ (λ v. absurd cc)
      (λ v.
        if-Gives P ((has_footer clp || clp.has_value) && ltb 0 max_buffer_size) _ _
          (λ b.
            if-Gives P (clp.has_length && ltb max_buffer_size clp.length) _ _ (λ l. tt)
              (λ l. bind-Gives P (read_body r clp max_buffer_size) _ (λ c e.
                bind-Gives P (read_footer c.1) _ (λ f e'.
                  gives_ok (λ c'. All (IsSmall max_buffer_size) c'.0) _ c
                    (body_loop-IsSmall (body_fuel r) clp.has_length
                      (check_state clp.has_length clp.length clp.has_indefinite_length)
                      max_buffer_size [] r tt)
                    e))))
          (λ b. tt))
  where
    P : ContentProperties × Reader → Type 0
    P c = All (IsSmall max_buffer_size) (c.0.body)
