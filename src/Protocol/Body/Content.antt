-- ===== src/Protocol/Body/Content.antt =====
-- `GetContent`: its loop ends, and what it takes for the body is bounded.
use dbuf_demo_go.Common.{ℕ, zero, suc, ◌+◌, ◌≤◌, ◌<◌, ◌≡◌, refl, arith}
use dbuf_demo_go.Common.{Bool, true, false, ◌&&◌, ◌||◌, ltb, ltb→le}
use dbuf_demo_go.Common.{List, [], length, IsU64}
use dbuf_demo_go.Basic.Val.{InitialDecode, zero_initial, contents, get_dbuf_val, type_has_slice}
use dbuf_demo_go.Basic.Val.{DbufVal}
use dbuf_demo_go.Basic.Decode.{decode_initial}
use dbuf_demo_go.Basic.Check.{CheckCompleteState, total_bytes_read}
use dbuf_demo_go.Protocol.Names
use dbuf_demo_go.Protocol.Reader.{Reader, read_full, Returns, bind-Returns, if-Returns}
use dbuf_demo_go.Protocol.Reader.{read_full-length, read_full_left, map_err-Returns, map_err-ok}
use dbuf_demo_go.Protocol.Reader.{Gives, Gives-mono, if-Gives, bind-Gives, gives_ok}
use dbuf_demo_go.Protocol.Stream.{decoder}
use dbuf_demo_go.Protocol.Body.{check_value, check_rest, check_slice, read_check_value, sized}
use dbuf_demo_go.Protocol.Body.{Checked, BodyLengthProperties, check_state, add_value, body_loop}
use dbuf_demo_go.Protocol.Body.{body_fuel, read_body, read_footer, has_footer, get_content}
use dbuf_demo_go.Protocol.Body.Bounds.{HasMore}
use dbuf_demo_go.Protocol.Body.Value.{read_check_value-Returns}

-- A value of at most `max_size` bytes, in front of at most `left` bytes of the stream.
abbrev Fits : ℕ → ℕ → Checked → Type 0
Fits max_size left (v, is_last, r) =
    (length (contents v.slice) ≤ max_size) × (length r.bytes ≤ left)

sized-Fits :
    (max_size left : ℕ) (s : CheckCompleteState) (v : Checked)
    → Fits max_size left v
    → Gives (Fits max_size left) (sized max_size s v)
sized-Fits max_size left s v h =
    if-Gives (Fits max_size left) (ltb max_size (total_bytes_read s.read_state)) _ _ (λ m. tt)
      (λ m. h)

check_slice-Fits :
    (max_size : ℕ) (a : InitialDecode) (r : Reader) (code : ℕ) (s : CheckCompleteState)
    → Gives (Fits max_size (length r.bytes)) (check_slice max_size a r code s)
unfolding check_slice get_dbuf_val
check_slice-Fits max_size a r code s =
    if-Gives P (type_has_slice a) _ _
      (λ m.
        if-Gives P (ltb max_size (total_bytes_read s.read_state + a.value)) _ _ (λ l. tt)
          (λ l. bind-Gives P (read_full a.value r) _ (λ more e.
            bind-Gives P (check_value s more.0) _ (λ c e'.
              sized-Fits max_size (length r.bytes) c.1 _ (
                omega (arith, read_full-length a.value r more e, ltb→le max_size _ l),
                omega (arith, read_full_left a.value r more e),
              )))))
      (λ m. sized-Fits max_size (length r.bytes) s _ (omega arith, omega arith))
  where
    P : Checked → Type 0
    P = Fits max_size (length r.bytes)

check_rest_left :
    (a : InitialDecode) (r : Reader) (code : ℕ) (s : CheckCompleteState)
    → Gives (λ x. length (x.1.bytes) ≤ length r.bytes) (check_rest a r code s)
unfolding check_rest
check_rest_left a r code s =
    if-Gives _ (ltb 0 a.missing_extra_length) _ _
      (λ m. bind-Gives _ (read_full a.missing_extra_length r) _ (λ more e.
        bind-Gives _ (check_value _ more.0) _ (λ c e'.
          bind-Gives _ (decode_initial (decoder more.0) a) _
            (λ d e₃. omega (arith, read_full_left a.missing_extra_length r more e)))))
      (λ m. omega arith)

-- The value that `ReadCheckValue` returns has a slice of at most `maxSize` bytes, and at least one
-- byte of the stream has been read.
pub read_check_value-bounded :
    (r : Reader) (s : CheckCompleteState) (max_size : ℕ)
    → Gives
        (λ v. (length (contents (v.0.slice)) ≤ max_size) × (length (v.2.bytes) < length r.bytes))
        (read_check_value r s max_size)
unfolding read_check_value
read_check_value-bounded r s max_size = bind-Gives _ (read_full 1 r) _ (λ first e.
    bind-Gives _ (check_value s first.0) _ (λ c e'.
      bind-Gives _ (decode_initial (decoder first.0) zero_initial) _ (λ d e₃.
        bind-Gives _ (check_rest d.0 first.1 c.0 c.1) _ (λ x e₄.
          let left =
            gives_ok (λ y. length (y.1.bytes) ≤ length (first.1.bytes)) _ x
              (check_rest_left d.0 first.1 c.0 c.1) e₄ in
          Gives-mono _ _ (check_slice max_size x.0 x.1 x.2 x.3)
            (λ v f. (f.0, omega (arith, f.1, left, read_full_left 1 r first e)))
            (check_slice-Fits max_size x.0 x.1 x.2 x.3)))))

-- The loop of `GetContent` returns if it has fuel for each byte of the stream.
body_loop-Returns :
    (fuel : ℕ) (has_length : Bool) (s : CheckCompleteState) (max_size : ℕ) (body : List DbufVal)
    (r : Reader)
    → HasMore 5 s
    → length r.bytes < fuel
    → Returns (body_loop fuel has_length s max_size body r)
unfolding body_loop
body_loop-Returns zero has_length s max_size body r h l = absurd (omega arith)
body_loop-Returns (suc fuel) has_length s max_size body r h l =
    bind-Returns _ _
      (map_err-Returns _ (read_check_value r s max_size) (read_check_value-Returns r s max_size h))
      (λ v e.
        let bounded = gives_ok _ _ v (read_check_value-bounded r s max_size) (map_err-ok _ _ v e) in
        if-Returns v.1 _ _ (λ last. tt)
          (λ more.
            body_loop-Returns fuel has_length s max_size (add_value has_length body v.0) v.2 h
              (omega (arith, bounded.1, l))))

-- The states that the body and the footer start from.
check_state-HasMore :
    (use_length : Bool) (total : ℕ) (use_end_marker : Bool)
    → IsU64 total
    → (use_length ≡ true → 5 < total)
    → HasMore 5 (check_state use_length total use_end_marker)
check_state-HasMore use_length total use_end_marker small long = record {
  consistent = record {
    ordered = tt;
    counted = refl;
    open_slice = λ m. absurd cc;
    inside = omega arith;
    small = omega arith;
    initial_value = omega arith;
    length_left = small;
  };
  more = long;
}

read_footer-Returns : (r : Reader) → Returns (read_footer r)
unfolding read_footer
read_footer-Returns r =
    bind-Returns _ _
      (map_err-Returns _ _ (
        read_check_value-Returns r (check_state true Names.max_header_size false)
          Names.max_header_size
          (check_state-HasMore true Names.max_header_size false (omega arith) (λ u. omega arith))))
      (λ v e. tt)

-- `GetContent` returns on every reader, with a value or an error: its loop ends, and no call in it
-- panics. The length in `clp` is a uint64, and if it is that of the body, it is more than 5.
pub get_content-Returns :
    (r : Reader) (clp : BodyLengthProperties) (max_buffer_size : ℕ)
    → IsU64 clp.length
    → (clp.has_length ≡ true → 5 < clp.length)
    → Returns (get_content r clp max_buffer_size)
unfolding get_content read_body
get_content-Returns r clp max_buffer_size small long =
    if-Returns clp.has_value _ _ (λ v. tt)
      (λ v.
        if-Returns ((has_footer clp || clp.has_value) && ltb 0 max_buffer_size) _ _
          (λ b.
            if-Returns (clp.has_length && ltb max_buffer_size clp.length) _ _ (λ l. tt)
              (λ l.
                bind-Returns _ _
                  (body_loop-Returns (body_fuel r) clp.has_length _ max_buffer_size [] r
                    (check_state-HasMore clp.has_length clp.length clp.has_indefinite_length small
                      long)
                    (omega arith))
                  (λ c e. bind-Returns _ _ (read_footer-Returns c.1) (λ f e'. tt))))
          (λ b. tt))
