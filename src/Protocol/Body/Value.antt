-- ===== src/Protocol/Body/Value.antt =====
-- `ReadCheckValue`: it returns, with a value that is not too large, and has read from the stream.
use dbuf_demo_go.Common.{ℕ, zero, suc, ◌+◌, ◌%◌, ◌≤◌, ◌≡◌, sym, subst, arith}
use dbuf_demo_go.Common.{ltb, leb, ltb→lt}
use dbuf_demo_go.Common.{Bytes, length, IsU32}
use dbuf_demo_go.Basic.Val.{InitialDecode, zero_initial, type_has_slice}
use dbuf_demo_go.Basic.Error.{ok}
use dbuf_demo_go.Basic.Decode.{DecoderState, decode_initial, start_initial, read_extra_value}
use dbuf_demo_go.Basic.Decode.{read_missing, resume_initial, shift_in, current, advance}
use dbuf_demo_go.Basic.Decode.Bounds.{read_missing-IsU32}
use dbuf_demo_go.Basic.Check.{CheckCompleteState, total_bytes_read}
use dbuf_demo_go.Basic.Check.Invariant.{IsConsistent}
use dbuf_demo_go.Protocol.Reader.{Reader, read_full, Returns, bind-Returns, if-Returns}
use dbuf_demo_go.Protocol.Reader.{read_full-Returns, read_full-length}
use dbuf_demo_go.Protocol.Reader.{Gives, if-Gives, bind-Gives, gives_ok}
use dbuf_demo_go.Protocol.Stream.{decoder}
use dbuf_demo_go.Protocol.Stream.Returns.{decode_initial-Returns}
use dbuf_demo_go.Protocol.Body.{check_value, check_rest, check_slice, read_check_value, sized}
use dbuf_demo_go.Protocol.Body.{Checked}
use dbuf_demo_go.Protocol.Body.Bounds.{HasMore, check_value-HasMore, check_value-Returns}

-- An initial as the decoder makes it.
abbrev IsInitial : InitialDecode → Type 0
IsInitial a = IsU32 a.value × (a.missing_extra_length ≤ 4)

read_missing_fewer : (m v : ℕ) (d : DecoderState) → (read_missing m v d).1 ≤ m
unfolding read_missing
read_missing_fewer zero v d = omega arith
read_missing_fewer (suc m) v d =
    ground (arith, read_missing_fewer m (shift_in v (current d)) (advance d))

start_initial-IsInitial :
    (b : ℕ) (d : DecoderState) (i : InitialDecode) → IsInitial i → IsInitial (start_initial b d i).0
unfolding start_initial read_extra_value
start_initial-IsInitial b d i h = ground (
  arith,
  read_missing_fewer 1 (b % 8 % 4) d,
  read_missing_fewer 2 (b % 8 % 2) d,
  read_missing_fewer 3 0 d,
  read_missing_fewer 4 0 d,
  read_missing-IsU32 1 (b % 8 % 4) d (omega arith),
  read_missing-IsU32 2 (b % 8 % 2) d (omega arith),
  read_missing-IsU32 3 0 d (omega arith),
  read_missing-IsU32 4 0 d (omega arith),
)

resume_initial-IsInitial :
    (d : DecoderState) (i : InitialDecode) → IsInitial i → IsInitial (resume_initial d i).0
unfolding resume_initial
resume_initial-IsInitial d i h = (
  read_missing-IsU32 i.missing_extra_length i.value d h.0,
  omega (arith, read_missing_fewer i.missing_extra_length i.value d, h.1),
)

decode_initial-IsInitial :
    (d : DecoderState) (i : InitialDecode)
    → IsInitial i
    → Gives (λ r. IsInitial r.0) (decode_initial d i)
unfolding decode_initial
decode_initial-IsInitial d i h =
    if-Gives _ (ltb 0 i.missing_extra_length) _ _ (λ m. resume_initial-IsInitial d i h)
      (λ m.
        if-Gives _ (leb (length d.bytes) d.index) _ _ (λ e. tt)
          (λ e. start_initial-IsInitial (current d) (advance d) i h))

decoded-IsInitial :
    (b : Bytes) (a : InitialDecode) (r : InitialDecode × DecoderState)
    → IsInitial a
    → decode_initial (decoder b) a ≡ ok r
    → IsInitial r.0
decoded-IsInitial b a r h e =
    gives_ok (λ r'. IsInitial r'.0) _ r (decode_initial-IsInitial (decoder b) a h) e

zero-IsInitial : IsInitial zero_initial
zero-IsInitial = (omega arith, omega arith)

-- The check of `n` bytes that are read from the stream.
check_read :
    (m n : ℕ) (s : CheckCompleteState) (r : Reader) (a : Bytes × Reader)
    → HasMore (m + n) s
    → IsU32 n
    → read_full n r ≡ ok a
    → Returns (check_value s a.0)
      × ((c : ℕ × CheckCompleteState) → check_value s a.0 ≡ ok c → HasMore m c.1)
check_read m n s r a h small e =
    check_value-HasMore m s a.0 (subst (λ l. HasMore (m + l) s) (sym (read_full-length n r a e)) h)
      (subst IsU32 (sym (read_full-length n r a e)) small)

-- An initial that the check goes on with.
resumed :
    (n : ℕ) (s : CheckCompleteState) (a : InitialDecode)
    → IsU32 a.value
    → HasMore n s
    → HasMore n (record s { read_state = record (s.read_state) { initial = a } })
resumed n s a small h =
    let c = h.consistent in
    record {
      consistent = record {
        ordered = c.ordered;
        counted = c.counted;
        open_slice = c.open_slice;
        inside = c.inside;
        small = c.small;
        initial_value = small;
        length_left = c.length_left;
      };
      more = h.more;
    }

fewer : (m n : ℕ) (s : CheckCompleteState) → n ≤ m → HasMore m s → HasMore n s
fewer m n s l h = record { consistent = h.consistent; more = λ u. omega (arith, h.more u) }

-- What the rest of the initial leaves: an initial, and a state that is in order.
abbrev Rested : InitialDecode × Reader × ℕ × CheckCompleteState → Type 0
Rested x = IsInitial x.0 × HasMore 0 x.3

module _ (a : InitialDecode) (r : Reader) (code : ℕ) (s : CheckCompleteState) (i : IsInitial a)
    (h : HasMore 4 s) where
  ready :
      HasMore
        (0 + a.missing_extra_length)
        (record s { read_state = record (s.read_state) { initial = a } })
  ready = resumed (0 + a.missing_extra_length) s a i.0 (fewer 4 _ s (omega (arith, i.1)) h)

  check_rest-Returns : Returns (check_rest a r code s)
  unfolding check_rest
  check_rest-Returns =
      if-Returns (ltb 0 a.missing_extra_length) _ _
        (λ m. bind-Returns _ _ (read_full-Returns a.missing_extra_length r) (λ more e.
          bind-Returns _ _ (check_read 0 _ _ r more ready (omega (arith, i.1)) e).0 (λ c e'.
            bind-Returns _ _
              (decode_initial-Returns more.0 a
                (omega (arith, read_full-length _ r more e, ltb→lt 0 _ m)))
              (λ d e₃. tt))))
        (λ m. tt)

  check_rest-Rested : Gives Rested (check_rest a r code s)
  unfolding check_rest
  check_rest-Rested =
      if-Gives Rested (ltb 0 a.missing_extra_length) _ _
        (λ m. bind-Gives Rested (read_full a.missing_extra_length r) _ (λ more e.
          bind-Gives Rested (check_value _ more.0) _ (λ c e'.
            bind-Gives Rested (decode_initial (decoder more.0) a) _ (λ d e₃. (
              decoded-IsInitial more.0 a d i e₃,
              (check_read 0 _ _ r more ready (omega (arith, i.1)) e).1 c e',
            )))))
        (λ m. (i, fewer 4 0 s (omega arith) h))

sized-Returns : (max_size : ℕ) (s : CheckCompleteState) (v : Checked) → Returns (sized max_size s v)
sized-Returns max_size s v =
    if-Returns (ltb max_size (total_bytes_read s.read_state)) _ _ (λ m. tt) (λ m. tt)

-- The check of a slice.
check_slice-Returns :
    (max_size : ℕ) (a : InitialDecode) (r : Reader) (code : ℕ) (s : CheckCompleteState)
    → IsInitial a
    → IsConsistent s
    → Returns (check_slice max_size a r code s)
unfolding check_slice
check_slice-Returns max_size a r code s i h =
    if-Returns (type_has_slice a) _ _
      (λ m.
        if-Returns (ltb max_size (total_bytes_read s.read_state + a.value)) _ _ (λ l. tt)
          (λ l. bind-Returns _ _ (read_full-Returns a.value r) (λ more e.
            bind-Returns _ _ (slice_value more e) (λ c e'. sized-Returns max_size c.1 _))))
      (λ m. sized-Returns max_size s _)
  where
    slice_value :
        (more : Bytes × Reader) → read_full a.value r ≡ ok more → Returns (check_value s more.0)
    slice_value more e =
        check_value-Returns s more.0 h (subst IsU32 (sym (read_full-length a.value r more e)) i.0)

-- On a consistent state that, if its length is in use, has more than 5 bytes left, `ReadCheckValue`
-- returns on every reader: an initial has at most 5 bytes, so that the length cannot end with it.
pub read_check_value-Returns :
    (r : Reader) (s : CheckCompleteState) (max_size : ℕ)
    → HasMore 5 s
    → Returns (read_check_value r s max_size)
unfolding read_check_value
read_check_value-Returns r s max_size h = bind-Returns _ _ (read_full-Returns 1 r) (λ first e.
    let checked = check_read 4 1 s r first (fewer 5 (4 + 1) s (omega arith) h) (omega arith) e in
    bind-Returns _ _ checked.0 (λ c e'.
      bind-Returns _ _
        (decode_initial-Returns first.0 zero_initial (omega (arith, read_full-length 1 r first e)))
        (λ d e₃.
          let i = decoded-IsInitial first.0 zero_initial d zero-IsInitial e₃ in
          let more = checked.1 c e' in
          bind-Returns _ _ (check_rest-Returns d.0 first.1 c.0 c.1 i more) (λ x e₄.
            let (i', k) = gives_ok Rested _ x (check_rest-Rested d.0 first.1 c.0 c.1 i more) e₄ in
            check_slice-Returns max_size x.0 x.1 x.2 x.3 i' k.consistent))))
