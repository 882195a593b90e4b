-- ===== src/Protocol/Stream/Header.antt =====
-- The header behind its initial: it is read without a panic, and so is the whole start of a stream.
use dbuf_demo_go.Common.{ℕ, ◌≡◌, sym, subst, arith, Bool}
use dbuf_demo_go.Common.{ltb, ◌==◌, Option, none, some}
use dbuf_demo_go.Common.{List, Bytes, length}
use dbuf_demo_go.Basic.Val.{InitialDecode, DbufVal}
use dbuf_demo_go.Basic.Error.{Result, ◌>>=◌, GoError}
use dbuf_demo_go.Basic.Decode.{decode_sequence}
use dbuf_demo_go.Basic.Decode.Bounds.{decode_sequence_returns}
use dbuf_demo_go.Basic.Check.Invariant.{IsConsistent}
use dbuf_demo_go.Basic.Check.Complete.{check_complete_returns}
use dbuf_demo_go.Basic.Code
use dbuf_demo_go.Protocol.Names
use dbuf_demo_go.Protocol.Reader.{Reader, Returns, bind-Returns, if-Returns}
use dbuf_demo_go.Protocol.Reader.{gives_ok}
use dbuf_demo_go.Protocol.Stream.{decoder, read_stream_group}
use dbuf_demo_go.Protocol.Stream.{read_header_initial, HeaderParams, header_check, header_checked}
use dbuf_demo_go.Protocol.Stream.{
  header_keys, header_result, header_params, parse_header, get_header_params,
}
use dbuf_demo_go.Protocol.Stream.Returns.{IsHeader, part-Returns, part-length}
use dbuf_demo_go.Protocol.Stream.Returns.{
  read_stream_group-Returns, read_header_initial-Returns, read_header_initial-IsHeader,
}

-- The state for a header starts in order.
header_check-IsConsistent : (a : InitialDecode) → IsHeader a → IsConsistent (header_check a a.value)
header_check-IsConsistent a h = record {
  ordered = (omega arith, omega (arith, h.1), tt);
  counted = ground arith;
  open_slice = λ e. absurd cc;
  inside = omega arith;
  small = omega arith;
  initial_value = omega arith;
  length_left = omega (arith, h.1);
}

header_result-Returns :
    (a : InitialDecode) (buf : Bytes) (ps : List DbufVal) (e keys : Option GoError)
    → Returns (header_result a buf ps e keys)
header_result-Returns a buf ps (some e) keys = tt
header_result-Returns a buf ps none (some e) = tt
header_result-Returns a buf ps none none = tt

parsed-Returns :
    (a : InitialDecode) (buf : Bytes)
    → Returns (decode_sequence (decoder buf) >>= header_params a buf)
parsed-Returns a buf =
    let (d, run) = decode_sequence_returns (decoder buf) in
    rw run (header_result-Returns a buf d.seq d.error (header_keys a d.seq))

header_checked-Returns {ℓ} :
    {A : Type ℓ} (code : ℕ) (rest : Result A) → Returns rest → Returns (header_checked code rest)
unfolding header_checked
header_checked-Returns code rest h =
    if-Returns (code == Code.continue) _ _ (λ c. tt)
      (λ c. if-Returns (code == Code.done) _ _ (λ d. h) (λ d. tt))

parse_header-Returns :
    (a : InitialDecode) (buf : Bytes)
    → IsHeader a
    → length buf ≡ a.value
    → Returns (parse_header a buf)
unfolding parse_header
parse_header-Returns a buf h l =
    if-Returns (ltb 0 (length buf)) _ _
      (λ m.
        let (code, s', run, _, _, _) =
          check_complete_returns (header_check a (length buf)) buf
            (subst (λ n. IsConsistent (header_check a n)) (sym l) (header_check-IsConsistent a h))
            (omega (arith, h.1)) in
        rw run (header_checked-Returns code _ (parsed-Returns a buf)))
      (λ m. parsed-Returns a buf)

get_header_params-Returns :
    (r : Reader) (a : InitialDecode) → IsHeader a → Returns (get_header_params r a)
unfolding get_header_params
get_header_params-Returns r a h = bind-Returns _ _ (part-Returns Names.header a.value r) (λ read e.
    bind-Returns _ _ (parse_header-Returns a read.0 h (part-length Names.header a.value r read e))
      (λ params e'. tt))

-- `ReadHeaderInitial` and `GetHeaderParams` as the program calls them, one behind the other.
abbrev pub read_header : Reader → ℕ → Bool → Result (HeaderParams × Reader)
read_header r first_byte use_first_byte =
    read_header_initial r first_byte use_first_byte >>= λ h. get_header_params h.1 h.0

-- On every reader, `ReadStreamGroup`, `ReadHeaderInitial` on what it has found, and
-- `GetHeaderParams` on the initial that this gives all return: no read of their buffers is out of
-- bounds, and no loop of theirs goes on forever.
pub read_start-Returns :
    (r : Reader)
    → Returns (
        read_stream_group r >>= λ g.
        read_header_initial g.1 g.0.first_byte g.0.use_first_byte >>= λ h.
        get_header_params h.1 h.0)
read_start-Returns r = bind-Returns _ _ (read_stream_group-Returns r) (λ g e.
    bind-Returns _ _ (read_header_initial-Returns g.1 g.0.first_byte g.0.use_first_byte) (λ h e'.
      get_header_params-Returns h.1 h.0 (
        gives_ok (λ b. IsHeader b.0) _ h
          (read_header_initial-IsHeader g.1 g.0.first_byte g.0.use_first_byte) e')))
