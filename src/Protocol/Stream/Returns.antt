-- ===== src/Protocol/Stream/Returns.antt =====
-- The start of a stream is read without a panic, whatever its bytes are.
use dbuf_demo_go.Common.{ℕ, ◌≤◌, ◌<◌, ◌≡◌, arith, Bool, true, false}
use dbuf_demo_go.Common.{ltb, leb, ◌==◌, ◌||◌, ltb→le, ltb→lt}
use dbuf_demo_go.Common.{[], ◌∷◌, Bytes, length}
use dbuf_demo_go.Basic.ParseType
use dbuf_demo_go.Basic.Val.{InitialDecode, zero_initial}
use dbuf_demo_go.Basic.Error.{ok}
use dbuf_demo_go.Basic.Decode.{decode_initial}
use dbuf_demo_go.Protocol.Names
use dbuf_demo_go.Protocol.Reader.{Reader, read_full, map_err, Returns, bind-Returns, if-Returns}
use dbuf_demo_go.Protocol.Reader.{
  Gives, if-Gives, bind-Gives, map_err-Returns, map_err-ok, read_full-Returns, read_full-length,
}
use dbuf_demo_go.Protocol.Stream.{decoder, part_error, read_rest, read_stream_group}
use dbuf_demo_go.Protocol.Stream.{header_initial, header_initial_from, read_header_initial}

-- A buffer that is not empty has an initial.
pub decode_initial-Returns :
    (b : Bytes) (a : InitialDecode) → 0 < length b → Returns (decode_initial (decoder b) a)
unfolding decode_initial
decode_initial-Returns [] a h = absurd (omega arith)
decode_initial-Returns (x ∷ b) a h =
    if-Returns (ltb 0 a.missing_extra_length) _ _ (λ m. tt)
      (λ m. if-Returns (leb (length (x ∷ b)) 0) _ _ (λ e. absurd (ground arith)) (λ e. tt))

-- The bytes that a part of the stream is made of, behind the wrapping of the error.
pub part-Returns : (name n : ℕ) (r : Reader) → Returns (map_err (part_error name) (read_full n r))
part-Returns name n r = map_err-Returns (part_error name) (read_full n r) (read_full-Returns n r)

pub part-length :
    (name n : ℕ) (r : Reader) (a : Bytes × Reader)
    → map_err (part_error name) (read_full n r) ≡ ok a
    → length a.0 ≡ n
part-length name n r a h = read_full-length n r a (map_err-ok (part_error name) (read_full n r) a h)

read_rest-Returns :
    (name : ℕ) (a : InitialDecode) (r : Reader)
    → 0 < a.missing_extra_length
    → Returns (read_rest name a r)
unfolding read_rest
read_rest-Returns name a r h =
    bind-Returns _ _ (part-Returns name a.missing_extra_length r) (λ more e.
      bind-Returns _ _
        (decode_initial-Returns more.0 a
          (omega (arith, part-length name a.missing_extra_length r more e)))
        (λ decoded e'. tt))

pub read_stream_group-Returns : (r : Reader) → Returns (read_stream_group r)
unfolding read_stream_group
read_stream_group-Returns r = bind-Returns _ _ (part-Returns Names.stream_group 1 r) (λ first e.
    bind-Returns _ _
      (decode_initial-Returns first.0 zero_initial
        (omega (arith, part-length Names.stream_group 1 r first e)))
      (λ decoded e'.
        if-Returns (decoded.0.type == ParseType.uint) _ _
          (λ u.
            if-Returns (decoded.0.missing_extra_length == 0) _ _ (λ z. tt)
              (λ z.
                bind-Returns _ _
                  (read_rest-Returns Names.stream_group decoded.0 first.1 (ground arith))
                  (λ all e₃. tt)))
          (λ u. tt)))

header_initial-Returns : (a : InitialDecode) (r : Reader) → Returns (header_initial a r)
unfolding header_initial
header_initial-Returns a r =
    if-Returns ((a.type == ParseType.array) || (a.type == ParseType.map)) _ _
      (λ t. if-Returns (ltb Names.max_header_size a.value) _ _ (λ l. tt) (λ l. tt)) (λ t. tt)

header_initial_from-Returns :
    (first : Bytes) (r : Reader) → 0 < length first → Returns (header_initial_from first r)
unfolding header_initial_from
header_initial_from-Returns first r h =
    bind-Returns _ _ (decode_initial-Returns first zero_initial h) (λ decoded e.
      if-Returns (ltb 0 decoded.0.missing_extra_length) _ _
        (λ m.
          bind-Returns _ _ (read_rest-Returns Names.header decoded.0 r (ltb→lt 0 _ m))
            (λ all e'. header_initial-Returns all.0 all.1))
        (λ m. header_initial-Returns decoded.0 r))

pub read_header_initial-Returns :
    (r : Reader) (first_byte : ℕ) (use_first_byte : Bool)
    → Returns (read_header_initial r first_byte use_first_byte)
unfolding read_header_initial
read_header_initial-Returns r first_byte true =
    header_initial_from-Returns (first_byte ∷ []) r (omega arith)
read_header_initial-Returns r first_byte false =
    bind-Returns _ _ (read_full-Returns 1 r) (λ first e.
      header_initial_from-Returns first.0 first.1 (omega (arith, read_full-length 1 r first e)))

-- An initial that `ReadHeaderInitial` accepts: an array or a map that is not too long.
abbrev pub IsHeader : InitialDecode → Type 0
IsHeader a =
    (((a.type == ParseType.array) || (a.type == ParseType.map)) ≡ true)
    × (a.value ≤ Names.max_header_size)

header_initial-IsHeader :
    (a : InitialDecode) (r : Reader) → Gives (λ b. IsHeader b.0) (header_initial a r)
unfolding header_initial
header_initial-IsHeader a r =
    if-Gives _ ((a.type == ParseType.array) || (a.type == ParseType.map)) _ _
      (λ t.
        if-Gives _ (ltb Names.max_header_size a.value) _ _ (λ l. tt)
          (λ l. (t, ltb→le Names.max_header_size a.value l)))
      (λ t. tt)

header_initial_from-IsHeader :
    (first : Bytes) (r : Reader) → Gives (λ b. IsHeader b.0) (header_initial_from first r)
unfolding header_initial_from
header_initial_from-IsHeader first r =
    bind-Gives _ (decode_initial (decoder first) zero_initial) _ (λ decoded e.
      if-Gives _ (ltb 0 decoded.0.missing_extra_length) _ _
        (λ m.
          bind-Gives _ (read_rest Names.header decoded.0 r) _
            (λ all e. header_initial-IsHeader all.0 all.1))
        (λ m. header_initial-IsHeader decoded.0 r))

pub read_header_initial-IsHeader :
    (r : Reader) (first_byte : ℕ) (use_first_byte : Bool)
    → Gives (λ b. IsHeader b.0) (read_header_initial r first_byte use_first_byte)
unfolding read_header_initial
read_header_initial-IsHeader r first_byte true = header_initial_from-IsHeader (first_byte ∷ []) r
read_header_initial-IsHeader r first_byte false =
    bind-Gives _ (read_full 1 r) _ (λ first e. header_initial_from-IsHeader first.0 first.1)
