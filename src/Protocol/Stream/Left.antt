-- ===== src/Protocol/Stream/Left.antt =====
-- How much of a stream the reading of its start leaves.
use dbuf_demo_go.Common.{
  ℕ, suc, ◌+◌, ◌≤◌, ◌≡◌, arith, Bool, true, false, ltb, ◌==◌, ◌||◌, [], ◌∷◌, length,
}
use dbuf_demo_go.Common.{Bytes}
use dbuf_demo_go.Basic.ParseType
use dbuf_demo_go.Basic.Val.{InitialDecode, zero_initial}
use dbuf_demo_go.Basic.Error.{ok}
use dbuf_demo_go.Basic.Decode.{decode_initial}
use dbuf_demo_go.Protocol.Names
use dbuf_demo_go.Protocol.Reader.{
  Reader, read_full, map_err, map_err-ok, read_full_left, Gives, if-Gives, bind-Gives, gives_ok,
  Gives-mono,
}
use dbuf_demo_go.Protocol.Stream.{
  decoder, part_error, read_rest, header_initial, whole_header, header_initial_from,
  read_header_initial, parse_header, get_header_params,
}

-- A reader with at most `n` bytes to come, behind something that was read.
abbrev pub Leaves {ℓ} : {A : Type ℓ} → ℕ → A × Reader → Type 0
Leaves n x = length x.1.bytes ≤ n

part-left :
    (name n : ℕ) (r : Reader) (a : Bytes × Reader)
    → map_err (part_error name) (read_full n r) ≡ ok a
    → length a.1.bytes + n ≡ length r.bytes
part-left name n r a e = read_full_left n r a (map_err-ok (part_error name) (read_full n r) a e)

header_initial-Leaves :
    (a : InitialDecode) (r : Reader) → Gives (Leaves (length r.bytes)) (header_initial a r)
unfolding header_initial
header_initial-Leaves a r =
    if-Gives _ ((a.type == ParseType.array) || (a.type == ParseType.map)) _ _
      (λ h. if-Gives _ (ltb Names.max_header_size a.value) _ _ (λ l. tt) (λ l. omega arith))
      (λ h. tt)

read_rest-Leaves :
    (name : ℕ) (a : InitialDecode) (r : Reader)
    → Gives (Leaves (length r.bytes)) (read_rest name a r)
unfolding read_rest
read_rest-Leaves name a r =
    let P = Leaves {A = InitialDecode} (length r.bytes) in
    bind-Gives P (map_err (part_error name) (read_full a.missing_extra_length r)) _ (λ more e.
      bind-Gives P (decode_initial (decoder more.0) a) _
        (λ d e'. omega (arith, part-left name a.missing_extra_length r more e)))

whole_header-Leaves :
    (a : InitialDecode) (r : Reader) → Gives (Leaves (length r.bytes)) (whole_header a r)
unfolding whole_header
whole_header-Leaves a r =
    let P = Leaves {A = InitialDecode} (length r.bytes) in
    if-Gives P (ltb 0 a.missing_extra_length) _ _
      (λ m. bind-Gives P (read_rest Names.header a r) _ (λ all e.
        Gives-mono (Leaves (length all.1.bytes)) P (header_initial all.0 all.1)
          (λ x l.
            let l' =
              gives_ok P (read_rest Names.header a r) all (read_rest-Leaves Names.header a r) e in
            omega (arith, l, l'))
          (header_initial-Leaves all.0 all.1)))
      (λ m. header_initial-Leaves a r)

header_initial_from-Leaves :
    (first : Bytes) (r : Reader) → Gives (Leaves (length r.bytes)) (header_initial_from first r)
unfolding header_initial_from
header_initial_from-Leaves first r =
    bind-Gives _ (decode_initial (decoder first) zero_initial) _ (λ d e. whole_header-Leaves d.0 r)

-- The bytes that `Execute` has of a stream: the first one may have been read.
abbrev pub bytes_left : Bool → Reader → ℕ
bytes_left true r = suc (length r.bytes)
bytes_left false r = length r.bytes

pub read_header_initial-Leaves :
    (r : Reader) (first_byte : ℕ) (use_first_byte : Bool)
    → Gives
        (λ (x : InitialDecode × Reader). suc (length x.1.bytes) ≤ bytes_left use_first_byte r)
        (read_header_initial r first_byte use_first_byte)
unfolding read_header_initial
read_header_initial-Leaves r first_byte true =
    Gives-mono (Leaves (length r.bytes)) _ (header_initial_from (first_byte ∷ []) r)
      (λ x l. omega (arith, l)) (header_initial_from-Leaves (first_byte ∷ []) r)
read_header_initial-Leaves r first_byte false = bind-Gives _ (read_full 1 r) _ (λ first e.
    Gives-mono (Leaves (length first.1.bytes)) _ (header_initial_from first.0 first.1)
      (λ x l. omega (arith, l, read_full_left 1 r first e))
      (header_initial_from-Leaves first.0 first.1))

pub get_header_params-Leaves :
    (r : Reader) (a : InitialDecode) → Gives (Leaves (length r.bytes)) (get_header_params r a)
unfolding get_header_params
get_header_params-Leaves r a =
    bind-Gives _ (map_err (part_error Names.header) (read_full a.value r)) _ (λ read e.
      bind-Gives _ (parse_header a read.0) _
        (λ params e'. omega (arith, part-left Names.header a.value r read e)))
