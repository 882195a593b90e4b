-- ===== src/Protocol/Stream.antt =====
-- protocol/stream.go: the start of a stream, up to the header.
pub mod Returns
pub mod Header
pub mod RoundTrip
pub mod Left
use dbuf_demo_go.Common.{ℕ, ◌+◌, Bool, true, false, ◌||◌, if◌then◌else◌, ltb, ◌==◌}
use dbuf_demo_go.Common.{List, [], ◌∷◌, Bytes, Option, none, some, length, get_or}
use dbuf_demo_go.Basic.ParseType
use dbuf_demo_go.Basic.Val
use dbuf_demo_go.Basic.Val.{InitialDecode, zero_initial, DbufVal, get_dbuf_val}
use dbuf_demo_go.Basic.Error.{Result, ok, err, ◌>>=◌, GoError, data_error, incomplete_stream}
use dbuf_demo_go.Basic.Error.{data_value_not_accepted, data_type_not_accepted}
use dbuf_demo_go.Basic.Decode.{DecoderState, decode_initial, DecodedSequence, decode_sequence}
use dbuf_demo_go.Basic.Keys.{validate_keys_unique}
use dbuf_demo_go.Basic.Check.{CheckCompleteState, check_complete}
use dbuf_demo_go.Basic.Code
use dbuf_demo_go.Protocol.Names
use dbuf_demo_go.Protocol.Reader.{Reader, read_full, map_err}

-- The results of `ReadStreamGroup`, but for the error.
pub record StreamGroup : Type 0 where
  pub stream_group : ℕ
  pub first_byte : ℕ
  pub use_first_byte : Bool

-- `basic.DecoderState{Data: b}`
abbrev pub decoder : Bytes → DecoderState
decoder b = record { bytes = b; index = 0 }

-- `DataError(Registry(…), err)` for the part of the stream that is named.
abbrev pub part_error : ℕ → GoError → GoError
part_error n e = data_error (Val.registry n) e

-- The bytes that an initial misses are read, and it is decoded to its end.
unfoldable pub read_rest : ℕ → InitialDecode → Reader → Result (InitialDecode × Reader)
read_rest name a r = do
  more ← map_err (part_error name) (read_full a.missing_extra_length r)
  decoded ← decode_initial (decoder more.0) a
  ok (decoded.0, more.1)

-- What `ReadStreamGroup` does with the initial `a`, which it has decoded from the bytes `first`.
unfoldable pub stream_group_from : Bytes → InitialDecode → Reader → Result (StreamGroup × Reader)
stream_group_from first a r =
    let whole : Result (StreamGroup × Reader) = (do
      all ← read_rest Names.stream_group a r
      ok (record { stream_group = all.0.value; first_byte = 0; use_first_byte = false }, all.1)) in
    if a.type == ParseType.uint
    then (if a.missing_extra_length == 0
        then ok (record { stream_group = a.value; first_byte = 0; use_first_byte = false }, r)
        else whole)
    else ok (record { stream_group = 0; first_byte = get_or first 0 0; use_first_byte = true }, r)

unfoldable pub read_stream_group : Reader → Result (StreamGroup × Reader)
unfolding stream_group_from
read_stream_group r = do
  first ← map_err (part_error Names.stream_group) (read_full 1 r)
  decoded ← decode_initial (decoder first.0) zero_initial
  stream_group_from first.0 decoded.0 first.1

-- The test at the end of `ReadHeaderInitial`.
unfoldable pub header_initial : InitialDecode → Reader → Result (InitialDecode × Reader)
header_initial a r =
    if (a.type == ParseType.array) || (a.type == ParseType.map)
    then (if ltb Names.max_header_size a.value
        then err (part_error Names.header data_value_not_accepted)
        else ok (a, r))
    else err (part_error Names.header data_type_not_accepted)

-- The bytes that the initial of a header misses are read, if it misses any.
unfoldable pub whole_header : InitialDecode → Reader → Result (InitialDecode × Reader)
whole_header a r =
    let whole : Result (InitialDecode × Reader) = (do
      all ← read_rest Names.header a r
      header_initial all.0 all.1) in
    if ltb 0 a.missing_extra_length then whole else header_initial a r

-- `ReadHeaderInitial` with its first byte in `first`.
unfoldable pub header_initial_from : Bytes → Reader → Result (InitialDecode × Reader)
unfolding whole_header
header_initial_from first r = do
  decoded ← decode_initial (decoder first) zero_initial
  whole_header decoded.0 r

unfoldable pub read_header_initial : Reader → ℕ → Bool → Result (InitialDecode × Reader)
unfolding header_initial_from
read_header_initial r first_byte use_first_byte =
    if use_first_byte
    then header_initial_from (first_byte ∷ []) r
    else (read_full 1 r >>= λ first. header_initial_from first.0 first.1)

pub record HeaderParams : Type 0 where
  pub header : DbufVal
  pub header_details : List DbufVal

-- The `CheckCompleteState` for a header of the length `n`.
abbrev pub header_check : InitialDecode → ℕ → CheckCompleteState
header_check a n = record {
  read_state = record { state = decoder []; previous_bytes_read = 0; initial = zero_initial };
  stack = a ∷ [];
  map_counts = if a.type == ParseType.map then 0 ∷ [] else [];
  total = n;
  use_length = true;
  use_end_marker = false;
  slice_mode = false;
}

-- What the code of `CheckComplete` means for a header, which has to be complete; `rest` is behind it.
unfoldable pub header_checked {ℓ} : {A : Type ℓ} → ℕ → Result A → Result A
header_checked code rest =
    if code == Code.continue
    then err (part_error Names.header incomplete_stream)
    else if code == Code.done
    then rest
    else err (part_error Names.header data_value_not_accepted)

-- The error of `ValidateKeysUnique`, if the header is a map.
abbrev pub header_keys : InitialDecode → List DbufVal → Option GoError
header_keys a ps = if a.type == ParseType.map then validate_keys_unique ps else none

-- The results for a header with the details `ps`, with the errors of `DecodeSequence` and of the keys.
abbrev pub header_result :
    InitialDecode → Bytes → List DbufVal → Option GoError → Option GoError → Result HeaderParams
header_result a buf ps (some e) keys = err e
header_result a buf ps none (some e) = err (part_error Names.header e)
header_result a buf ps none none =
    ok (record { header = get_dbuf_val a (some buf); header_details = ps })

abbrev pub header_params : InitialDecode → Bytes → DecodedSequence → Result HeaderParams
header_params a buf d = header_result a buf d.seq d.error (header_keys a d.seq)

unfoldable pub parse_header : InitialDecode → Bytes → Result HeaderParams
unfolding header_checked
parse_header a buf =
    let parsed = decode_sequence (decoder buf) >>= header_params a buf in
    let checked =
      check_complete (header_check a (length buf)) buf >>= λ r. header_checked r.0 parsed in
    if ltb 0 (length buf) then checked else parsed

unfoldable pub get_header_params : Reader → InitialDecode → Result (HeaderParams × Reader)
unfolding parse_header
get_header_params r a = do
  read ← map_err (part_error Names.header) (read_full a.value r)
  params ← parse_header a read.0
  ok (params, read.1)
