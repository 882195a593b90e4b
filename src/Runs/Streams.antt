-- ===== src/Runs/Streams.antt =====
-- The start, the body and the footer of streams.
use dbuf_demo_go.Common.{◌≡◌, refl, arith, true, false, [], ◌∷◌, ◌++◌}
use dbuf_demo_go.Common.{All}
use dbuf_demo_go.Basic.ParseType
use dbuf_demo_go.Basic.Registry
use dbuf_demo_go.Basic.Val
use dbuf_demo_go.Basic.Val.{to_dbuf_val_string, contents}
use dbuf_demo_go.Basic.Wire.{header}
use dbuf_demo_go.Basic.Error.{ok, panic, ◌>>=◌, eof}
use dbuf_demo_go.Basic.Number.{uint64}
use dbuf_demo_go.Basic.Decode.Header.{initial_of}
use dbuf_demo_go.Basic.Check
use dbuf_demo_go.Basic.Decode.{check_canonical, start_initial, started_code, decode_initial}
use dbuf_demo_go.Protocol.Names
use dbuf_demo_go.Protocol.Reader.{Reader, Returns, Gives, read_full}
use dbuf_demo_go.Protocol.Stream.{read_stream_group, read_header_initial, get_header_params}
use dbuf_demo_go.Protocol.Stream.Header.{read_start-Returns}
use dbuf_demo_go.Protocol.Stream.RoundTrip.{
  stream, read_stream_group-header, read_header_initial-header,
}
use dbuf_demo_go.Protocol.Body.{BodyLengthProperties, no_length, Headers, lookup}
use dbuf_demo_go.Protocol.Body.{get_body_length_properties, get_content, read_check_value}
use dbuf_demo_go.Protocol.Body.{check_state, check_value, check_rest, check_slice}
use dbuf_demo_go.Protocol.Body.Length.{IsModeOf, get_body_length_properties-IsModeOf}
use dbuf_demo_go.Protocol.Body.Content.{get_content-Returns}
use dbuf_demo_go.Protocol.Body.Size.{IsSmall, get_content-IsSmall}

-- An empty text that ends a body of the length 1: the state is left in slice mode with nothing open,
-- and the next call of `CheckComplete` reads the top of an empty stack.
empty_last_value : read_check_value (stream (0x40 ∷ []) eof) (check_state true 1 false) 100 ≡ panic
unfolding read_check_value check_value check_rest check_slice read_full Check.check_complete
    Check.check_loop Check.round Check.read_initial check_canonical Check.initial_round
    Check.count_item Check.consume Check.consumed Check.enter Check.read_top Check.read_slice_of
    Check.has_invalid_utf8 Check.slice_round Check.leave start_initial started_code decode_initial
empty_last_value = refl

-- A header that maps the registry value 4 to the number 5.
one_pair : Reader
one_pair = stream (0xA2 ∷ 0xC4 ∷ 0xE5 ∷ []) eof

read_start-Returns_example : Returns (
    read_stream_group one_pair >>= λ g.
    read_header_initial g.1 g.0.first_byte g.0.use_first_byte >>= λ h. get_header_params h.1 h.0)
read_start-Returns_example = read_start-Returns one_pair

read_header_initial-header_example :
    (read_header_initial (stream (header ParseType.map 300 ++ 0xC4 ∷ []) eof) 0 false
      ≡ ok (initial_of ParseType.map 300, stream (0xC4 ∷ []) eof))
    × ((read_stream_group (stream (header ParseType.map 300 ++ 0xC4 ∷ []) eof) >>= λ g.
          read_header_initial g.1 g.0.first_byte g.0.use_first_byte)
        ≡ ok (initial_of ParseType.map 300, stream (0xC4 ∷ []) eof))
read_header_initial-header_example =
    read_header_initial-header ParseType.map 300 (0xC4 ∷ []) eof (omega arith) refl (omega arith)

read_stream_group-header_example :
    read_stream_group (stream (header ParseType.uint 300 ++ 0xC4 ∷ []) eof)
    ≡ ok (
      record { stream_group = 300; first_byte = 0; use_first_byte = false },
      stream (0xC4 ∷ []) eof,
    )
read_stream_group-header_example = read_stream_group-header 300 (0xC4 ∷ []) eof (omega arith)

-- A header that gives the length 70000 of the body.
abbrev length_headers : Headers
length_headers = (to_dbuf_val_string (Val.registry Names.body_length), uint64 70000) ∷ []

get_body_length_properties-IsModeOf_example :
    Gives
      (IsModeOf
        (lookup length_headers (to_dbuf_val_string (Val.registry Registry.value)))
        (lookup length_headers (to_dbuf_val_string (Val.registry Names.body_length))))
      (get_body_length_properties length_headers)
get_body_length_properties-IsModeOf_example = get_body_length_properties-IsModeOf length_headers

abbrev body_of_eight : BodyLengthProperties
body_of_eight = record no_length { has_length = true; length = 8 }

-- A text of seven bytes with its header, and a footer.
abbrev text_body : Reader
text_body = stream (0x47 ∷ 104 ∷ 101 ∷ 108 ∷ 108 ∷ 111 ∷ 33 ∷ 33 ∷ 0xA0 ∷ []) eof

get_content-Returns_example : Returns (get_content text_body body_of_eight 100)
get_content-Returns_example =
    get_content-Returns text_body body_of_eight 100 (omega arith) (λ u. omega arith)

get_content-IsSmall_example :
    Gives (λ c. All (IsSmall 100) (c.0.body)) (get_content text_body body_of_eight 100)
get_content-IsSmall_example = get_content-IsSmall text_body body_of_eight 100 refl
