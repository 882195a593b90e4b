-- ===== src/Protocol/Body/Taken.antt =====
-- protocol/stream.go: the body and the footer of a stream as in Protocol.Body, with the reader as a
-- state: what is left of the stream is known after an error too.
pub mod Agreement
use dbuf_demo_go.Common.{
  ℕ, zero, suc, ◌+◌, Bool, true, false, ◌&&◌, ◌||◌, ◌==◌, if◌then◌else◌, ltb, leb,
}
use dbuf_demo_go.Common.{List, [], ◌∷◌, Bytes, some, none, length, take, drop}
use dbuf_demo_go.Basic.Val.{InitialDecode, zero_initial, DbufVal, get_dbuf_val, type_has_slice}
use dbuf_demo_go.Basic.Error.{Result, ok, err, stuck, GoError, data_value_not_accepted}
use dbuf_demo_go.Basic.Decode.{decode_initial}
use dbuf_demo_go.Basic.Check.{CheckCompleteState, total_bytes_read}
use dbuf_demo_go.Basic.Code
use dbuf_demo_go.Protocol.Names
use dbuf_demo_go.Protocol.Reader.{Reader, short_error, map_err}
use dbuf_demo_go.Protocol.Stream.{decoder, part_error}
use dbuf_demo_go.Protocol.Action.{Action, pure, lift, ◌>>=◌}
use dbuf_demo_go.Protocol.Body.{
  BodyLengthProperties, ContentProperties, Headers, zero_val, check_value, sized, check_state,
  add_value, body_fuel, has_footer, content, get_body_length_properties, get_single_body_of,
}

-- `ReadFull`: a stream that is too short is read to its end.
unfoldable pub take_full : ℕ → Action Reader Bytes
take_full n r =
    if leb n (length r.bytes)
    then (ok (take n r.bytes), record r { bytes = drop n r.bytes })
    else (err (short_error (length r.bytes) r.last), record r { bytes = [] })

abbrev pub wrap_err {ℓ} : {A : Type ℓ} → (GoError → GoError) → Action Reader A → Action Reader A
wrap_err f m r = (map_err f (m r).0, (m r).1)

unfoldable pub take_rest :
    InitialDecode → ℕ → CheckCompleteState → Action Reader (InitialDecode × ℕ × CheckCompleteState)
unfolding take_full check_value
take_rest a code s =
    let read : Action Reader (InitialDecode × ℕ × CheckCompleteState) = (do
      more ← take_full a.missing_extra_length
      c ← lift (check_value (record s { read_state = record (s.read_state) { initial = a } }) more)
      decoded ← lift (decode_initial (decoder more) a)
      pure (decoded.0, c.0, c.1)) in
    if ltb 0 a.missing_extra_length then read else pure (a, code, s)

unfoldable pub take_slice :
    ℕ → InitialDecode → ℕ → CheckCompleteState → Action Reader (DbufVal × Bool)
unfolding take_full check_value
take_slice max_size a code s =
    let read : Action Reader (DbufVal × Bool) = (do
      more ← take_full a.value
      c ← lift (check_value s more)
      lift (sized max_size c.1 (get_dbuf_val a (some more), c.0 == Code.done))) in
    if type_has_slice a
    then (if ltb max_size (total_bytes_read s.read_state + a.value)
        then lift (err data_value_not_accepted)
        else read)
    else lift (sized max_size s (get_dbuf_val a none, code == Code.done))

-- `ReadCheckValue`
unfoldable pub take_check_value : CheckCompleteState → ℕ → Action Reader (DbufVal × Bool)
unfolding take_full check_value take_rest take_slice
take_check_value s max_size = do
  first ← take_full 1
  c ← lift (check_value s first)
  decoded ← lift (decode_initial (decoder first) zero_initial)
  all ← take_rest decoded.0 c.0 c.1
  take_slice max_size all.0 all.1 all.2

unfoldable pub take_values :
    ℕ → Bool → CheckCompleteState → ℕ → List DbufVal → Action Reader (List DbufVal)
unfolding take_check_value
take_values zero has_length s max_size body = lift stuck
take_values (suc fuel) has_length s max_size body =
    wrap_err (part_error Names.body) (take_check_value s max_size) >>= λ v.
    let body' = add_value has_length body v.0 in
    let more = take_values fuel has_length s max_size body' in if v.1 then pure body' else more

unfoldable pub take_body : BodyLengthProperties → ℕ → Action Reader (List DbufVal)
unfolding take_values
take_body clp max_size r =
    take_values (body_fuel r) clp.has_length
      (check_state clp.has_length clp.length clp.has_indefinite_length) max_size [] r

unfoldable pub take_footer : Action Reader DbufVal
unfolding take_check_value
take_footer =
    wrap_err (part_error Names.footer)
      (take_check_value (check_state true Names.max_header_size false) Names.max_header_size)
    >>= λ v. pure v.0

-- `GetContent`
unfoldable pub take_content : BodyLengthProperties → ℕ → Action Reader ContentProperties
unfolding take_body take_footer
take_content clp max_buffer_size =
    let read : Action Reader ContentProperties = (do
      b ← take_body clp max_buffer_size
      f ← take_footer
      pure (content clp b f)) in
    if clp.has_value
    then pure (content clp (clp.value ∷ []) zero_val)
    else if (has_footer clp || clp.has_value) && ltb 0 max_buffer_size
    then (if clp.has_length && ltb max_buffer_size clp.length
        then lift
            (err (part_error Names.header (part_error Names.body_length data_value_not_accepted)))
        else read)
    else pure (content clp [] zero_val)

-- `GetSingleBody`
unfoldable pub take_single_body : Headers → ℕ → Action Reader DbufVal
unfolding take_content
take_single_body headers max_buffer_size = do
  clp ← lift (get_body_length_properties headers)
  c ← take_content clp max_buffer_size
  lift (get_single_body_of c.body)
