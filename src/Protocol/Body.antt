-- ===== src/Protocol/Body.antt =====
-- protocol/stream.go: the body and the footer of a stream.
pub mod Length
pub mod Bounds
pub mod Value
pub mod Content
pub mod Size
pub mod Taken
use dbuf_demo_go.Common.{ℕ, zero, suc, ◌+◌, ◌^◌, Bool, true, false, ◌&&◌, ◌||◌, not, if◌then◌else◌}
use dbuf_demo_go.Common.{ltb, ◌==◌, List, [], ◌∷◌, ◌++◌, Option, none, some, length}
use dbuf_demo_go.Basic.ParseType
use dbuf_demo_go.Basic.Registry
use dbuf_demo_go.Basic.Val
use dbuf_demo_go.Basic.Val.{InitialDecode, zero_initial, DbufVal, DbufValString, get_dbuf_val}
use dbuf_demo_go.Basic.Val.{to_dbuf_val_string, type_has_slice}
use dbuf_demo_go.Basic.Error.{Result, ok, err, stuck, ◌>>=◌, data_error, data_key_missing}
use dbuf_demo_go.Basic.Error.{data_value_not_accepted, data_key_not_accepted}
use dbuf_demo_go.Basic.Number.{get_u64}
use dbuf_demo_go.Common.Dict
use dbuf_demo_go.Common.Dict.{Dict}
use dbuf_demo_go.Basic.Keys.Equality.{key_eq}
use dbuf_demo_go.Basic.Compare.{equal}
use dbuf_demo_go.Basic.Decode.{decode_initial}
use dbuf_demo_go.Basic.Check.{CheckCompleteState, check_complete, total_bytes_read}
use dbuf_demo_go.Basic.Code
use dbuf_demo_go.Protocol.Names
use dbuf_demo_go.Protocol.Reader.{Reader, read_full, map_err}
use dbuf_demo_go.Protocol.Stream.{decoder, part_error}

-- The map `Headers` of `HeaderStoreProperties`.
abbrev pub Headers : Type 0
Headers = Dict DbufValString DbufVal

abbrev pub lookup : Headers → DbufValString → Option DbufVal
lookup headers k = Dict.get headers k

pub record BodyLengthProperties : Type 0 where
  pub has_value : Bool
  pub value : DbufVal
  pub has_length : Bool
  pub length : ℕ
  pub has_indefinite_length : Bool

-- `DbufVal{}`
abbrev pub zero_val : DbufVal
zero_val = record { value = 0; type = 0; slice = none }

-- `BodyLengthProperties{}`
abbrev pub no_length : BodyLengthProperties
no_length = record {
  has_value = false;
  value = zero_val;
  has_length = false;
  length = 0;
  has_indefinite_length = false;
}

abbrev body_length_key : DbufVal
body_length_key = Val.registry Names.body_length

-- The `switch` on the type of the header `body_length`.
unfoldable pub length_of_header : DbufVal → Result BodyLengthProperties
length_of_header p =
    if (p.type == ParseType.uint) || (p.type == ParseType.integer)
    then (map_err (data_error body_length_key) (get_u64 p) >>= λ n.
        ok (record no_length { has_length = true; length = n }))
    else if p.type == ParseType.registry
    then (if p.value == Registry.describe_no_value
        then ok (record no_length { has_indefinite_length = true })
        else err (data_error body_length_key data_value_not_accepted))
    else err (data_error body_length_key data_value_not_accepted)

-- The headers `value` and `body_length`, which exclude each other.
unfoldable pub body_length : Option DbufVal → Option DbufVal → Result BodyLengthProperties
unfolding length_of_header
body_length none none = ok no_length
body_length (some v) none = ok (record no_length { has_value = true; value = v })
body_length (some v) (some p) = err (data_error body_length_key data_key_not_accepted)
body_length none (some p) = length_of_header p

unfoldable pub get_body_length_properties : Headers → Result BodyLengthProperties
unfolding body_length
get_body_length_properties headers =
    body_length (lookup headers (to_dbuf_val_string (Val.registry Registry.value)))
      (lookup headers (to_dbuf_val_string body_length_key))

-- `cc_err > CheckComplete_Continue`
abbrev pub refused : ℕ → Bool
refused code = ltb Code.continue code

-- `CheckComplete` on the bytes of a value, which are refused as a value.
unfoldable pub check_value : CheckCompleteState → List ℕ → Result (ℕ × CheckCompleteState)
check_value s buf =
    check_complete s buf >>= λ r. if refused r.0 then err data_value_not_accepted else ok r

-- The bytes that the initial `a` misses, if it misses any.
unfoldable pub check_rest :
    InitialDecode
    → Reader
    → ℕ
    → CheckCompleteState
    → Result (InitialDecode × Reader × ℕ × CheckCompleteState)
unfolding check_value
check_rest a r code s =
    let read : Result (InitialDecode × Reader × ℕ × CheckCompleteState) = (do
      more ← read_full a.missing_extra_length r
      c ← check_value (record s { read_state = record (s.read_state) { initial = a } }) more.0
      decoded ← decode_initial (decoder more.0) a
      ok (decoded.0, more.1, c.0, c.1)) in
    if ltb 0 a.missing_extra_length then read else ok (a, r, code, s)

-- A value, whether it is the last, and the rest of the stream.
abbrev pub Checked : Type 0
Checked = DbufVal × Bool × Reader

-- The last test of `ReadCheckValue`, on the whole length.
abbrev pub sized {ℓ} : {A : Type ℓ} → ℕ → CheckCompleteState → A → Result A
sized max_size s v =
    if ltb max_size (total_bytes_read s.read_state) then err data_value_not_accepted else ok v

-- The bytes of the slice of the initial `a`, if its type has one. They are not more than `max_size`.
unfoldable pub check_slice : ℕ → InitialDecode → Reader → ℕ → CheckCompleteState → Result Checked
unfolding check_value
check_slice max_size a r code s =
    let read : Result Checked = (do
      more ← read_full a.value r
      c ← check_value s more.0
      sized max_size c.1 (get_dbuf_val a (some more.0), c.0 == Code.done, more.1)) in
    if type_has_slice a
    then (if ltb max_size (total_bytes_read s.read_state + a.value)
        then err data_value_not_accepted
        else read)
    else sized max_size s (get_dbuf_val a none, code == Code.done, r)

unfoldable pub read_check_value : Reader → CheckCompleteState → ℕ → Result Checked
unfolding check_value check_rest check_slice
read_check_value r s max_size = do
  first ← read_full 1 r
  c ← check_value s first.0
  decoded ← decode_initial (decoder first.0) zero_initial
  all ← check_rest decoded.0 first.1 c.0 c.1
  check_slice max_size all.0 all.1 all.2 all.3

pub record ContentProperties : Type 0 where
  pub has_body : Bool
  pub body : List DbufVal
  pub has_footer : Bool
  pub footer : DbufVal

-- `CheckCompleteState{UseLength: …, Length: …, UseEndMarker: …}`
abbrev pub check_state : Bool → ℕ → Bool → CheckCompleteState
check_state use_length total use_end_marker = record {
  read_state = record { state = decoder []; previous_bytes_read = 0; initial = zero_initial };
  stack = [];
  map_counts = [];
  total = total;
  use_length = use_length;
  use_end_marker = use_end_marker;
  slice_mode = false;
}

-- An end marker stays in a body whose length is given.
unfoldable pub add_value : Bool → List DbufVal → DbufVal → List DbufVal
add_value has_length body v =
    if has_length || not (equal v (Val.registry Registry.end_marker)) then body ++ v ∷ [] else body

-- The loop of `GetContent`. The state `s` is passed by value: every value starts from the same one.
unfoldable pub body_loop :
    ℕ → Bool → CheckCompleteState → ℕ → List DbufVal → Reader → Result (List DbufVal × Reader)
body_loop zero has_length s max_size body r = stuck
body_loop (suc fuel) has_length s max_size body r =
    map_err (part_error Names.body) (read_check_value r s max_size) >>= λ v.
    let body' = add_value has_length body v.0 in
    let more = body_loop fuel has_length s max_size body' v.2 in
    if v.1 then ok (body', v.2) else more

-- Each value takes a byte at least.
abbrev pub body_fuel : Reader → ℕ
body_fuel r = suc (length r.bytes)

unfoldable pub read_body : Reader → BodyLengthProperties → ℕ → Result (List DbufVal × Reader)
unfolding body_loop
read_body r clp max_size =
    body_loop (body_fuel r) clp.has_length
      (check_state clp.has_length clp.length clp.has_indefinite_length) max_size [] r

unfoldable pub read_footer : Reader → Result (DbufVal × Reader)
unfolding read_check_value
read_footer r =
    map_err (part_error Names.footer)
      (read_check_value r (check_state true Names.max_header_size false) Names.max_header_size)
    >>= λ v. ok (v.0, v.2)

-- `clp.HasIndefiniteLength || clp.HasLength`
abbrev pub has_footer : BodyLengthProperties → Bool
has_footer clp = clp.has_indefinite_length || clp.has_length

-- The `ContentProperties` with a body and a footer.
abbrev pub content : BodyLengthProperties → List DbufVal → DbufVal → ContentProperties
content clp body footer = record {
  has_body = has_footer clp || clp.has_value;
  body = body;
  has_footer = has_footer clp;
  footer = footer;
}

unfoldable pub get_content : Reader → BodyLengthProperties → ℕ → Result (ContentProperties × Reader)
unfolding read_body read_footer
get_content r clp max_buffer_size =
    let read : Result (ContentProperties × Reader) = (do
      b ← read_body r clp max_buffer_size
      f ← read_footer b.1
      ok (content clp b.0 f.0, f.1)) in
    if clp.has_value
    then ok (content clp (clp.value ∷ []) zero_val, r)
    else if (has_footer clp || clp.has_value) && ltb 0 max_buffer_size
    then (if clp.has_length && ltb max_buffer_size clp.length
        then err (part_error Names.header (part_error Names.body_length data_value_not_accepted))
        else read)
    else ok (content clp [] zero_val, r)

unfoldable pub get_single_body_of : List DbufVal → Result DbufVal
get_single_body_of [] = err (part_error Names.body data_key_missing)
get_single_body_of (v ∷ []) = ok v
get_single_body_of (v ∷ w ∷ body) =
    err (part_error Names.body (data_error (Val.uint 1) data_value_not_accepted))

unfoldable pub get_single_body : Reader → Headers → ℕ → Result DbufVal
unfolding get_body_length_properties get_content get_single_body_of
get_single_body r headers max_buffer_size = do
  clp ← get_body_length_properties headers
  c ← get_content r clp max_buffer_size
  get_single_body_of (c.0.body)
