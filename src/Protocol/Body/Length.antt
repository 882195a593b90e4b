-- ===== src/Protocol/Body/Length.antt =====
-- `GetBodyLengthProperties`: how the headers say where a body is.
use dbuf_demo_go.Common.{ℕ, ◌≡◌, refl, Bool, true, false, ◌&&◌, ◌||◌}
use dbuf_demo_go.Common.{◌==◌, Option, none, some, IsU64, inl, inr, Bool-cases, leb, Bytes, get_or}
use dbuf_demo_go.Basic.Const.{max_u32}
use dbuf_demo_go.Basic.ParseType
use dbuf_demo_go.Basic.Registry
use dbuf_demo_go.Basic.Val
use dbuf_demo_go.Basic.Val.{DbufVal, to_dbuf_val_string}
use dbuf_demo_go.Basic.Error.{ok}
use dbuf_demo_go.Basic.Number.{uint64, get_u64, signed_integer, leading, big_endian}
use dbuf_demo_go.Basic.Number.RoundTrip.{get_u64-uint64}
use dbuf_demo_go.Protocol.Names
use dbuf_demo_go.Protocol.Reader.{map_err, Gives, if-Gives, bind-Gives}
use dbuf_demo_go.Protocol.Body.{Headers, lookup, BodyLengthProperties, no_length}
use dbuf_demo_go.Protocol.Body.{length_of_header, body_length, get_body_length_properties}

-- A key of the headers is there.
abbrev pub is_there : Option DbufVal → Bool
is_there none = false
is_there (some v) = true

-- The properties for the values of the two headers, if they are there.
abbrev pub IsModeOf : Option DbufVal → Option DbufVal → BodyLengthProperties → Type 0
IsModeOf value length p =
    (p.has_value ≡ is_there value)
    × ((p.has_length || p.has_indefinite_length) ≡ is_there length)
    × ((p.has_length && p.has_indefinite_length) ≡ false)
    × ((p.has_value && (p.has_length || p.has_indefinite_length)) ≡ false)

length_of_header-IsModeOf : (p : DbufVal) → Gives (IsModeOf none (some p)) (length_of_header p)
unfolding length_of_header
length_of_header-IsModeOf p =
    if-Gives P ((p.type == ParseType.uint) || (p.type == ParseType.integer)) _ _
      (λ n. bind-Gives P (map_err _ (get_u64 p)) _ (λ n e. (refl, refl, refl, refl)))
      (λ n.
        if-Gives P (p.type == ParseType.registry) _ _
          (λ r.
            if-Gives P (p.value == Registry.describe_no_value) _ _ (λ e. (refl, refl, refl, refl))
              (λ e. tt))
          (λ r. tt))
  where
    P : BodyLengthProperties → Type 0
    P = IsModeOf none (some p)

body_length-IsModeOf : (v l : Option DbufVal) → Gives (IsModeOf v l) (body_length v l)
unfolding body_length
body_length-IsModeOf none none = (refl, refl, refl, refl)
body_length-IsModeOf (some v) none = (refl, refl, refl, refl)
body_length-IsModeOf (some v) (some p) = tt
body_length-IsModeOf none (some p) = length_of_header-IsModeOf p

-- If `GetBodyLengthProperties` returns no error, the body is in the header exactly if the header has
-- a `value`, it follows, with a length or up to an end marker, exactly if the header has a
-- `body_length`, and no two of the three hold together.
pub get_body_length_properties-IsModeOf :
    (headers : Headers)
    → Gives
        (IsModeOf
          (lookup headers (to_dbuf_val_string (Val.registry Registry.value)))
          (lookup headers (to_dbuf_val_string (Val.registry Names.body_length))))
        (get_body_length_properties headers)
unfolding get_body_length_properties
get_body_length_properties-IsModeOf headers =
    body_length-IsModeOf (lookup headers (to_dbuf_val_string (Val.registry Registry.value)))
      (lookup headers (to_dbuf_val_string (Val.registry Names.body_length)))

signed_integer-type : (i : ℕ) (b : Bytes) → (signed_integer i b).type ≡ ParseType.integer
unfolding signed_integer
signed_integer-type i b = elim (Bool-cases (leb 0x80 (get_or b i 0))) [
  | inl e ↦ rw e refl
  | inr e ↦ rw e refl
]

uint64_type :
    (n : ℕ) → (((uint64 n).type == ParseType.uint) || ((uint64 n).type == ParseType.integer)) ≡ true
unfolding uint64
uint64_type n = elim (Bool-cases (leb n max_u32)) [
  | inl e ↦ rw e refl
  | inr e ↦ rw (e, signed_integer-type (leading 0 7 (big_endian n)) (big_endian n)) refl
]

-- A length below 2 ^ 64 that a sender has put into the header as `Uint64` makes a value of is what
-- `GetBodyLengthProperties` returns, if the header has no `value`.
pub get_body_length_properties-uint64 :
    (headers : Headers) (n : ℕ)
    → IsU64 n
    → lookup headers (to_dbuf_val_string (Val.registry Registry.value)) ≡ none
    → lookup headers (to_dbuf_val_string (Val.registry Names.body_length)) ≡ some (uint64 n)
    → get_body_length_properties headers ≡ ok (record no_length { has_length = true; length = n })
unfolding get_body_length_properties length_of_header
get_body_length_properties-uint64 headers n small no_value given =
    rw (no_value, given, uint64_type n, get_u64-uint64 n small) refl
