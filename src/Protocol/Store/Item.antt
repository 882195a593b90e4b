-- ===== src/Protocol/Store/Item.antt =====
-- `HeaderStoreCacheItem`: what it keeps of a header, and its size.
use dbuf_demo_go.Common.{ℕ, zero, suc, ◌+◌, Bool, if◌then◌else◌, List, [], ◌∷◌, Option, none, some}
use dbuf_demo_go.Common.{length}
use dbuf_demo_go.Common.Dict
use dbuf_demo_go.Basic.Val.{DbufVal, DbufValString, DbufValSeq, leaf, to_dbuf_val_string}
use dbuf_demo_go.Basic.Error.{Result, ok, err, panic, stuck, ◌>>=◌, GoError}
use dbuf_demo_go.Basic.Compare.{equal}
use dbuf_demo_go.Basic.Decode.{decode_sequence}
use dbuf_demo_go.Basic.Keys.Equality.{key_eq}
use dbuf_demo_go.Protocol.Names
use dbuf_demo_go.Protocol.Stream.{decoder, part_error}
use dbuf_demo_go.Protocol.Body.{Headers}
use dbuf_demo_go.Protocol.Path.{PathProperties, get_path_properties, reference_key}

pub record HeaderStoreCacheItem : Type 0 where
  pub store_params : List DbufValString
  pub is_authenticated : Bool

-- `xs[i]`
abbrev pub at {ℓ} : {A : Type ℓ} → List A → ℕ → Result A
at [] i = panic
at (x ∷ xs) zero = ok x
at (x ∷ xs) (suc i) = at xs i

-- `ToDbufSeq` of a `DbufValString`, whose slice is never nil.
abbrev pub to_dbuf_seq : DbufValString → DbufValSeq
to_dbuf_seq v = leaf (record { type = v.type; value = v.value; slice = some v.string })

unfoldable pub protected_headers : HeaderStoreCacheItem → Result DbufValString
protected_headers i = at i.store_params 1

unfoldable pub identity : HeaderStoreCacheItem → Result DbufValString
identity i = at i.store_params 2

unfoldable pub identity_key : HeaderStoreCacheItem → Result DbufValString
identity_key i = at i.store_params 3

unfoldable pub get_size : HeaderStoreCacheItem → Result ℕ
unfolding protected_headers
get_size i = protected_headers i >>= λ p. ok (length p.string + 32)

-- The loop of `Authority`, over a key and a value in turn.
unfoldable pub reference_headers : Headers → List DbufVal → Result Headers
reference_headers m [] = ok m
reference_headers m (h ∷ []) = if equal h reference_key then panic else ok m
reference_headers m (h ∷ v ∷ vals) =
    reference_headers (if equal h reference_key then Dict.put m (to_dbuf_val_string h) v else m)
      vals

-- `pp.Authority`, or nil after an error.
abbrev pub authority_or_nil : Result PathProperties → Result (List DbufVal)
authority_or_nil (ok p) = ok p.authority
authority_or_nil (err e) = ok []
authority_or_nil panic = panic
authority_or_nil stuck = stuck

-- The rest of `Authority` behind `DecodeSequence`.
abbrev pub authority_of : Option GoError → List DbufVal → Result (List DbufVal)
authority_of none vals = reference_headers [] vals >>= λ m. authority_or_nil (get_path_properties m)
authority_of (some e) vals = ok []

unfoldable pub authority : HeaderStoreCacheItem → Result (List DbufVal)
authority i = do
  p ← protected_headers i
  d ← decode_sequence (decoder p.string)
  authority_of d.error d.seq

-- `HeaderStoreError`
abbrev pub header_store_error : GoError → GoError
header_store_error e = part_error Names.header (part_error Names.header_store e)
