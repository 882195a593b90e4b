-- ===== src/Protocol/Store/Authentication.antt =====
-- protocol/authentication.go: the check of a signed header against the key in the storage.
pub mod Valid
pub mod Exact
use Prim.Native.Char.{code}
use Prim.Native.String.{String}
use dbuf_demo_go.Common.{ℕ, ◌+◌, Bool, true, false, not, if◌then◌else◌, ltb, ◌==◌, List, [], ◌∷◌}
use dbuf_demo_go.Common.{◌++◌, Bytes, Option, none, some, length, take, drop}
use dbuf_demo_go.Basic.ParseType
use dbuf_demo_go.Basic.Val
use dbuf_demo_go.Basic.Val.{DbufVal, DbufValSeq, leaf, no_items, item, contents}
use dbuf_demo_go.Basic.Error.{Result, ok, err, panic, ◌>>=◌, GoError, wrap_with, plain}
use dbuf_demo_go.Basic.Error.{data_error, data_key_missing, data_value_not_accepted}
use dbuf_demo_go.Basic.Encode.{encode_sequence}
use dbuf_demo_go.Basic.Decode.{DecodedSequence, decode_sequence}
use dbuf_demo_go.Basic.Keys.{bytes_equal}
use dbuf_demo_go.Protocol.Names
use dbuf_demo_go.Protocol.Outside.{Outside}
use dbuf_demo_go.Protocol.Stream.{decoder}
use dbuf_demo_go.Protocol.Store.Item.{HeaderStoreCacheItem, at, to_dbuf_seq, header_store_error}
use dbuf_demo_go.Protocol.Store.Item.{protected_headers, identity, identity_key}

abbrev pub exporter_output_prefix_size : ℕ
exporter_output_prefix_size = 32

abbrev pub exporter_output_suffix_size : ℕ
exporter_output_suffix_size = 16

-- The bytes of a text in ASCII.
abbrev codes : String → Bytes
codes String.[] = []
codes (String.◌∷◌ c s) = code c ∷ codes s

abbrev pub exporter_label : Bytes
exporter_label = codes "EXPORTER: DBUF demo transport authentication"

abbrev pub signature_input_prefix : Bytes
signature_input_prefix = codes "DBUF demo transport authentication"

unfoldable pub create_exporter_context :
    DbufValSeq → DbufValSeq → DbufValSeq → DbufValSeq → Result Bytes
create_exporter_context headers id key key_data =
    encode_sequence (item headers (item id (item key (item key_data no_items))))

unfoldable pub create_signing_message : Bytes → Bytes → Bytes
create_signing_message exporter_context exporter_output_prefix =
    signature_input_prefix ++ exporter_context ++ exporter_output_prefix

-- `fmt.Errorf("text: %w", err)`
abbrev pub wrapped : String → Option GoError → List DbufVal → Result (List DbufVal)
wrapped text none vals = ok vals
wrapped text (some e) vals = err (wrap_with text e)

-- The items of a sequence in the bytes `b`.
unfoldable pub decoded : String → Bytes → Result (List DbufVal)
decoded text b = decode_sequence (decoder b) >>= λ d. wrapped text d.error d.seq

module _ (o : Outside) where
  -- `ed25519.Verify`, which panics on a public key of another length.
  abbrev pub verify_key : Bytes → Bytes → Bytes → Result Bool
  verify_key key message signature =
      if length key == 32 then ok (o.verify key message signature) else panic

  -- `exporterOutput[:32]` and `exporterOutput[32:]`, out of bounds on a shorter output.
  abbrev pub split_output : Bytes → Result (Bytes × Bytes)
  split_output out =
      if ltb (length out) exporter_output_prefix_size
      then panic
      else ok (take exporter_output_prefix_size out, drop exporter_output_prefix_size out)

  -- The signature of the item, checked with the key in `key_array`.
  unfoldable pub check_signature :
      HeaderStoreCacheItem → List DbufVal → Bytes → Result HeaderStoreCacheItem
  check_signature ci key_array message = do
    signature ← at ci.store_params 5
    public_key ← at key_array 1
    verified ← verify_key (contents public_key.slice) message signature.string
    (if not verified
        then err (header_store_error (data_error (Val.uint 5) data_value_not_accepted))
        else ok (record ci { is_authenticated = true }))

  -- The `switch` on the type of the key.
  unfoldable pub check_key :
      HeaderStoreCacheItem → List DbufVal → Bytes → Result HeaderStoreCacheItem
  unfolding check_signature
  check_key ci key_array message = at key_array 0 >>= λ kind.
      if kind.type == ParseType.registry
      then (if kind.value == Names.ed25519
          then check_signature ci key_array message
          else err (plain "Key type value not supported"))
      else err (plain "Key type not supported")

  unfoldable pub check_key_data :
      HeaderStoreCacheItem → DbufVal → Bytes → Result HeaderStoreCacheItem
  unfolding decoded check_key
  check_key_data ci key_data message =
      if key_data.type == ParseType.array
      then (decoded "Decode keyArray failed" (contents key_data.slice) >>= λ key_array.
          check_key ci key_array message)
      else err (plain "Key data type not supported")

  -- What is exported for the item and the key data has to end as the client says it does.
  unfoldable pub check_exporter :
      HeaderStoreCacheItem → DbufVal → Bytes → Result HeaderStoreCacheItem
  unfolding check_key_data
  check_exporter ci key_data context = do
    output ←
        o.export_keying_material exporter_label context
          (exporter_output_prefix_size + exporter_output_suffix_size)
    halves ← split_output output
    compare ← at ci.store_params 4
    (if not (bytes_equal halves.1 compare.string)
        then err (header_store_error (data_error (Val.uint 4) data_value_not_accepted))
        else check_key_data ci key_data (create_signing_message context halves.0))

  unfoldable pub validate_key_params : HeaderStoreCacheItem → Bytes → Result HeaderStoreCacheItem
  unfolding decoded create_exporter_context check_exporter
  validate_key_params ci key_data =
      let validated : Result HeaderStoreCacheItem = (do
        vals ← decoded "Decode keyData failed" key_data
        headers ← protected_headers ci
        id ← identity ci
        key ← identity_key ci
        stored ← at vals 0
        context ←
            create_exporter_context (to_dbuf_seq headers) (to_dbuf_seq id) (to_dbuf_seq key)
              (leaf stored)
        check_exporter ci stored context) in
      if ltb (length ci.store_params) 6
      then err
          (data_error (Val.registry Names.header_store) (data_error (Val.uint 5) data_key_missing))
      else validated
