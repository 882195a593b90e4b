-- ===== src/Protocol/Client/HeaderStore.antt =====
-- protocol/header.go: `CreateHeaderStoreHeader` and `HeaderStoreState`, which gives each sequence of
-- protected headers an id of its own on a connection.
pub mod Ids
pub mod Given
use dbuf_demo_go.Common.{ℕ, ◌+◌, ◌%◌, ◌^◌, [], Bytes, Option, none, some, if◌then◌else◌}
use dbuf_demo_go.Common.Dict
use dbuf_demo_go.Common.Dict.{Dict}
use dbuf_demo_go.Basic.Val
use dbuf_demo_go.Basic.Val.{DbufValSeq, leaf, nest, Sequence, no_items, item}
use dbuf_demo_go.Basic.Number.{uint64}
use dbuf_demo_go.Basic.Encode.{encode_full_seq}
use dbuf_demo_go.Basic.Keys.Equality.{bytes_eq}
use dbuf_demo_go.Basic.Error.{Result, ok, err, panic, stuck, GoError, wrap_with, plain}
use dbuf_demo_go.Basic.Compare.{equal}
use dbuf_demo_go.Protocol.Reader.{Reader, map_err}
use dbuf_demo_go.Protocol.Path.{reference_key}
use dbuf_demo_go.Protocol.Outside.{Outside}
use dbuf_demo_go.Protocol.Action.{Action, pure, lift, ◌>>=◌}
use dbuf_demo_go.Protocol.Request.Send.{wrap_action}
use dbuf_demo_go.Protocol.Store.Authentication.{
  exporter_label, exporter_output_prefix_size, exporter_output_suffix_size, create_exporter_context,
  create_signing_message, split_output,
}
use dbuf_demo_go.Protocol.Client.Keys.{KeyManager, ClientState, with_keys, get_key}

unfoldable pub create_header_store_data : ℕ → Sequence → DbufValSeq
unfolding uint64
create_header_store_data store_id header_sequence =
    nest Val.array (item (leaf (uint64 store_id)) (item (nest Val.map header_sequence) no_items))

unfoldable pub create_header_store_data_with_identity :
    ℕ → DbufValSeq → DbufValSeq → DbufValSeq → DbufValSeq → DbufValSeq → DbufValSeq
unfolding uint64
create_header_store_data_with_identity store_id protected_headers id id_key context_suffix
      signature =
    nest Val.array (
      item (leaf (uint64 store_id)) (
        item protected_headers
          (item id (item id_key (item context_suffix (item signature no_items))))))

-- The value of a `DbufValSeq`.
abbrev pub val_of : DbufValSeq → Val.DbufVal
val_of (leaf v) = v
val_of (nest v seq) = v

abbrev pub no_reference : Result DbufValSeq
no_reference = err (plain "AuthorityRef not found")

-- The loop of `GetAuthorityRef`, over a key and a value in turn.
unfoldable pub authority_ref_in : Sequence → Result DbufValSeq
authority_ref_in no_items = no_reference
authority_ref_in (item k no_items) = no_reference
authority_ref_in (item k (item v seq)) =
    let rest = authority_ref_in seq in if equal (val_of k) reference_key then ok v else rest

unfoldable pub get_authority_ref : DbufValSeq → Result DbufValSeq
unfolding authority_ref_in
get_authority_ref (leaf v) = no_reference
get_authority_ref (nest v seq) = authority_ref_in seq

module _ (o : Outside) (km : KeyManager) where
  -- A new header for the id, with a signature for this connection.
  unfoldable pub create_header_store_header :
      Result (Bytes → Result Reader) → ℕ → DbufValSeq → Action (ClientState o km) DbufValSeq
  unfolding get_authority_ref get_key create_header_store_data_with_identity
  create_header_store_header stream store_id headers = do
    ref ← lift (map_err (wrap_with "Get authority ref failed") (get_authority_ref headers))
    k ← wrap_action o (wrap_with "Get key failed") (get_key o km stream ref)
    context ← lift (
        map_err (wrap_with "Create exporter context failed")
          (create_exporter_context headers k.0 k.1 k.2))
    output ← lift (
        map_err (wrap_with "Export keying material failed") (
          o.export_keying_material exporter_label context
            (exporter_output_prefix_size + exporter_output_suffix_size)))
    halves ← lift (split_output o output)
    signature ←
        wrap_action o (wrap_with "Get signature failed")
          (with_keys o km (km.get_signature ref (create_signing_message context halves.0)))
    pure (
        create_header_store_data_with_identity store_id headers k.0 k.1 (leaf (Val.bytes halves.1))
          signature)

  pub record HeaderStoreState : Type 0 where
    pub store_ids : Dict Bytes ℕ
    pub next_store_id : ℕ
    pub client : ClientState o km

  unfoldable pub make_header_store_state : ClientState o km → HeaderStoreState
  make_header_store_state client = record { store_ids = []; next_store_id = 0; client = client }

  -- The end of `GetHeaderStoreHeader` for new headers. `NextStoreId` is a uint64.
  abbrev pub header_created :
      Bytes
      → HeaderStoreState
      → Result DbufValSeq × ClientState o km
      → Result DbufValSeq × HeaderStoreState
  header_created b s (ok h, client) = (
    ok h,
    record {
      store_ids = Dict.put s.store_ids b s.next_store_id;
      next_store_id = (s.next_store_id + 1) % 2 ^ 64;
      client = client;
    },
  )
  header_created b s (err e, client) =
      (err (wrap_with "Create header store header failed" e), record s { client = client })
  header_created b s (panic, client) = (panic, record s { client = client })
  header_created b s (stuck, client) = (stuck, record s { client = client })

  -- The header for the encoded headers `b`, by the id that they have.
  abbrev pub header_for :
      Result (Bytes → Result Reader)
      → DbufValSeq
      → Bytes
      → Option ℕ
      → Action HeaderStoreState DbufValSeq
  header_for stream headers b (some id) s = (ok (leaf (uint64 id)), s)
  header_for stream headers b none s =
      header_created b s (create_header_store_header stream (s.next_store_id) headers (s.client))

  abbrev pub encoded_for :
      Result (Bytes → Result Reader)
      → DbufValSeq
      → Result Bytes
      → Action HeaderStoreState DbufValSeq
  encoded_for stream headers (ok b) s = header_for stream headers b (Dict.get s.store_ids b) s
  encoded_for stream headers (err e) s = (err (wrap_with "Encode protected headers failed" e), s)
  encoded_for stream headers panic s = (panic, s)
  encoded_for stream headers stuck s = (stuck, s)

  -- A call holds the mutex from its start to its end.
  unfoldable pub get_header_store_header :
      Result (Bytes → Result Reader) → DbufValSeq → Action HeaderStoreState DbufValSeq
  unfolding create_header_store_header uint64
  get_header_store_header stream headers s = encoded_for stream headers (encode_full_seq headers) s
