-- ===== src/Protocol/Identity/Create/Found.antt =====
-- What `Store` finds in the storage of the key of an identity that `CreateIdentity` has made.
use dbuf_demo_go.Common.{
  ◌+◌, ◌<◌, arith, ◌≡◌, refl, ◌∙◌, ap, sym, ℕ, true, false, List, [], Bytes, length, length-set,
  leb→lt, set, to_byte, to_u64, ◌*◌, ◌^◌, none, some, Option, Bool-cases, inl, inr, leb,
}
use dbuf_demo_go.Basic.Val
use dbuf_demo_go.Basic.Val.{
  contents, Slice, DbufVal, DbufValSeq, leaf, nest, Sequence, no_items, item, to_dbuf_val_string,
}
use dbuf_demo_go.Basic.Error.{Result, ok, err, panic, stuck, ◌>>=◌}
use dbuf_demo_go.Basic.Encode.{
  make_state, encode_items, measure_nested, EncoderState, measure_leaf, measure,
  measure_extra_value, measure_value, encode_seq, leaf_parse_value, write_initial, write_value,
  write_slice, write_bytes, encode_full_seq, encode_sequence,
}
use dbuf_demo_go.Basic.Encode.Full.{write_empty}
use dbuf_demo_go.Basic.Compare.{slice_equal}
use dbuf_demo_go.Basic.Keys.Equality.{bytes_equal_iff}
use dbuf_demo_go.Data.Database.{IsDatabase}
use dbuf_demo_go.Data.Storage
use dbuf_demo_go.Data.Storage.{Storage}
use dbuf_demo_go.Protocol.Names
use dbuf_demo_go.Protocol.Reader.{gives_ok}
use dbuf_demo_go.Protocol.Outside.{Outside}
use dbuf_demo_go.Protocol.Store.Item
use dbuf_demo_go.Protocol.Store.Item.{HeaderStoreCacheItem}
use dbuf_demo_go.Protocol.Store.Cache
use dbuf_demo_go.Protocol.Store.Cache.{identity_key_storage_key}
use dbuf_demo_go.Protocol.Identity.{IdentityWrite}
use dbuf_demo_go.Protocol.Identity.Create.{new_key_place, store_identity}
use dbuf_demo_go.Protocol.Identity.Create.Stored.{IsStored, own_txn, store_identity-IsStored}

-- A value with a slice, or one with a number that fits into its initial byte.
abbrev pub IsShort : DbufVal → Type 0
IsShort v = v.slice ≡ none → v.value < 24

-- `ToDbufValString` and `ToDbufSeq` of a value: its slice is never nil.
abbrev with_slice : DbufVal → DbufVal
with_slice v = record v { slice = some (contents v.slice) }

abbrev number : ℕ → ℕ → DbufVal
number t n = record { type = t; value = n; slice = none }

abbrev no_val : DbufVal
no_val = record { type = 0; value = 0; slice = none }

bind-ext {ℓ κ} :
    {A : Type ℓ} {B : Type κ} (m : Result A) (f g : A → Result B)
    → ((a : A) → f a ≡ g a)
    → (m >>= f) ≡ (m >>= g)
bind-ext (ok a) f g h = h a
bind-ext (err e) f g h = refl
bind-ext panic f g h = refl
bind-ext stuck f g h = refl

number_measure :
    (t n : ℕ) → n < 24 → measure_leaf (number t n) ≡ measure_leaf (with_slice (number t n))
unfolding measure_leaf measure measure_extra_value
number_measure t n h = ground arith

number_written :
    (d : EncoderState) (b n : ℕ)
    → n < 24
    → (write_initial d b n >>= ok) ≡ (write_initial d b n >>= λ d'. write_bytes d' [])
unfolding write_initial write_value write_bytes
number_written d b n h =
    let small : leb 24 n ≡ false = ground arith in
    elim (Bool-cases (leb (length d.bytes) (d.index + 0))) [
      | inl full ↦ rw (small, full) refl
      | inr room ↦
          rw (small, room)
            (sym (
              write_empty
                (record {
                  bytes = set d.bytes d.index (to_byte (to_byte (b * 2 ^ 5) + to_byte n));
                  index = d.index + 1;
                })
                (omega (
                  arith,
                  length-set d.bytes d.index (to_byte (to_byte (b * 2 ^ 5) + to_byte n)),
                  leb→lt _ _ room,
                ))))
    ]

number_encoded :
    (d : EncoderState) (t n : ℕ)
    → n < 24
    → encode_seq d (leaf (number t n)) ≡ encode_seq d (leaf (with_slice (number t n)))
unfolding encode_seq write_slice leaf_parse_value
number_encoded d t n h = number_written d (to_byte t) n h

-- The arguments of `EncodeSequence` for a key.
abbrev key_items : DbufValSeq → DbufVal → Sequence
key_items id v = item (leaf (Val.registry Names.identity_key)) (item id (item (leaf v) no_items))

key_measured :
    (id : DbufValSeq) (v w : DbufVal)
    → measure_leaf v ≡ measure_leaf w
    → measure_value (nest no_val (key_items id v)) false
      ≡ measure_value (nest no_val (key_items id w)) false
unfolding measure_value
key_measured id v w e =
    ap (λ m. m >>= measure_nested false)
      (bind-ext (measure_value id true) _ _
        (λ size. ap (λ m. m >>= λ s. ok (to_u64 (to_u64 (2 + size) + s))) e))

items_encoded :
    (d : EncoderState) (id : DbufValSeq) (v w : DbufVal)
    → ((d' : EncoderState) → encode_seq d' (leaf v) ≡ encode_seq d' (leaf w))
    → encode_items d (key_items id v) ≡ encode_items d (key_items id w)
unfolding encode_seq
items_encoded d id v w e =
    bind-ext (encode_seq d (leaf (Val.registry Names.identity_key))) _ _
      (λ d₁. bind-ext (encode_seq d₁ id) _ _ (λ d₂. ap (λ m. m >>= ok) (e d₂)))

key_encoded :
    (id : DbufValSeq) (t n : ℕ)
    → n < 24
    → encode_sequence (key_items id (number t n))
      ≡ encode_sequence (key_items id (with_slice (number t n)))
unfolding encode_sequence
key_encoded id t n h =
    let v = number t n in
    let w = with_slice (number t n) in
    rw (key_measured id v w (number_measure t n h)) (
      bind-ext (measure_value (nest no_val (key_items id w)) false) _ _ (λ size.
        ap (λ m. m >>= λ es. ok es.bytes)
          (items_encoded (make_state size) id v w (λ d. number_encoded d t n h))))

place_of :
    (o : Outside) (drawn : Bytes) (t n : ℕ) (s : Slice)
    → (s ≡ none → n < 24)
    → encode_sequence (
        key_items (leaf (Val.bytes drawn)) (with_slice (record { type = t; value = n; slice = s })))
      ≡ encode_sequence
          (key_items (leaf (Val.bytes drawn)) (record { type = t; value = n; slice = s }))
place_of o drawn t n none h = sym (key_encoded (leaf (Val.bytes drawn)) t n (h refl))
place_of o drawn t n (some b) h = refl

-- The key of the storage that `Store` makes of the identity and the key of an item is the one that
-- `CreateIdentity` has made of them.
place_asked :
    (o : Outside) (drawn : Bytes) (v : DbufVal)
    → IsShort v
    → identity_key_storage_key o (to_dbuf_val_string (Val.bytes drawn)) (to_dbuf_val_string v)
      ≡ new_key_place (leaf (Val.bytes drawn)) v
unfolding identity_key_storage_key new_key_place
place_asked o drawn v h = place_of o drawn v.type v.value v.slice h

module _ (o : Outside) (law : IsDatabase o.database) where
  open o use {database}
  open law use {holds, sees}

  -- `Store` finds the key of an identity that `CreateIdentity` has made with the random bytes `drawn`
  -- and nothing to recover it by: for an item with this identity and the id of its key, of the same
  -- authority, if the database answers. An id of a key that is a number is less than 24.
  pub stored_key_data-store_identity :
      (storage storage' : Storage database) (drawn : Bytes) (iw : IdentityWrite)
      (host : List DbufVal) (ci : HeaderStoreCacheItem)
      → iw.identity_recovery.has_value ≡ false
      → IsShort iw.identity_key_id.value
      → store_identity o storage (leaf (Val.bytes drawn)) iw host ≡ ok storage'
      → Item.identity ci ≡ ok (to_dbuf_val_string (Val.bytes drawn))
      → Item.identity_key ci ≡ ok (to_dbuf_val_string iw.identity_key_id.value)
      → Item.authority ci ≡ ok host
      → ((q : Bytes)
          → (found : Option Bytes) × (database.find (database.start storage'.kv false) q
              ≡ ok found))
      → (value : Bytes) × (encode_full_seq (leaf (iw.identity_key_data.value)) ≡ ok value)
        × (Cache.stored_key_data o storage' ci ≡ ok value)
  unfolding Cache.stored_key_data Storage.get
  stored_key_data-store_identity storage storage' drawn iw host ci none_set short e has_id has_key
        has_host answers =
      let id = leaf (Val.bytes drawn) in
      let s =
        gives_ok (λ st. IsStored o law storage st id iw host) (store_identity o storage id iw host)
          storage' (store_identity-IsStored o law storage id iw host none_set) e in
      let asked = place_asked o drawn iw.identity_key_id.value short ∙ s.has_place in
      let own : slice_equal host storage'.authority ≡ true = rw s.same_authority s.own_host in
      let (found, answered) = answers s.place in
      let there : found ≡ some s.value =
        law.find-sees (database.start storage'.kv false) s.place found answered
        ∙ law.sees-start storage'.kv false s.place
        ∙ s.held s.place
        ∙ rw ((bytes_equal_iff s.place s.place).1 refl) refl in
      (
        s.value,
        s.has_value,
        rw (has_id, has_key, asked, has_host, own_txn o law storage' host own, answered, there)
            refl,
      )
