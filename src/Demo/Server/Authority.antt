-- ===== src/Demo/Server/Authority.antt =====
-- The authority that the demo client puts into its headers is that of the storage of the demo server.
use dbuf_demo_go.Common.{
  suc, ◌≤◌, ◌≡◌, le→ltb, length-append, List, refl, sym, subst, ◌∙◌, ap, Bool, [], ◌∷◌, ◌++◌,
  append_assoc, append-nil, Bytes, length, All, IsByte, IsU32, arith, inl, inr,
}
use dbuf_demo_go.Basic.ParseType
use dbuf_demo_go.Basic.Val
use dbuf_demo_go.Basic.Val.{
  DbufVal, DbufValSeq, leaf, nest, Sequence, no_items, item, to_dbuf_val_string,
}
use dbuf_demo_go.Basic.Const.{max_u32}
use dbuf_demo_go.Basic.Error.{ok}
use dbuf_demo_go.Basic.Wire.{
  header, wire, wire_items, received, received_items, ItemsAreWellFormed, ItemsAreTyped,
}
use dbuf_demo_go.Basic.Decode.Sequence.{decode_sequence-wire}
use dbuf_demo_go.Basic.Compare.{equal, compare, compare_bytes}
use dbuf_demo_go.Basic.Keys.{key_equal}
use dbuf_demo_go.Basic.Compare.Laws.{slice_equal_iff}
use dbuf_demo_go.Data.Storage.{Storage, new_transaction}
use dbuf_demo_go.Protocol.Names
use dbuf_demo_go.Protocol.Outside.{Outside}
use dbuf_demo_go.Protocol.Path.{
  no_path, reference_key, items_of, marker_index, split_at, reference_parts, read_reference,
  read_operation, get_path_properties,
}
use dbuf_demo_go.Protocol.Store.Merge.{joined}
use dbuf_demo_go.Demo.Client.{make_authority_ref}
use dbuf_demo_go.Demo.Server.{host_authority, default_storage, new_badger_storage}

-- The items of the authority reference with those of a path behind it.
abbrev whole : Bytes → Sequence → Sequence
whole name path =
    item (leaf (Val.registry Names.host))
      (item (leaf (Val.text name)) (item (leaf (Val.registry Names.authority_marker)) path))

-- The reference of the request as the server has it: that of the stored headers, joined with the path
-- of the request.
abbrev pub request_reference : Bytes → Sequence → DbufVal
request_reference name path =
    joined (received (make_authority_ref name)) (received (nest Val.array path))

joined_items :
    (name : Bytes) (path : Sequence)
    → request_reference name path ≡ Val.array_slice (wire_items (whole name path))
unfolding make_authority_ref received wire
joined_items name path =
    let a = wire (leaf (Val.registry Names.host)) in
    let b = wire (leaf (Val.text name)) in
    let c = wire (leaf (Val.registry Names.authority_marker)) in
    let d = wire_items path in
    ap Val.array_slice (
      append_assoc a (b ++ (c ++ [])) d
      ∙ ap (λ t. a ++ t)
          (append_assoc b (c ++ []) d ∙ ap (λ t. b ++ t) (ap (λ t. t ++ d) (append-nil c))))

module _ (name : Bytes) (path : Sequence) where
  -- The path of a request can be encoded, behind the reference of the authority.
  pub record IsEncodable : Type 0 where
    pub name_bytes : All IsByte name
    pub path_well_formed : ItemsAreWellFormed path
    pub path_typed : ItemsAreTyped path
    pub short : IsU32 (length (wire_items (whole name path)))

-- What the decoder makes of the reference.
decoded_items :
    (name : Bytes) (path : Sequence)
    → IsEncodable name path
    → items_of reference_key (Val.array_slice (wire_items (whole name path)))
      ≡ ok (host_authority name ++ Val.registry Names.authority_marker ∷ received_items path)
unfolding items_of received_items received ItemsAreWellFormed wire
decoded_items name path h =
    let well : ItemsAreWellFormed (whole name path) = (
      (omega arith, omega arith, tt),
      (
        (omega arith, omega arith, (refl, name_short, h.name_bytes)),
        ((omega arith, omega arith, tt), h.path_well_formed),
      ),
    ) in
    let typed : ItemsAreTyped (whole name path) =
      (inr (refl, refl), (inl (refl, refl), (inr (refl, refl), h.path_typed))) in
    rw (decode_sequence-wire (whole name path) well typed h.short) refl
  where
    name_short : length name ≤ max_u32
    name_short =
        let text = header (ParseType.text) (length name) in
        let rest = wire_items (item (leaf (Val.registry Names.authority_marker)) path) in
        omega (
          arith,
          h.short,
          length-append text name,
          length-append (text ++ name) rest,
          length-append (wire (leaf (Val.registry Names.host))) ((text ++ name) ++ rest),
        )

path_of :
    (name b : Bytes) (path : List DbufVal)
    → items_of reference_key (Val.array_slice b)
      ≡ ok (host_authority name ++ Val.registry Names.authority_marker ∷ path)
    → get_path_properties ((to_dbuf_val_string reference_key, Val.array_slice b) ∷ [])
      ≡ ok (record no_path { authority = host_authority name; sub_path = path })
unfolding get_path_properties read_reference reference_parts marker_index split_at equal compare
    compare_bytes key_equal read_operation
path_of name b path e =
    let n = length path in
    rw (e, le→ltb (suc (suc (suc n))) 1 (omega arith), le→ltb (suc (suc (suc n))) 2 (omega arith))
      refl

-- The server takes the reference of a client apart into the authority that the client has made its
-- headers for, which is the authority of its storage if the client has used its host name, and the path
-- of the request.
pub get_path_properties-make_authority_ref :
    (o : Outside) (kv : o.database.Db) (write : Bool) (name : Bytes) (path : Sequence)
    → IsEncodable name path
    → (storage : Storage o.database) × (default_storage o (ok kv) name ≡ ok storage)
      × (get_path_properties ((to_dbuf_val_string reference_key, request_reference name path) ∷ [])
          ≡ ok (record no_path { authority = storage.authority; sub_path = received_items path }))
      × (new_transaction o.database storage storage.authority write
          ≡ ok (o.database.start kv write))
unfolding new_transaction default_storage new_badger_storage
get_path_properties-make_authority_ref o kv write name path h =
    let same = (slice_equal_iff (host_authority name) (host_authority name)).1 refl in
    (
      record { kv = kv; authority = host_authority name },
      refl,
      subst
          (λ v.
            get_path_properties ((to_dbuf_val_string reference_key, v) ∷ [])
            ≡ ok (record no_path {
              authority = host_authority name;
              sub_path = received_items path;
            }))
          (sym (joined_items name path))
          (path_of name (wire_items (whole name path)) (received_items path)
            (decoded_items name path h)),
      rw same refl,
    )
