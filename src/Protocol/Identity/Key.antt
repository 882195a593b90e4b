-- ===== src/Protocol/Identity/Key.antt =====
-- The keys that `ParseIdentityWrite` lets through.
use dbuf_demo_go.Common.{
  negated, ◌≡◌, refl, Bool, true, false, not, ◌||◌, ◌==◌, ==_iff, List, [], ◌∷◌, Option, none, some,
  length,
}
use dbuf_demo_go.Basic.ParseType
use dbuf_demo_go.Basic.Val
use dbuf_demo_go.Basic.Val.{DbufVal, contents, to_dbuf_val_string}
use dbuf_demo_go.Basic.Error.{Result, ok, panic, GoError}
use dbuf_demo_go.Basic.Compare.{equal}
use dbuf_demo_go.Basic.Keys.Equality.{key_equal_iff}
use dbuf_demo_go.Basic.Compare.Laws.{equal_iff}
use dbuf_demo_go.Basic.Decode.{DecodedSequence, decode_sequence}
use dbuf_demo_go.Protocol.Names
use dbuf_demo_go.Protocol.Stream.{decoder}
use dbuf_demo_go.Protocol.Reader.{Gives, Gives-mono, if-Gives, bind-Gives, gives_ok}
use dbuf_demo_go.Protocol.Store.Item.{at}
use dbuf_demo_go.Protocol.Identity.{
  IdentityWrite, no_write, is_identity_prop, check_algorithm, check_items, check_key_value,
  key_pair, parse_key, parse_entry, parse_entries, entries_of, parse_identity_write, refuse_first,
}

-- An array of the name of the algorithm and a public key of 32 bytes.
pub record IsEd25519 (v : DbufVal) : Type 0 where
  pub decoded : DecodedSequence
  pub algorithm : DbufVal
  pub key : DbufVal
  pub is_array : v.type ≡ ParseType.array
  pub has_items : decode_sequence (decoder (contents v.slice)) ≡ ok decoded
  pub no_error : decoded.error ≡ none
  pub items : decoded.seq ≡ algorithm ∷ key ∷ []
  pub named : equal algorithm (Val.registry Names.ed25519) ≡ true
  pub in_bytes : key.type ≡ ParseType.bytes
  pub full : length (contents key.slice) ≡ 32

-- The id of a key comes with its data, and nothing is set to recover the identity.
abbrev pub IsChecked : IdentityWrite → Type 0
IsChecked out =
    (out.identity_recovery.has_value ≡ false)
    × (out.identity_key_id.has_value ≡ out.identity_key_data.has_value)
    × (out.identity_key_id.has_value ≡ true → IsEd25519 (out.identity_key_data.value))

neither : (a b : Bool) → (not a || not b) ≡ false → (a ≡ true) × (b ≡ true)
neither true true e = (refl, refl)
neither true false e = absurd cc
neither false true e = absurd cc
neither false false e = absurd cc

abbrev IsAlgorithm : DbufVal → DbufVal → Type 0
IsAlgorithm a k =
    (equal a (Val.registry Names.ed25519) ≡ true)
    × (k.type ≡ ParseType.bytes)
    × (length (contents k.slice) ≡ 32)

check_algorithm-IsAlgorithm : (a k : DbufVal) → Gives (λ u. IsAlgorithm a k) (check_algorithm a k)
unfolding check_algorithm
check_algorithm-IsAlgorithm a k =
    let P : Unit {0} → Type 0 = λ u. IsAlgorithm a k in
    if-Gives P (equal a (Val.registry Names.ed25519)) _ _
      (λ e.
        if-Gives P (not (k.type == ParseType.bytes) || not (length (contents k.slice) == 32)) _ _
          (λ f. tt)
          (λ f.
            let (in_bytes, full) = neither _ _ f in
            (
              e,
              (==_iff k.type ParseType.bytes).0 in_bytes,
              (==_iff (length (contents k.slice)) 32).0 full,
            )))
      (λ e. tt)

refused : (P : Unit {0} → Type 0) (sv : List DbufVal) (e : GoError) → Gives P (refuse_first sv e)
refused P sv e = bind-Gives P (at sv 0) _ (λ h f. tt)

abbrev IsPair : Option GoError → List DbufVal → Type 0
IsPair e sv = (a : DbufVal) × (k : DbufVal) × (e ≡ none) × (sv ≡ a ∷ k ∷ []) × IsAlgorithm a k

check_items-IsPair :
    (e : Option GoError) (sv : List DbufVal) → Gives (λ u. IsPair e sv) (check_items e sv)
check_items-IsPair (some e) sv = refused (λ u. IsPair (some e) sv) sv e
check_items-IsPair none [] = tt
check_items-IsPair none (a ∷ []) = tt
check_items-IsPair none (a ∷ k ∷ []) =
    Gives-mono (λ u. IsAlgorithm a k) (λ u. IsPair none (a ∷ k ∷ [])) (check_algorithm a k)
      (λ u h. (a, k, refl, refl, h)) (check_algorithm-IsAlgorithm a k)
check_items-IsPair none (a ∷ k ∷ l ∷ sv) = tt

check_key_value-IsEd25519 : (id ukk : DbufVal) → Gives (λ u. IsEd25519 ukk) (check_key_value id ukk)
unfolding check_key_value
check_key_value-IsEd25519 id ukk =
    let P : Unit {0} → Type 0 = λ u. IsEd25519 ukk in
    if-Gives P (ukk.type == ParseType.array) _ _
      (λ t. bind-Gives P (decode_sequence (decoder (contents ukk.slice))) _ (λ d e.
        Gives-mono (λ u. IsPair d.error d.seq) P (check_items d.error d.seq)
          (λ u (a, k, no_error, items, (named, in_bytes, full)). record {
            decoded = d;
            algorithm = a;
            key = k;
            is_array = (==_iff ukk.type ParseType.array).0 t;
            has_items = e;
            no_error = no_error;
            items = items;
            named = named;
            in_bytes = in_bytes;
            full = full;
          })
          (check_items-IsPair d.error d.seq)))
      (λ t. tt)

key_pair-IsChecked :
    (out : IdentityWrite) (e : Option GoError) (sv : List DbufVal)
    → IsChecked out
    → Gives IsChecked (key_pair out e sv)
key_pair-IsChecked out (some e) sv h = tt
key_pair-IsChecked out none [] h = tt
key_pair-IsChecked out none (id ∷ []) h = tt
key_pair-IsChecked out none (id ∷ ukk ∷ []) h =
    bind-Gives IsChecked (check_key_value id ukk) _ (λ u e.
      (h.0, refl, λ _. gives_ok (λ u. IsEd25519 ukk) _ u (check_key_value-IsEd25519 id ukk) e))
key_pair-IsChecked out none (id ∷ ukk ∷ x ∷ sv) h = tt

-- A key in `identityProps` is the one that the first branch takes.
only_key :
    (v : DbufVal)
    → not (is_identity_prop v) ≡ false
    → ¬ (equal v (Val.registry Names.identity_key) ≡ false)
only_key v f g =
    let same = (key_equal_iff (to_dbuf_val_string v) _).0 (negated (is_identity_prop v) f) in
    let e = (equal_iff v (Val.registry Names.identity_key)).1 same in cc

parse_entry-IsChecked :
    (out : IdentityWrite) (v : DbufVal) (value : Result DbufVal)
    → IsChecked out
    → Gives IsChecked (parse_entry out v value)
unfolding parse_entry parse_key
parse_entry-IsChecked out v value h =
    if-Gives IsChecked (not (is_identity_prop v)) _ _ (λ f. tt)
      (λ f.
        if-Gives IsChecked (equal v (Val.registry Names.identity_key)) _ _
          (λ g. bind-Gives IsChecked value _ (λ w e.
            if-Gives IsChecked (w.type == ParseType.map) _ _
              (λ t.
                bind-Gives IsChecked (decode_sequence (decoder (contents w.slice))) _
                  (λ d e'. key_pair-IsChecked out d.error d.seq h))
              (λ t. tt)))
          (λ g.
            if-Gives IsChecked (equal v (Val.registry Names.identity_recovery)) _ _
              (λ r. absurd (only_key v f g)) (λ r. tt)))

parse_entries-IsChecked :
    (out : IdentityWrite) (sv : List DbufVal)
    → IsChecked out
    → Gives IsChecked (parse_entries out sv)
unfolding parse_entries
parse_entries-IsChecked out [] h = h
parse_entries-IsChecked out (v ∷ []) h = parse_entry-IsChecked out v panic h
parse_entries-IsChecked out (v ∷ w ∷ sv) h =
    bind-Gives IsChecked (parse_entry out v (ok w)) _ (λ out' e.
      parse_entries-IsChecked out' sv
        (gives_ok IsChecked _ out' (parse_entry-IsChecked out v (ok w) h) e))

entries_of-IsChecked : (e : Option GoError) (sv : List DbufVal) → Gives IsChecked (entries_of e sv)
entries_of-IsChecked none sv = parse_entries-IsChecked no_write sv (refl, refl, λ e. absurd cc)
entries_of-IsChecked (some e) sv = tt

-- What `ParseIdentityWrite` returns without an error has nothing to recover the identity by; it has the
-- id of a key if and only if it has the data of one, and the data are then an array of the name
-- ed25519 and of 32 bytes.
pub parse_identity_write-IsChecked : (body : DbufVal) → Gives IsChecked (parse_identity_write body)
unfolding parse_identity_write
parse_identity_write-IsChecked body =
    if-Gives IsChecked (body.type == ParseType.map) _ _
      (λ t.
        bind-Gives IsChecked (decode_sequence (decoder (contents body.slice))) _
          (λ d e. entries_of-IsChecked d.error d.seq))
      (λ t. tt)
