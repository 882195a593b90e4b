-- ===== src/Demo/Client/Saved.antt =====
-- The keys that are saved are the keys that are loaded.
use dbuf_demo_go.Common.{
  ◌≡◌, refl, sym, ap, ◌∙◌, ◌⊎◌, true, Bool-cases, inl, inr, List, [], ◌∷◌, Bytes, Option, none,
  some,
}
use dbuf_demo_go.Common.Dict
use dbuf_demo_go.Common.Dict.{Dict, get-put_self, get-put_ne}
use dbuf_demo_go.Basic.Error.{Result, ok, err, panic, stuck, ◌>>=◌}
use dbuf_demo_go.Basic.Encode.{encode_full_seq}
use dbuf_demo_go.Basic.Keys.{bytes_equal}
use dbuf_demo_go.Basic.Keys.Equality.{bytes_eq, bytes_equal_iff}
use dbuf_demo_go.Connection.KeyManager.{KeyInit, TestKeyManager, make_test_key_manager}
use dbuf_demo_go.Connection.KeyManager.Steps.{Reach}
use dbuf_demo_go.Protocol.Reader.{Gives, bind-Gives, gives_ok}
use dbuf_demo_go.Connection.KeyManager.Keyed.{put-IsKeyed, IsKeyed, Reach-IsKeyed}
use dbuf_demo_go.Demo.Client.{Json, or_panic, load_keys, keys_in_file, load_key_manager, save_keys}

-- What `json.Unmarshal` gives back of what `json.Marshal` has made.
abbrev pub IsJson : Json → Type 0
IsJson json =
    (kis : List KeyInit) (b : json.Text) → json.marshal kis ≡ ok b → json.unmarshal b ≡ ok kis

-- The key `ki` is in the list.
abbrev pub IsIn : KeyInit → List KeyInit → Type 0
IsIn ki [] = ⊥
IsIn ki (x ∷ rest) = (ki ≡ x) ⊎ IsIn ki rest

-- The values of a map, in some order.
pub record AreValues (keys : Dict Bytes KeyInit) (values : List KeyInit) : Type 0 where
  pub all_there : (k : Bytes) (ki : KeyInit) → Dict.get keys k ≡ some ki → IsIn ki values
  pub no_others : (ki : KeyInit) → IsIn ki values → (k : Bytes) × (Dict.get keys k ≡ some ki)

ok_injective : {a b : Bytes} → ok a ≡ ok b → a ≡ b
ok_injective e = cc

module _ (keys : Dict Bytes KeyInit) (keyed : IsKeyed keys) where
  -- A part of the keys.
  abbrev Within : Dict Bytes KeyInit → Type 0
  Within d = (k : Bytes) (ki : KeyInit) → Dict.get d k ≡ some ki → Dict.get keys k ≡ some ki

  -- Every value of the list is one of the keys.
  abbrev Known : List KeyInit → Type 0
  Known values = (ki : KeyInit) → IsIn ki values → (k : Bytes) × (Dict.get keys k ≡ some ki)

  put-Within :
      (d : Dict Bytes KeyInit) (k : Bytes) (ki : KeyInit)
      → Within d
      → Dict.get keys k ≡ some ki
      → Within (Dict.put d k ki)
  put-Within d k ki h e q kq found = elim (Bool-cases (bytes_equal k q)) [
    | inl same ↦
        let k≡q = (bytes_equal_iff k q).0 same in
        sym (ap (Dict.get keys) k≡q)
        ∙ e
        ∙ sym (get-put_self d k ki)
        ∙ ap (Dict.get (Dict.put d k ki)) k≡q
        ∙ found
    | inr other ↦ h q kq (sym (get-put_ne d k q ki other) ∙ found)
  ]

  -- What is in the map stays there while more is loaded.
  put-keeps :
      (d : Dict Bytes KeyInit) (k q : Bytes) (ki kq : KeyInit)
      → Dict.get keys k ≡ some ki
      → Dict.get keys q ≡ some kq
      → Dict.get d q ≡ some kq
      → Dict.get (Dict.put d k ki) q ≡ some kq
  put-keeps d k q ki kq e eq h = elim (Bool-cases (bytes_equal k q)) [
    | inl same ↦
        let k≡q = (bytes_equal_iff k q).0 same in
        sym (ap (Dict.get (Dict.put d k ki)) k≡q)
        ∙ get-put_self d k ki
        ∙ sym e
        ∙ ap (Dict.get keys) k≡q
        ∙ eq
    | inr other ↦ get-put_ne d k q ki other ∙ h
  ]

  -- The loop over values that are known.
  record Loaded (values : List KeyInit) (d d' : Dict Bytes KeyInit) : Type 0 where
    loads : load_keys values d ≡ ok d'
    within : Within d'
    keeps :
        (q : Bytes) (kq : KeyInit)
        → Dict.get keys q ≡ some kq
        → Dict.get d q ≡ some kq
        → Dict.get d' q ≡ some kq
    covers :
        (q : Bytes) (kq : KeyInit)
        → Dict.get keys q ≡ some kq
        → IsIn kq values
        → Dict.get d' q ≡ some kq

  load_keys-Loaded :
      (values : List KeyInit) (d : Dict Bytes KeyInit)
      → Known values
      → Within d
      → (d' : Dict Bytes KeyInit) × Loaded values d d'
  unfolding load_keys
  load_keys-Loaded [] d known h =
      (d, record { loads = refl; within = h; keeps = λ q kq e g. g; covers = λ q kq e i. absurd i })
  load_keys-Loaded (ki ∷ rest) d known h =
      let (k, e) = known ki (inl refl) in
      let (d', l) =
        load_keys-Loaded rest (Dict.put d k ki) (λ x i. known x (inr i)) (put-Within d k ki h e) in
      (
        d',
        record {
          loads = rw (keyed k ki e) l.loads;
          within = l.within;
          keeps = λ q kq eq g. l.keeps q kq eq (put-keeps d k q ki kq e eq g);
          covers = λ q kq eq i. elim i [
            | inl same ↦
                let k≡q : k ≡ q = ok_injective (
                  sym (keyed k ki e)
                  ∙ ap (λ x. encode_full_seq x.authority_ref) (sym same)
                  ∙ keyed q kq eq) in
                l.keeps q kq eq (
                  sym (ap (Dict.get (Dict.put d k ki)) k≡q)
                  ∙ get-put_self d k ki
                  ∙ ap some (sym same))
            | inr later ↦ l.covers q kq eq later
          ];
        },
      )

  -- The map that is loaded from all values of the keys.
  load_keys-all :
      (values : List KeyInit)
      → AreValues keys values
      → (d : Dict Bytes KeyInit) × (load_keys values [] ≡ ok d)
        × ((k : Bytes) → Dict.get d k ≡ Dict.get keys k)
  load_keys-all values are =
      let (d, l) = load_keys-Loaded values [] are.no_others (λ k ki e. absurd cc) in
      (d, l.loads, λ k. same d l k (Dict.get keys k) refl (Dict.get d k) refl)
    where
      same :
          (d : Dict Bytes KeyInit)
          → Loaded values [] d
          → (k : Bytes) (o : Option KeyInit) → Dict.get keys k ≡ o
          → (o' : Option KeyInit) → Dict.get d k ≡ o'
          → Dict.get d k ≡ Dict.get keys k
      same d l k (some ki) e o' e' = l.covers k ki e (are.all_there k ki e) ∙ sym e
      same d l k none e none e' = e' ∙ sym e
      same d l k none e (some ki) e' = absurd (cc (sym e ∙ l.within k ki e'))

or_panic_ok {ℓ} : {A : Type ℓ} (m : Result A) (a : A) → or_panic m ≡ ok a → m ≡ ok a
or_panic_ok (ok x) a e = e
or_panic_ok (err x) a e = absurd cc
or_panic_ok panic a e = absurd cc
or_panic_ok stuck a e = absurd cc

load_keys-IsKeyed :
    (values : List KeyInit) (d : Dict Bytes KeyInit)
    → IsKeyed d
    → Gives IsKeyed (load_keys values d)
unfolding load_keys
load_keys-IsKeyed [] d h = h
load_keys-IsKeyed (ki ∷ rest) d h =
    bind-Gives IsKeyed (or_panic (encode_full_seq ki.authority_ref)) _ (λ k e.
      load_keys-IsKeyed rest (Dict.put d k ki)
        (put-IsKeyed d k ki h (or_panic_ok (encode_full_seq ki.authority_ref) k e)))

module _ (sign : Bytes → Bytes → Bytes) (json : Json) where
  keys_in_file-IsKeyed : (file : Option json.Text) → Gives IsKeyed (keys_in_file json file)
  unfolding keys_in_file
  keys_in_file-IsKeyed none = λ k ki e. absurd cc
  keys_in_file-IsKeyed (some b) =
      bind-Gives IsKeyed (or_panic (json.unmarshal b)) _
        (λ kis e. load_keys-IsKeyed kis [] (λ k ki e'. absurd cc))

  load_key_manager-IsKeyed :
      (file : Option json.Text)
      → Gives (λ (m : TestKeyManager). IsKeyed m.keys) (load_key_manager json file)
  unfolding load_key_manager
  load_key_manager-IsKeyed file =
      bind-Gives _ (keys_in_file json file) _
        (λ keys e. gives_ok IsKeyed (keys_in_file json file) keys (keys_in_file-IsKeyed file) e)

  -- A key manager that was loaded from any file, after any calls: what `DataChangeFunc` writes to the
  -- file, in whatever order it meets the keys, is loaded by `LoadKeyManager` as a key manager with the
  -- same key for every authority, if `json.Unmarshal` gives back what `json.Marshal` was given.
  pub load_key_manager-save_keys :
      (file : Option json.Text) (m₀ m : TestKeyManager) (values : List KeyInit) (b : json.Text)
      → IsJson json
      → load_key_manager json file ≡ ok m₀
      → Reach sign m₀ m
      → AreValues m.keys values
      → save_keys json values (ok tt) ≡ ok b
      → (m' : TestKeyManager) × (load_key_manager json (some b) ≡ ok m')
        × (m'.has_data_change_func ≡ true)
        × ((k : Bytes) → Dict.get m'.keys k ≡ Dict.get m.keys k)
  unfolding load_key_manager keys_in_file save_keys make_test_key_manager
  load_key_manager-save_keys file m₀ m values b law loaded r are saved =
      let keyed = Reach-IsKeyed sign r (
        gives_ok (λ (x : TestKeyManager). IsKeyed x.keys) (load_key_manager json file) m₀
          (load_key_manager-IsKeyed file) loaded) in
      let (d, loads, same) = load_keys-all m.keys keyed values are in
      (
        record { keys = d; has_data_change_func = true; data_changes = [] },
        rw (law values b (marshalled (json.marshal values) refl saved), loads) refl,
        refl,
        same,
      )
    where
      marshalled :
          (x : Result json.Text)
          → json.marshal values ≡ x
          → (or_panic x >>= λ b'. ok b') ≡ ok b
          → json.marshal values ≡ ok b
      marshalled (ok b') e h = e ∙ h
      marshalled (err x) e h = absurd cc
      marshalled panic e h = absurd cc
      marshalled stuck e h = absurd cc
