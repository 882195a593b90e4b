-- ===== src/Connection/KeyManager/Stable.antt =====
-- The keys and the identities of a `TestKeyManager` over a sequence of calls.
use dbuf_demo_go.Common.{◌≡◌, inl, inr, refl, ◌∙◌, ap, sym, Bool-cases}
use dbuf_demo_go.Common.{Option, none, some, Bytes}
use dbuf_demo_go.Common.Dict
use dbuf_demo_go.Common.Dict.{Dict}
use dbuf_demo_go.Basic.Val.{DbufValSeq}
use dbuf_demo_go.Basic.Error.{Result, ok, err, panic, stuck}
use dbuf_demo_go.Basic.Encode.{encode_full_seq}
use dbuf_demo_go.Basic.Keys.Equality.{bytes_eq}
use dbuf_demo_go.Protocol.Action.{lift, ◌>>=◌}
use dbuf_demo_go.Connection.KeyManager.{
  KeyInit, TestKeyManager, get_key, get_signature, key_at, key_of, signature_of,
}
use dbuf_demo_go.Connection.KeyManager.Spec.{Key}
use dbuf_demo_go.Connection.KeyManager.Refinement.{key_part, status_of}
use dbuf_demo_go.Connection.KeyManager.Steps.{Reach, Reach-Extends, Extends, key_in, identity_in}

module _ (sign : Bytes → Bytes → Bytes) where
  -- A question to the key of an authority, answered again after more calls.
  ask-stable {ℓ} :
      {A : Type ℓ} (m m' : TestKeyManager) (enc : Result Bytes) (f : Option KeyInit → Result A)
      (a : A)
      → Reach sign m m'
      → ((o o' : Option KeyInit) → Extends (status_of o) (status_of o') → f o ≡ ok a → f o' ≡ ok a)
      → ((lift enc >>= λ k. key_at k >>= λ o. lift (f o)) m).0 ≡ ok a
      → ((lift enc >>= λ k. key_at k >>= λ o. lift (f o)) m').0 ≡ ok a
  ask-stable m m' (ok k) f a r stable e =
      stable (Dict.get m.keys k) (Dict.get m'.keys k) (Reach-Extends sign r k) e
  ask-stable m m' (err x) f a r stable e = e
  ask-stable m m' panic f a r stable e = e
  ask-stable m m' stuck f a r stable e = e

  key_in-some : (ki : KeyInit) → key_in (status_of (some ki)) ≡ some (key_part ki)
  key_in-some ki = elim (Bool-cases ki.has_identity) [ inl f ↦ rw f refl | inr f ↦ rw f refl ]

  -- What the status says of a key.
  key_in-of :
      (o : Option KeyInit) (k : Key)
      → key_in (status_of o) ≡ some k
      → (ki : KeyInit) × (o ≡ some ki) × (key_part ki ≡ k)
  key_in-of none k e = absurd cc
  key_in-of (some ki) k e =
      let same : some (key_part ki) ≡ some k = sym (key_in-some ki) ∙ e in (ki, refl, cc)

  signature_of-stable :
      (t : Bytes) (a : DbufValSeq) (o o' : Option KeyInit)
      → Extends (status_of o) (status_of o')
      → signature_of sign t o ≡ ok a
      → signature_of sign t o' ≡ ok a
  signature_of-stable t a none o' h e = absurd cc
  signature_of-stable t a (some ki) o' h e =
      let (ki', same, parts) = key_in-of o' (key_part ki) (h.0 (key_part ki) (key_in-some ki)) in
      rw same (rw (ap (λ (k : Key). k.private_key) parts) e)

  key_of-status :
      (o : Option KeyInit) (a : DbufValSeq × DbufValSeq × DbufValSeq)
      → key_of o ≡ ok a
      → (identity_in (status_of o) ≡ some a.0)
        × ((k : Key) × (key_in (status_of o) ≡ some k) × (a ≡ (a.0, k.key_id, k.public_key_data)))
  key_of-status none a = λ e. absurd cc
  key_of-status (some ki) a = elim (Bool-cases ki.has_identity) [
    | inl f ↦ rw f (λ e. (cc, (key_part ki, refl, parts e)))
    | inr f ↦ rw f (λ e. absurd cc)
  ]
    where
      parts :
          ok (ki.identity, ki.key_id, ki.public_key_data) ≡ ok a
          → a ≡ (a.0, ki.key_id, ki.public_key_data)
      parts e = cc

  status-key_of :
      (o : Option KeyInit) (i : DbufValSeq) (k : Key)
      → identity_in (status_of o) ≡ some i
      → key_in (status_of o) ≡ some k
      → key_of o ≡ ok (i, k.key_id, k.public_key_data)
  status-key_of none i k = λ e e'. absurd cc
  status-key_of (some ki) i k = elim (Bool-cases ki.has_identity) [
    | inl f ↦ rw f (λ e e'. cc)
    | inr f ↦ rw f (λ e e'. absurd cc)
  ]

  key_of-stable :
      (a : DbufValSeq × DbufValSeq × DbufValSeq) (o o' : Option KeyInit)
      → Extends (status_of o) (status_of o')
      → key_of o ≡ ok a
      → key_of o' ≡ ok a
  key_of-stable a o o' (keys, ids) e =
      let (has_id, (k, has_key, parts)) = key_of-status o a e in
      status-key_of o' (a.0) k (ids (a.0) has_id) (keys k has_key) ∙ ap (λ p. ok p) (sym parts)

  -- Whatever calls follow: the identity and the key that the key manager gives for an authority it
  -- gives again, and a signature that it makes for an authority it makes again.
  pub Reach-get_key :
      (m m' : TestKeyManager) (ref : DbufValSeq)
      → Reach sign m m'
      → ((a : DbufValSeq × DbufValSeq × DbufValSeq)
          → (get_key ref m).0 ≡ ok a
          → (get_key ref m').0 ≡ ok a)
        × ((t : Bytes) (s : DbufValSeq)
            → (get_signature sign ref t m).0 ≡ ok s
            → (get_signature sign ref t m').0 ≡ ok s)
  unfolding get_key get_signature
  Reach-get_key m m' ref r = (
    λ a. ask-stable m m' (encode_full_seq ref) key_of a r (key_of-stable a),
    λ t s.
        ask-stable m m' (encode_full_seq ref) (signature_of sign t) s r (signature_of-stable t s),
  )
