-- ===== src/Runs/Keys.antt =====
-- The key manager of a client, on the calls for one authority.
use dbuf_demo_go.Common.{take, replicate, ◌≡◌, refl, true, [], ◌∷◌, Bytes}
use dbuf_demo_go.Basic.Val
use dbuf_demo_go.Basic.Val.{DbufValSeq, leaf}
use dbuf_demo_go.Basic.Error.{ok}
use dbuf_demo_go.Basic.Encode.{encode_full_seq}
use dbuf_demo_go.Basic.Keys.{bytes_equal}
use dbuf_demo_go.Basic.Keys.Equality.{bytes_eq}
use dbuf_demo_go.Connection.KeyManager.{
  TestKeyManager, make_test_key_manager, create_key, get_key, init_identity, get_signature,
  public_key_value,
}
use dbuf_demo_go.Connection.KeyManager.Spec.{create, identify, ask_key}
use dbuf_demo_go.Connection.KeyManager.Refinement.{run, IsAnswered, run-IsAnswered}
use dbuf_demo_go.Connection.KeyManager.Steps.{here, next, IsReported, Reach-IsReported}
use dbuf_demo_go.Connection.KeyManager.Stable.{Reach-get_key}

abbrev pub sign : Bytes → Bytes → Bytes
sign key message = take 1 message

abbrev pub ref : DbufValSeq
ref = leaf (Val.array_slice (0xCB ∷ 0xCA ∷ []))

abbrev pub id : DbufValSeq
id = leaf (Val.bytes (7 ∷ []))

abbrev pub empty_manager : TestKeyManager
empty_manager = record make_test_key_manager { has_data_change_func = true }

abbrev pub with_key : TestKeyManager
with_key = (run sign (create (ok (replicate 32 0, 2 ∷ []))) ref empty_manager).1

abbrev pub with_identity : TestKeyManager
with_identity = (run sign (identify id) ref with_key).1

encoded : encode_full_seq ref ≡ ok (0x82 ∷ 0xCB ∷ 0xCA ∷ [])
unfolding encode_full_seq
encoded = refl

run-IsAnswered_example :
    IsAnswered sign with_key
      (0x82 ∷ 0xCB ∷ 0xCA ∷ [])
      (identify id)
      (run sign (identify id) ref with_key)
run-IsAnswered_example =
    run-IsAnswered sign with_key (identify id) ref (0x82 ∷ 0xCB ∷ 0xCA ∷ []) encoded

Reach-get_key_example :
    ((a : DbufValSeq × DbufValSeq × DbufValSeq)
      → (get_key ref with_identity).0 ≡ ok a
      → (get_key ref (run sign ask_key ref with_identity).1).0 ≡ ok a)
    × ((t : Bytes) (s : DbufValSeq)
        → (get_signature sign ref t with_identity).0 ≡ ok s
        → (get_signature sign ref t (run sign ask_key ref with_identity).1).0 ≡ ok s)
Reach-get_key_example =
    Reach-get_key sign with_identity (run sign ask_key ref with_identity).1 ref
      (next here ask_key ref)

gives_identity :
    (get_key ref with_identity).0 ≡ ok (id, leaf (Val.uint 0), public_key_value (replicate 32 0))
unfolding create_key init_identity get_key make_test_key_manager encode_full_seq bytes_equal
gives_identity = refl

Reach-IsReported_example : IsReported sign empty_manager with_identity
Reach-IsReported_example =
    Reach-IsReported sign empty_manager with_identity refl
      (next (next here (create (ok (replicate 32 0, 2 ∷ []))) ref) (identify id) ref)
