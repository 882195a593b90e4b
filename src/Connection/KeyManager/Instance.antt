-- ===== src/Connection/KeyManager/Instance.antt =====
-- `TestKeyManager` as a `KeyManager` of protocol/authentication.go.
use dbuf_demo_go.Common.{Bytes}
use dbuf_demo_go.Basic.Error.{Result}
use dbuf_demo_go.Protocol.Client.Keys.{KeyManager}
use dbuf_demo_go.Connection.KeyManager.{
  TestKeyManager, Generated, create_key, init_identity, get_key, get_signature,
}

-- `generated` is what `ed25519.GenerateKey` draws in the next calls.
abbrev pub test_key_manager : (Bytes → Bytes → Bytes) → Result Generated → KeyManager
test_key_manager sign generated = record {
  State = TestKeyManager;
  create_key = create_key generated;
  init_identity = init_identity;
  get_key = get_key;
  get_signature = get_signature sign;
}
