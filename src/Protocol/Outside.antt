-- ===== src/Protocol/Outside.antt =====
-- The code that the package protocol calls and that is not in the repository: a database, the
-- exporter of a TLS connection, signatures of ed25519 and random bytes.
use dbuf_demo_go.Common.{ℕ, Bool, Bytes}
use dbuf_demo_go.Basic.Error.{Result}
use dbuf_demo_go.Data.Database.{Database}

pub record Outside : Type 1 where
  pub database : Database
  -- `ExportKeyingMaterial` of the connection: the label, the context and the length.
  pub export_keying_material : Bytes → Bytes → ℕ → Result Bytes
  -- `ed25519.Verify` of a public key of 32 bytes, a message and a signature.
  pub verify : Bytes → Bytes → Bytes → Bool
  -- The capacity of the byte slice that a string of `n` bytes is converted to.
  pub capacity : ℕ → ℕ
