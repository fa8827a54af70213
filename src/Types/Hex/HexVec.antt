-- ===== src/Types/Hex/HexVec.antt =====
-- crates/types/src/serde_helpers.rs: `hex_vec`, bytes of any length.
use rkb.Prelude.{◌<◌, ◌≡◌, String, Result, ok, err, All}
use rkb.Types.Primitives.{Bytes}
use rkb.Types.Hex.{Codec, IsCodec}

module _ (C : Codec) where
  unfoldable pub serialize : Bytes → String
  serialize bytes = C.encode bytes

  unfoldable pub deserialize : Result String String → Result String Bytes
  deserialize (err e) = err e
  deserialize (ok s) = C.decode s

  -- Bytes are read as they were written.
  pub deserialize-serialize :
      (bytes : Bytes)
      → IsCodec C
      → All (λ b. b < 256) bytes
      → deserialize (ok (serialize bytes)) ≡ ok bytes
  unfolding serialize deserialize
  deserialize-serialize bytes laws small = laws.decodes bytes small
