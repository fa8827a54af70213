-- ===== src/Types/Hex.antt =====
-- crates/types/src/serde_helpers.rs: bytes as hexadecimal text, over the crate `hex`. A serializer
-- takes the text; a deserializer has read one or failed.
pub mod HexFixed
pub mod HexVec
use rkb.Prelude.{ℕ, ◌<◌, ◌≡◌, String, Result, ok, All}
use rkb.Types.Primitives.{Bytes}

pub record Codec : Type 0 where
  pub encode : Bytes → String
  pub decode : String → Result String Bytes
  pub to_string : ℕ → String

-- Bytes are read as they were printed.
pub record IsCodec (C : Codec) : Type 0 where
  pub decodes : (bytes : Bytes) → All (λ b. b < 256) bytes → C.decode (C.encode bytes) ≡ ok bytes
