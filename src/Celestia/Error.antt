-- ===== src/Celestia/Error.antt =====
-- crates/celestia/src/error.rs: what can go wrong in the Celestia module.
use rkb.Prelude.{ℕ, String}

pub data CelestiaError : Type 0 where
  connection_failed : String → CelestiaError
  submission_failed : String → CelestiaError
  subscription_failed : String → CelestiaError
  encode_failed : String → CelestiaError
  decode_failed : String → CelestiaError
  blob_not_found : ℕ → CelestiaError
  invalid_config : String → CelestiaError
  internal : String → CelestiaError
