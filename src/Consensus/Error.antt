-- ===== src/Consensus/Error.antt =====
-- crates/consensus/src/error.rs: what can go wrong in the consensus module.
use rkb.Prelude.{String}

pub data ConsensusError : Type 0 where
  start_failed : String → ConsensusError
  submit_failed : String → ConsensusError
  invalid_config : String → ConsensusError
  network : String → ConsensusError
  internal : String → ConsensusError
