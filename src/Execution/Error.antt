-- ===== src/Execution/Error.antt =====
-- crates/execution/src/error.rs: what can go wrong in the execution module.
use rkb.Prelude.{String}
use rkb.Types.Primitives.{B256}

pub data ExecutionError : Type 0 where
  connection_failed : String → ExecutionError
  execution_failed : String → ExecutionError
  invalid_block : String → ExecutionError
  forkchoice_failed : String → ExecutionError
  parent_not_found : B256 → ExecutionError
  invalid_jwt : String → ExecutionError
  rpc : String → ExecutionError
  internal : String → ExecutionError
