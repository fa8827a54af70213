-- ===== src/Execution/Forkchoice.antt =====
-- crates/execution/src/forkchoice.rs: the head, safe and finalized hashes.
use rkb.Types.Primitives.{B256}

pub record ForkchoiceState : Type 0 where
  pub head : B256
  pub safe : B256
  pub finalized : B256

unfoldable pub genesis : B256 → ForkchoiceState
genesis genesis_hash = record { head = genesis_hash; safe = genesis_hash; finalized = genesis_hash }

unfoldable pub with_soft : ForkchoiceState → B256 → ForkchoiceState
with_soft self block_hash = record {
  head = block_hash;
  safe = block_hash;
  finalized = self.finalized;
}

unfoldable pub with_firm : ForkchoiceState → B256 → ForkchoiceState
with_firm self block_hash = record { head = self.head; safe = self.safe; finalized = block_hash }

-- `ForkchoiceState::default`
unfoldable pub initial : ForkchoiceState
unfolding genesis
initial = genesis 0
