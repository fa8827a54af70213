-- ===== src/Sequencer/Finalization/Race.antt =====
-- crates/sequencer/src/simplex_sequencer.rs: the forkchoice is read, reth is asked, and the
-- forkchoice is written, with no lock held in between, by the thread of consensus and by the loop
-- over the confirmations. Here the read and the rest are two steps, so that they can interleave.
use rkb.Prelude.{Result}
use rkb.Types.Block.{Block}
use rkb.Execution.Forkchoice.{ForkchoiceState, with_soft}
use rkb.Execution.Engine.{Engine}
use rkb.Celestia.Client.{DataLayer}
use rkb.Sequencer.Finalization.{Report, Node, commit_forkchoice}

module _ {E : Engine} {D : DataLayer} where
  -- The read: what the thread of consensus will ask for and write.
  unfoldable pub read_soft : Block → Node E D → ForkchoiceState
  unfolding with_soft
  read_soft block self = with_soft self.forkchoice block.block_hash

  -- The rest, on a node that may have moved on since the read.
  unfoldable pub finish_soft : ForkchoiceState → Node E D → Result Report (Unit {0}) × Node E D
  unfolding commit_forkchoice
  finish_soft new_forkchoice = commit_forkchoice "forkchoice update failed" new_forkchoice
