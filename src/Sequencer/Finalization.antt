-- ===== src/Sequencer/Finalization.antt =====
-- crates/sequencer/src/simplex_sequencer.rs: finalized blocks are executed and handed to Celestia,
-- and Celestia's confirmations move the finalized hash. The state behind the locks is one record;
-- a handler runs as one step, and `Race` takes apart the read and the write of the forkchoice. Log
-- lines are left out.
pub mod Laws
pub mod Invariant
pub mod Race
pub mod EndToEnd
pub mod Batched
use rkb.Prelude.{
  Bool, true, false, if◌then◌else◌, String, List, [], ◌∷◌, ◌++◌, Option, none, some, Result, ok,
  err,
}
use rkb.Prelude.Maps.{HashSet, contains, insert_set}
use rkb.Types.Primitives.{B256}
use rkb.Types.Block.{Block}
use rkb.Execution.Error.{ExecutionError}
use rkb.Execution.Forkchoice.{ForkchoiceState, with_soft, with_firm, genesis}
use rkb.Execution.Payload.{ExecutionResult, ExecutionStatus, is_valid}
use rkb.Execution.Engine.{Engine}
use rkb.Execution.Client.{ExecutionClient, Call, execute_block, update_forkchoice}
use rkb.Celestia.Error.{CelestiaError}
use rkb.Celestia.Finality.{BlobSubmission, FinalityConfirmation}
use rkb.Celestia.Client.{DataLayer, CelestiaClient}
use rkb.Celestia.Client.Blobs.{submit_block, track_finality}

-- The error reports of `eyre`: an error with the text around it, and a `bail!`.
pub data Report : Type 0 where
  wrapped : String → ExecutionError → Report
  block_invalid : ExecutionStatus → Report

-- The sender of the batch channel: what was sent on it, and whether its receiver is there.
pub record BatchSender : Type 0 where
  pub open_end : Bool
  pub sent : List Block

pub record Node (E : Engine) (D : DataLayer) : Type 0 where
  pub execution : ExecutionClient E
  pub forkchoice : ForkchoiceState
  pub celestia : CelestiaClient D
  pub executed_blocks : HashSet
  pub batch_tx : Option BatchSender
  pub batch_enabled : Bool

-- A block lost on a closed channel is only logged.
unfoldable pub queue_for_batch : Option BatchSender → Block → Option BatchSender
queue_for_batch none block = none
queue_for_batch (some tx) block =
    some (if tx.open_end then record tx { sent = tx.sent ++ block ∷ [] } else tx)

-- What the node is called for: by consensus, and by Celestia's finality tracker.
pub data NodeEvent : Type 0 where
  finalized : Block → Bool → NodeEvent
  confirmed : FinalityConfirmation → NodeEvent

module _ {E : Engine} {D : DataLayer} where
  -- `init_components`, with the genesis hash that reth gave.
  unfoldable pub start :
      B256 → ExecutionClient E → CelestiaClient D → Option BatchSender → Bool → Node E D
  unfolding genesis
  start genesis_hash execution celestia batch_tx batch_enabled = record {
    execution = execution;
    forkchoice = genesis genesis_hash;
    celestia = celestia;
    executed_blocks = [];
    batch_tx = batch_tx;
    batch_enabled = batch_enabled;
  }

  abbrev pub on_execution : {A : Type 0} → Call E A → Node E D → Result ExecutionError A × Node E D
  on_execution call self =
      let (r, execution) = call self.execution in (r, record self { execution = execution })

  -- The end of `execute_and_update_forkchoice`: the answer of reth to the new forkchoice.
  unfoldable pub commit_forkchoice :
      String → ForkchoiceState → Node E D → Result Report (Unit {0}) × Node E D
  commit_forkchoice context new_forkchoice self =
      let (r, self') = on_execution (update_forkchoice new_forkchoice) self in
      elim r [
        | ok _ ↦ (ok tt, record self' { forkchoice = new_forkchoice })
        | err e ↦ (err (wrapped context e), self')
      ]

  -- The rest, once the block was executed.
  unfoldable pub adopt_executed :
      Block → Result ExecutionError ExecutionResult → Node E D → Result Report (Unit {0}) × Node E D
  unfolding commit_forkchoice with_soft
  adopt_executed block (err e) self = (err (wrapped "execution failed" e), self)
  adopt_executed block (ok result) self =
      if is_valid result
      then commit_forkchoice "forkchoice update failed" (with_soft self.forkchoice block.block_hash)
          self
      else (err (block_invalid result.status), self)

  unfoldable pub execute_and_update_forkchoice :
      Block → Node E D → Result Report (Unit {0}) × Node E D
  execute_and_update_forkchoice block self =
      let (r, self') = on_execution (execute_block block) self in adopt_executed block r self'

  unfoldable pub submit_immediate : Block → Node E D → Node E D
  submit_immediate block self =
      let (r, celestia) = submit_block block self.celestia in
      elim r [
        | ok submission ↦ record self { celestia = track_finality submission celestia }
        | err e ↦ record self { celestia = celestia }
      ]

  unfoldable pub submit_to_celestia : Block → Node E D → Node E D
  submit_to_celestia block self =
      if self.batch_enabled
      then record self { batch_tx = queue_for_batch self.batch_tx block }
      else submit_immediate block self

  -- What follows the execution.
  unfoldable pub after_execution : Block → Bool → Result Report (Unit {0}) → Node E D → Node E D
  after_execution block is_leader (err e) self = self
  after_execution block is_leader (ok _) self =
      let self' = record self {
        executed_blocks = insert_set block.block_hash self.executed_blocks;
      } in
      if is_leader then submit_to_celestia block self' else self'

  unfoldable pub process_finalized_block : Block → Bool → Node E D → Node E D
  process_finalized_block block is_leader self =
      let (r, self') = execute_and_update_forkchoice block self in
      after_execution block is_leader r self'

  unfoldable pub verify_block_executed : FinalityConfirmation → Node E D → Bool
  verify_block_executed confirmation self = contains confirmation.block_hash self.executed_blocks

  unfoldable pub update_finalized_forkchoice : FinalityConfirmation → Node E D → Node E D
  unfolding commit_forkchoice with_firm
  update_finalized_forkchoice confirmation self =
      (commit_forkchoice "" (with_firm self.forkchoice confirmation.block_hash) self).1

  unfoldable pub handle_finality_confirmation : FinalityConfirmation → Node E D → Node E D
  handle_finality_confirmation confirmation self =
      if verify_block_executed confirmation self
      then update_finalized_forkchoice confirmation self
      else self

  -- The callback of consensus and the loop over the confirmations, event by event.
  unfoldable pub run : List NodeEvent → Node E D → Node E D
  run [] self = self
  run (finalized block is_leader ∷ events) self =
      run events (process_finalized_block block is_leader self)
  run (confirmed confirmation ∷ events) self =
      run events (handle_finality_confirmation confirmation self)
