-- ===== src/Tests/Sequencer.antt =====
-- Runs of the node of crates/sequencer/src/simplex_sequencer.rs.
use rkb.Prelude.{◌≡◌, true, false, List, [], ◌∷◌, none, some, ok, err}
use rkb.Prelude.Maps.{contains}
use rkb.Types.Block.{Block}
use rkb.Execution.Client.{update_forkchoice, client as connect}
use rkb.Celestia.Index.{BlockIndex}
use rkb.Celestia.Finality.{FinalityConfirmation}
use rkb.Celestia.Client.{CelestiaClient}
use rkb.Sequencer.Batch.Loop.{
  BatchEvent, tick, received, start as start_loop, run_batch_submission_loop,
}
use rkb.Sequencer.Batch.Delivery.{Consumes, run_batch_submission_loop-Consumes}
use rkb.Sequencer.Finalization.{
  Node, finalized, confirmed, start, run, process_finalized_block, handle_finality_confirmation,
}
use rkb.Sequencer.Finalization.Invariant.{IsNode, run-start-IsNode}
use rkb.Sequencer.Finalization.Laws.{
  Processed, process_finalized_block-Processed, handle_finality_confirmation_lem,
}
use rkb.Sequencer.Sync.{SyncContext}
use rkb.Tests.Fixtures.{reth, client, celestia, celestia_client, disk, one_block, one_entry}

abbrev events : List BatchEvent
events = received (some one_block) ∷ tick ∷ received (some one_block) ∷ received none ∷ []

run_batch_submission_loop-Consumes_example :
    Consumes celestia_client [] events
      (run_batch_submission_loop 1000 events (start_loop celestia_client))
run_batch_submission_loop-Consumes_example =
    run_batch_submission_loop-Consumes 1000 events celestia_client

abbrev node : Node reth celestia
node = record {
  execution = client;
  forkchoice = record { head = 20; safe = 20; finalized = 20 };
  celestia = celestia_client;
  executed_blocks = [];
  batch_tx = some (record { open_end = true; sent = [] });
  batch_enabled = true;
}

process_finalized_block-Processed_example :
    Processed one_block true node (process_finalized_block one_block true node)
process_finalized_block-Processed_example = process_finalized_block-Processed one_block true node

abbrev one_confirmation : FinalityConfirmation
one_confirmation = record {
  block_hash = 21;
  block_height = 1;
  celestia_height = 8;
  celestia_header_hash = 80;
  submitted_at = 60;
  confirmed_at = 100;
}

-- The node once block 1 was executed.
abbrev advanced : Node reth celestia
advanced = record node {
  forkchoice = record { head = 21; safe = 21; finalized = 20 };
  executed_blocks = 21 ∷ [];
}

handle_finality_confirmation_lem_example :
    let self' = handle_finality_confirmation one_confirmation advanced in
    let wanted = record advanced.forkchoice { finalized = 21 } in
    let (r, execution) = update_forkchoice wanted client in
    (contains 21 (21 ∷ []) ≡ false → self' ≡ advanced)
    × (contains 21 (21 ∷ []) ≡ true
        → self' ≡ record advanced {
          execution = execution;
          forkchoice = elim r [ ok _ ↦ wanted | err e ↦ advanced.forkchoice ];
        })
handle_finality_confirmation_lem_example =
    handle_finality_confirmation_lem one_confirmation advanced

run-start-IsNode_example : IsNode 20 (
    run
      (finalized one_block true ∷ confirmed one_confirmation ∷ [])
      (start 20 client celestia_client none false))
run-start-IsNode_example =
    run-start-IsNode 20 (finalized one_block true ∷ confirmed one_confirmation ∷ []) client
      celestia_client none false

-- Celestia holds block 1.
abbrev stocked : CelestiaClient celestia
stocked = record celestia_client {
  world = (1 ∷ 12 ∷ 20 ∷ 5 ∷ 0 ∷ 0 ∷ 0 ∷ 7 ∷ 30 ∷ 1 ∷ 21 ∷ []) ∷ [];
}

abbrev unsynced : SyncContext reth celestia disk
unsynced = record {
  node = node;
  disk = [];
  index = record { by_height = []; by_hash = []; file = true };
}

abbrev index : BlockIndex
index = record { by_height = (1, one_entry) ∷ []; by_hash = (21, 1) ∷ []; file = true }

abbrev synced : SyncContext reth celestia disk
synced = record {
  node = record advanced {
    execution = record client {
      world = 21;
      forkchoice = record { head = 21; safe = 21; finalized = 20 };
    };
  };
  disk = ok "one" ∷ [];
  index = index;
}
