-- ===== src/Tests/EndToEnd.antt =====
-- A block on its way through the node, Celestia and back.
use rkb.Prelude.{◌≡◌, refl, false, none, some, List, All, [], ◌∷◌, ◌++◌, map, ok, err, true}
use rkb.Execution.Client.{update_forkchoice}
use rkb.Celestia.Finality.{BlobSubmission}
use rkb.Sequencer.Finalization.{
  Node, NodeEvent, finalized, run, execute_and_update_forkchoice, process_finalized_block,
}
use rkb.Sequencer.Batch.Pending.{Deliveries}
use rkb.Sequencer.Batch.Loop.{BatchEvent, received, tick, start, run_batch_submission_loop}
use rkb.Sequencer.Batch.Delivery.{blocks_of}
use rkb.Sequencer.Finalization.Batched.{led, run-run_batch_submission_loop}
use rkb.Types.Block.{Block}
use rkb.Celestia.Client.Once.{Reaches, ConfirmedOnce}
use rkb.Celestia.Client.{ExtendedHeader}
use rkb.Tests.Fixtures.{reth, client, celestia, celestia_client, one_block}

-- A leader that submits each block at once.
abbrev leader : Node reth celestia
leader = record {
  execution = client;
  forkchoice = record { head = 20; safe = 20; finalized = 20 };
  celestia = celestia_client;
  executed_blocks = [];
  batch_tx = none;
  batch_enabled = false;
}

abbrev submission : BlobSubmission
submission = record {
  block_hash = 21;
  block_height = 1;
  celestia_height = 8;
  commitment = 1 ∷ 12 ∷ 20 ∷ 5 ∷ 0 ∷ 0 ∷ 0 ∷ 7 ∷ 30 ∷ 1 ∷ 21 ∷ [];
}

abbrev batched : List BatchEvent
batched =
    received (some one_block)
    ∷ tick
    ∷ received (some (record one_block { block_hash = 22 }))
    ∷ tick
    ∷ []

abbrev seen : List ExtendedHeader
seen = record { height = 7; hash = 70 } ∷ record { height = 8; hash = 80 } ∷ []

batched_reached :
    All
      (λ e. Reaches seen e.1.celestia_height)
      (run_batch_submission_loop 100000 batched
        (start celestia_client)).celestia.finality_tracker.pending
unfolding run_batch_submission_loop start rkb.Sequencer.Batch.Loop.step rkb.Sequencer.Batch.Loop.act
    rkb.Sequencer.Batch.Loop.wait_for_batch_event rkb.Sequencer.Batch.handle_received_block
    rkb.Sequencer.Batch.new rkb.Sequencer.Batch.estimate_block_size rkb.Sequencer.Batch.sum_tx_sizes
    rkb.Sequencer.Batch.is_empty rkb.Sequencer.Batch.Loop.count_failure
    rkb.Sequencer.Batch.submit_batch rkb.Sequencer.Batch.submit_taken
    rkb.Sequencer.Batch.settle_batch rkb.Celestia.Client.Blobs.submit_blocks
    rkb.Celestia.Client.Blobs.create_blobs_for_blocks
    rkb.Celestia.Client.Blobs.create_blob_for_block rkb.Celestia.Client.Blobs.build_submissions
    rkb.Celestia.Client.Blobs.create_blobs_loop rkb.Celestia.Client.Blobs.encode_block
    rkb.Celestia.Client.Blobs.submissions_from rkb.Celestia.Client.Blobs.submit_blobs_with_retry
    rkb.Celestia.Client.Blobs.track_finality rkb.Celestia.Finality.track
    rkb.Celestia.Retry.retry_loop rkb.Celestia.Retry.with_retry
    rkb.Sequencer.Batch.log_batch_success rkb.Types.Transaction.raw_bytes
batched_reached = (refl, (refl, tt))

-- The leader with batching on, and what it is called for.
abbrev batching : Node reth celestia
batching = record leader {
  batch_tx = some (record { open_end = true; sent = [] });
  batch_enabled = true;
}

abbrev calls : List NodeEvent
calls = finalized one_block true ∷ finalized (record one_block { block_hash = 22 }) true ∷ []

all_received :
    (run calls batching).batch_tx ≡ some (record { open_end = true; sent = blocks_of batched })
unfolding execute_and_update_forkchoice process_finalized_block rkb.Execution.Client.execute_block
    rkb.Execution.Client.request rkb.Execution.Payload.is_valid
    rkb.Sequencer.Finalization.adopt_executed rkb.Sequencer.Finalization.after_execution
    rkb.Sequencer.Finalization.queue_for_batch rkb.Sequencer.Finalization.submit_to_celestia run
    update_forkchoice
all_received = refl

still_running : (run_batch_submission_loop 100000 batched (start celestia_client)).exited ≡ false
unfolding rkb.Celestia.Client.Blobs.create_blob_for_block
    rkb.Celestia.Client.Blobs.create_blobs_for_blocks
    rkb.Celestia.Client.Blobs.submit_blobs_with_retry rkb.Celestia.Client.Blobs.submit_blocks
    rkb.Celestia.Retry.retry_loop rkb.Celestia.Retry.with_retry rkb.Sequencer.Batch.Loop.act
    rkb.Sequencer.Batch.Loop.count_failure rkb.Sequencer.Batch.Loop.step
    rkb.Sequencer.Batch.Loop.wait_for_batch_event rkb.Sequencer.Batch.estimate_block_size
    rkb.Sequencer.Batch.handle_received_block rkb.Sequencer.Batch.is_empty rkb.Sequencer.Batch.new
    rkb.Sequencer.Batch.settle_batch rkb.Sequencer.Batch.submit_batch
    rkb.Sequencer.Batch.submit_taken rkb.Sequencer.Batch.sum_tx_sizes run_batch_submission_loop
    start
still_running = refl

run-run_batch_submission_loop_example :
    let self = run_batch_submission_loop 100000 batched (start celestia_client) in
    (out : List Block) × (led calls batching ≡ out ++ self.state.pending_blocks)
    × Deliveries celestia_client out self.celestia
    × All
        (λ b.
          ConfirmedOnce (map ok seen ++ err "gone" ∷ []) celestia_client self.celestia b.block_hash)
        out
run-run_batch_submission_loop_example =
    run-run_batch_submission_loop calls batching 100000 batched seen (err "gone" ∷ []) refl refl
      all_received still_running tt batched_reached
