-- ===== src/Sequencer/Batch.antt =====
-- crates/sequencer/src/simplex_sequencer.rs: blocks of the leader are collected and submitted to
-- Celestia in batches. The ticker and the channel are the events that the loop waits for; log lines
-- are left out.
pub mod Loop
pub mod Pending
pub mod Delivery
pub mod Finality
use rkb.Prelude.{
  ℕ, ◌+◌, leb, if◌then◌else◌, Bool, true, false, List, [], ◌∷◌, ◌++◌, Option, none, some, Result,
  ok, err, length, is_empty as list_is_empty,
}
use rkb.Types.Primitives.{wrapping_add}
use rkb.Types.Transaction.{Transaction, raw_bytes}
use rkb.Types.Block.{Block}
use rkb.Celestia.Error.{CelestiaError}
use rkb.Celestia.Finality.{BlobSubmission}
use rkb.Celestia.Client.{DataLayer, CelestiaClient}
use rkb.Celestia.Client.Blobs.{submit_blocks, track_finality}

pub record BatchState : Type 0 where
  pub pending_blocks : List Block
  pub pending_size : ℕ

pub data BatchAction : Type 0 where
  proceed submit shutdown : BatchAction

unfoldable pub new : BatchState
new = record { pending_blocks = []; pending_size = 0 }

unfoldable pub is_empty : BatchState → Bool
is_empty self = list_is_empty self.pending_blocks

-- `sum` of the sizes of the transactions, from left to right
unfoldable pub sum_tx_sizes : ℕ → List Transaction → ℕ
unfolding raw_bytes
sum_tx_sizes acc [] = acc
sum_tx_sizes acc (tx ∷ txs) =
    sum_tx_sizes (wrapping_add acc (wrapping_add (length (raw_bytes tx)) 32)) txs

unfoldable pub estimate_block_size : Block → ℕ
estimate_block_size block =
    let tx_size = sum_tx_sizes 0 block.transactions in wrapping_add (wrapping_add 68 tx_size) 64

-- `sum` of the estimates, from left to right
unfoldable pub sum_block_sizes : ℕ → List Block → ℕ
sum_block_sizes acc [] = acc
sum_block_sizes acc (block ∷ blocks) =
    sum_block_sizes (wrapping_add acc (estimate_block_size block)) blocks

unfoldable pub handle_received_block :
    Option Block → BatchState → (max_batch_size_bytes : ℕ) → BatchAction × BatchState
handle_received_block none state max_batch_size_bytes = (shutdown, state)
handle_received_block (some block) state max_batch_size_bytes =
    let pending_size = wrapping_add state.pending_size (estimate_block_size block) in
    (
      if leb max_batch_size_bytes pending_size then submit else proceed,
      record { pending_blocks = state.pending_blocks ++ block ∷ []; pending_size = pending_size },
    )

unfoldable pub restore_failed_batch : BatchState → List Block → BatchState
restore_failed_batch state blocks = record state {
  pending_size = sum_block_sizes 0 blocks;
  pending_blocks = blocks;
}

module _ {D : DataLayer} where
  unfoldable pub log_batch_success : List BlobSubmission → CelestiaClient D → CelestiaClient D
  log_batch_success [] celestia = celestia
  log_batch_success (submission ∷ submissions) celestia =
      log_batch_success submissions (track_finality submission celestia)

  -- What follows the answer of Celestia to a batch.
  unfoldable pub settle_batch :
      List Block
      → Result CelestiaError (List BlobSubmission)
      → CelestiaClient D
      → BatchState
      → Bool × CelestiaClient D × BatchState
  settle_batch blocks (ok submissions) celestia state =
      (true, log_batch_success submissions celestia, state)
  settle_batch blocks (err e) celestia state = (false, celestia, restore_failed_batch state blocks)

  -- `take` has emptied the state.
  unfoldable pub submit_taken :
      List Block → CelestiaClient D → BatchState → Bool × CelestiaClient D × BatchState
  submit_taken [] celestia state = (true, celestia, state)
  submit_taken (block ∷ blocks) celestia state =
      let (r, celestia') = submit_blocks (block ∷ blocks) celestia in
      settle_batch (block ∷ blocks) r celestia' state

  unfoldable pub submit_batch : CelestiaClient D → BatchState → Bool × CelestiaClient D × BatchState
  submit_batch celestia state =
      submit_taken state.pending_blocks celestia (record { pending_blocks = []; pending_size = 0 })
