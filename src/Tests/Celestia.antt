-- ===== src/Tests/Celestia.antt =====
-- Runs of the client of crates/celestia.
use rkb.Prelude.{
  ℕ, ◌*◌, ◌^◌, ◌≡◌, ◌≤◌, ◌<◌, zero, suc, true, min, String, List, [], ◌∷◌, ◌++◌, map, Perm, All,
  some, Result, ok, err, arith,
}
use rkb.Prelude.Sorting.{IsSorted}
use rkb.Types.Block.{Block}
use rkb.Celestia.Error.{subscription_failed}
use rkb.Celestia.Finality.{BlobSubmission, FinalityTracker, on_celestia_finality, height_of}
use rkb.Celestia.Finality.Laws.{entry_of, on_celestia_finality-Partition}
use rkb.Celestia.Retry.{with_retry, Outcome, with_retry-Outcome}
use rkb.Celestia.Index.{IndexEntry, BlockIndex}
use rkb.Celestia.Client.{CelestiaClient}
use rkb.Celestia.Client.Backoff.{calculate_backoff, calculate_backoff-exact}
use rkb.Celestia.Client.Headers.{run_finality_tracker}
use rkb.Celestia.Client.Ends.{run_finality_tracker_ends}
use rkb.Tests.Fixtures.{celestia, celestia_client, one_entry}

-- Two blocks wait, for the Celestia heights 8 and 9.
abbrev tracker : FinalityTracker
tracker = record {
  pending =
      (22, record { block_height = 2; celestia_height = 8; submitted_at = 60 })
      ∷ (23, record { block_height = 3; celestia_height = 9; submitted_at = 70 })
      ∷ [];
  celestia_finalized_height = 7;
}

on_celestia_finality-Partition_example :
    let (confirmations, self') = on_celestia_finality 8 80 100 tracker in
    Perm (map entry_of confirmations ++ self'.pending) tracker.pending
    × IsSorted height_of confirmations
    × All (λ c. c.celestia_height ≤ 8) confirmations
    × All (λ e. 8 < e.1.celestia_height) self'.pending
on_celestia_finality-Partition_example = on_celestia_finality-Partition 8 80 100 tracker

-- An operation that fails until the world has counted to two.
abbrev flaky : ℕ → Result String ℕ × ℕ
flaky zero = (err "not yet", 1)
flaky (suc zero) = (err "not yet", 2)
flaky (suc (suc w)) = (ok w, 2)

with_retry-Outcome_example :
    Outcome
      (λ n e. e)
      (λ ms w. w)
      1000
      flaky
      2
      1
      0
      (with_retry (λ n e. e) (λ ms w. w) 3 1000 flaky 0)
with_retry-Outcome_example = with_retry-Outcome (λ n e. e) (λ ms w. w) 1000 flaky 3 0

calculate_backoff-exact_example : calculate_backoff 5 5000 60000 ≡ min (5000 * 2 ^ 4) 60000
calculate_backoff-exact_example = calculate_backoff-exact 5 5000 60000 (omega arith)

abbrev index : BlockIndex
index = record { by_height = (1, one_entry) ∷ []; by_hash = (21, 1) ∷ []; file = true }

-- The client while the two blocks wait.
abbrev waiting_client : CelestiaClient celestia
waiting_client = record celestia_client { finality_tracker = tracker }

run_finality_tracker_ends_example :
    (run_finality_tracker 12 waiting_client).0
    ≡ some (err (subscription_failed "max consecutive failures (10) reached"))
run_finality_tracker_ends_example = run_finality_tracker_ends 12 waiting_client (omega arith)

abbrev one_submission : BlobSubmission
one_submission = record {
  block_hash = 21;
  block_height = 1;
  celestia_height = 8;
  commitment = 1 ∷ 12 ∷ 20 ∷ 5 ∷ 0 ∷ 0 ∷ 0 ∷ 7 ∷ 30 ∷ 1 ∷ 21 ∷ [];
}

abbrev submitted_client : CelestiaClient celestia
submitted_client = record celestia_client { world = one_submission.commitment ∷ [] }

abbrev opened : BlockIndex
opened = record { by_height = []; by_hash = []; file = true }

-- A second block at the height of the first.
abbrev second_entry : IndexEntry
second_entry = record one_entry { block_hash = 22 }
