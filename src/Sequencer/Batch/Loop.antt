-- ===== src/Sequencer/Batch/Loop.antt =====
-- crates/sequencer/src/simplex_sequencer.rs, `run_batch_submission_loop`.
use rkb.Prelude.{ℕ, ◌+◌, leb, if◌then◌else◌, Bool, true, false, List, [], ◌∷◌, Option}
use rkb.Types.Block.{Block}
use rkb.Celestia.Client.{DataLayer, CelestiaClient}
use rkb.Sequencer.Batch.{
  BatchState, BatchAction, proceed, submit, shutdown, new, is_empty, handle_received_block,
  submit_batch,
}

abbrev pub max_consecutive_failures : ℕ
max_consecutive_failures = 10

-- What `select!` wakes up for; `received none` is a closed channel.
pub data BatchEvent : Type 0 where
  tick : BatchEvent
  received : Option Block → BatchEvent

unfoldable pub wait_for_batch_event : BatchEvent → BatchState → ℕ → BatchAction × BatchState
wait_for_batch_event tick state max_batch_size_bytes =
    (if is_empty state then proceed else submit, state)
wait_for_batch_event (received block) state max_batch_size_bytes =
    handle_received_block block state max_batch_size_bytes

pub record BatchLoop (D : DataLayer) : Type 0 where
  pub celestia : CelestiaClient D
  pub state : BatchState
  pub consecutive_failures : ℕ
  pub exited : Bool

module _ {D : DataLayer} where
  unfoldable pub start : CelestiaClient D → BatchLoop D
  start celestia = record {
    celestia = celestia;
    state = new;
    consecutive_failures = 0;
    exited = false;
  }

  -- A success resets the count of failures; the tenth failure in a row ends the loop.
  unfoldable pub count_failure : Bool → BatchLoop D → BatchLoop D
  count_failure true self = record self { consecutive_failures = 0 }
  count_failure false self = record self {
    consecutive_failures = self.consecutive_failures + 1;
    exited = leb max_consecutive_failures (self.consecutive_failures + 1);
  }

  unfoldable pub act : BatchAction → BatchLoop D → BatchLoop D
  act proceed self = self
  act submit self =
      let (done, celestia, state) = submit_batch self.celestia self.state in
      count_failure done (record self { celestia = celestia; state = state })
  act shutdown self =
      let (done, celestia, state) = submit_batch self.celestia self.state in
      record self { celestia = celestia; state = state; exited = true }

  unfoldable pub step : ℕ → BatchEvent → BatchLoop D → BatchLoop D
  step max_batch_size_bytes event self =
      let (action, state) = wait_for_batch_event event self.state max_batch_size_bytes in
      act action (record self { state = state })

  -- The loop over the events to come, until it is left.
  unfoldable pub run_batch_submission_loop : ℕ → List BatchEvent → BatchLoop D → BatchLoop D
  run_batch_submission_loop max_batch_size_bytes [] self = self
  run_batch_submission_loop max_batch_size_bytes (event ∷ events) self =
      let rest =
        run_batch_submission_loop max_batch_size_bytes events
          (step max_batch_size_bytes event self) in
      if self.exited then self else rest
