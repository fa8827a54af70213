-- ===== src/Sequencer/Finalization/Batched.antt =====
-- crates/sequencer/src/simplex_sequencer.rs: the leader's way with batching on, from the finalized
-- blocks over the channel and the batches to the confirmations.
use mathlib.Core.List.{append_assoc, append-nil}
use rkb.Prelude.{
  ℕ, ◌≡◌, sym, ap, ◌∙◌, subst, Bool, true, false, String, List, [], ◌∷◌, ◌++◌, map, some, Result,
  ok, err, All, arith,
}
use rkb.Prelude.Maps.{IsMap, insert_set}
use rkb.Types.Block.{Block}
use rkb.Execution.Engine.{Engine}
use rkb.Celestia.Finality.{FinalityConfirmation}
use rkb.Celestia.Client.{DataLayer, ExtendedHeader}
use rkb.Sequencer.Finalization.{
  Node, Report, NodeEvent, finalized, confirmed, run, queue_for_batch, commit_forkchoice,
  adopt_executed, execute_and_update_forkchoice, submit_to_celestia, after_execution,
  process_finalized_block, update_finalized_forkchoice, handle_finality_confirmation,
}
use rkb.Sequencer.Batch.Pending.{Deliveries}
use rkb.Sequencer.Batch.Loop.{BatchEvent, start, run_batch_submission_loop}
use rkb.Sequencer.Batch.Delivery.{blocks_of}
use rkb.Celestia.Client.Once.{Reaches, ConfirmedOnce}
use rkb.Sequencer.Batch.Finality.{run_batch_submission_loop-confirms}

-- What a finalized block makes for the leader: itself, if reth executes it.
abbrev pub added : Block → Bool → Result Report (Unit {0}) → List Block
added block true (ok _) = block ∷ []
added block true (err e) = []
added block false r = []

module _ {E : Engine} {D : DataLayer} where
  -- The blocks that reth executed while the node was to lead.
  abbrev pub led : List NodeEvent → Node E D → List Block
  led [] self = []
  led (finalized block is_leader ∷ events) self =
      added block is_leader (execute_and_update_forkchoice block self).0
      ++ led events (process_finalized_block block is_leader self)
  led (confirmed confirmation ∷ events) self =
      led events (handle_finality_confirmation confirmation self)

  -- Batching is on, and this was sent on the open channel.
  abbrev Queues : List Block → Node E D → Type 0
  Queues blocks self =
      (self.batch_enabled ≡ true)
      × (self.batch_tx ≡ some (record { open_end = true; sent = blocks }))

  execute_and_update_forkchoice-Queues :
      (sent : List Block) (block : Block) (self : Node E D)
      → Queues sent self
      → Queues sent (execute_and_update_forkchoice block self).1
  unfolding execute_and_update_forkchoice adopt_executed commit_forkchoice
  execute_and_update_forkchoice-Queues sent block self (on, tx) =
      (ground (arith, on), ground (arith, tx))

  after_execution-Queues :
      (sent : List Block) (block : Block) (is_leader : Bool) (r : Result Report (Unit {0}))
      (self : Node E D)
      → Queues sent self
      → Queues (sent ++ added block is_leader r) (after_execution block is_leader r self)
  unfolding after_execution submit_to_celestia queue_for_batch
  after_execution-Queues sent block true (ok _) self (on, tx) =
      (ground (arith, on), ground (arith, on, tx))
  after_execution-Queues sent block false (ok _) self q =
      subst
        (λ l.
          Queues l
            (record self { executed_blocks = insert_set block.block_hash self.executed_blocks }))
        (sym (append-nil sent)) q
  after_execution-Queues sent block true (err e) self q =
      subst (λ l. Queues l self) (sym (append-nil sent)) q
  after_execution-Queues sent block false (err e) self q =
      subst (λ l. Queues l self) (sym (append-nil sent)) q

  handle_finality_confirmation-Queues :
      (sent : List Block) (confirmation : FinalityConfirmation) (self : Node E D)
      → Queues sent self
      → Queues sent (handle_finality_confirmation confirmation self)
  unfolding handle_finality_confirmation update_finalized_forkchoice commit_forkchoice
  handle_finality_confirmation-Queues sent confirmation self (on, tx) =
      (ground (arith, on), ground (arith, tx))

  run-Queues :
      (sent : List Block) (events : List NodeEvent) (self : Node E D)
      → Queues sent self
      → Queues (sent ++ led events self) (run events self)
  unfolding run process_finalized_block
  run-Queues sent [] self q = subst (λ l. Queues l self) (sym (append-nil sent)) q
  run-Queues sent (finalized block is_leader ∷ events) self q =
      let (r, self1) = execute_and_update_forkchoice block self in
      let q1 = execute_and_update_forkchoice-Queues sent block self q in
      let more = added block is_leader r in
      let next = after_execution block is_leader r self1 in
      let q2 =
        run-Queues (sent ++ more) events next
          (after_execution-Queues sent block is_leader r self1 q1) in
      subst (λ l. Queues l (run events next)) (append_assoc sent more (led events next)) q2
  run-Queues sent (confirmed confirmation ∷ events) self q =
      run-Queues sent events (handle_finality_confirmation confirmation self)
        (handle_finality_confirmation-Queues sent confirmation self q)

  -- A node whose batching is on, after any events; the batch loop, after it received what the node
  -- sent, with ticks at any times and whatever answers of Celestia, and was not left; and then a
  -- subscription with headers that reach the Celestia height of every entry of the tracker: the
  -- blocks that reth executed while the node was to lead are those of the accepted batches followed
  -- by those still pending, in order, and exactly one confirmation is sent for each block of an
  -- accepted batch.
  pub run-run_batch_submission_loop :
      (events : List NodeEvent) (node : Node E D) (limit : ℕ) (batch_events : List BatchEvent)
      (headers : List ExtendedHeader) (rest : List (Result String ExtendedHeader))
      → node.batch_enabled ≡ true
      → node.batch_tx ≡ some (record { open_end = true; sent = [] })
      → (run events node).batch_tx
        ≡ some (record { open_end = true; sent = blocks_of batch_events })
      → (run_batch_submission_loop limit batch_events (start node.celestia)).exited ≡ false
      → IsMap node.celestia.finality_tracker.pending
      → All
          (λ e. Reaches headers e.1.celestia_height)
          (run_batch_submission_loop limit batch_events
            (start node.celestia)).celestia.finality_tracker.pending
      → let self = run_batch_submission_loop limit batch_events (start node.celestia) in
        (out : List Block) × (led events node ≡ out ++ self.state.pending_blocks)
        × Deliveries node.celestia out self.celestia
        × All
            (λ b. ConfirmedOnce (map ok headers ++ rest) node.celestia self.celestia b.block_hash)
            out
  run-run_batch_submission_loop events node limit batch_events headers rest on fresh received
        running v reached =
      let (done, confirmed_once) =
        run_batch_submission_loop-confirms limit batch_events node.celestia headers rest v
          reached in
      let (still, tx) = run-Queues [] events node (on, fresh) in
      let same : led events node ≡ blocks_of batch_events = ground (arith, tx, received) in
      let all : batch_events ≡ done.consumed =
        done.split
        ∙ ap (λ l. done.consumed ++ l) (done.finished running)
        ∙ append-nil done.consumed in
      (
        done.delivers.out,
        same ∙ ap blocks_of all ∙ sym done.delivers.conserved,
        done.delivers.deliveries,
        confirmed_once,
      )
