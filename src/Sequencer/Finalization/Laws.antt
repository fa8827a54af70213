-- ===== src/Sequencer/Finalization/Laws.antt =====
-- crates/sequencer/src/simplex_sequencer.rs: a handler changes all that it should or nothing.
use rkb.Prelude.{
  ◌≡◌, refl, Bool, true, false, ◌⊎◌, inl, inr, [], ◌∷◌, ◌++◌, some, Result, ok, err, arith, subst,
  sym,
}
use rkb.Prelude.Maps.{contains, insert_set}
use rkb.Types.Block.{Block}
use rkb.Execution.Forkchoice.{with_soft, with_firm}
use rkb.Execution.Engine.{Engine}
use rkb.Execution.Client.{ExecutionClient, update_forkchoice}
use rkb.Celestia.Finality.{FinalityConfirmation}
use rkb.Celestia.Client.{DataLayer}
use rkb.Celestia.Client.Blobs.{submit_block, track_finality}
use rkb.Sequencer.Finalization.{
  Node, BatchSender, Report, queue_for_batch, commit_forkchoice, adopt_executed,
  execute_and_update_forkchoice, submit_immediate, submit_to_celestia, after_execution,
  process_finalized_block, verify_block_executed, update_finalized_forkchoice,
  handle_finality_confirmation,
}

module _ {E : Engine} {D : DataLayer} where
  -- How `execute_and_update_forkchoice` ends.
  abbrev pub Executes : Block → Node E D → Result Report (Unit {0}) → Node E D → Type 0
  Executes block self (ok _) self' = self' ≡ record self {
    execution = self'.execution;
    forkchoice = with_soft self.forkchoice block.block_hash;
  }
  Executes block self (err _) self' = self' ≡ record self { execution = self'.execution }

  execute_and_update_forkchoice-Executes :
      (block : Block) (self : Node E D)
      → let (r, self') = execute_and_update_forkchoice block self in Executes block self r self'
  unfolding execute_and_update_forkchoice adopt_executed commit_forkchoice
  execute_and_update_forkchoice-Executes block self = ground arith

  -- What a leader does with an executed block: it is queued when batching is on and the channel is
  -- open, and submitted at once otherwise; the other validators do nothing.
  abbrev pub HandedOver : Block → Bool → Node E D → Node E D → Type 0
  HandedOver block false self self' =
      (self'.celestia ≡ self.celestia) × (self'.batch_tx ≡ self.batch_tx)
  HandedOver block true self self' =
      (self.batch_enabled ≡ true
        → (self'.celestia ≡ self.celestia)
          × ((tx : BatchSender)
              → self.batch_tx ≡ some tx
              → tx.open_end ≡ true
              → self'.batch_tx ≡ some (record tx { sent = tx.sent ++ block ∷ [] })))
      × (self.batch_enabled ≡ false
          → (self'.batch_tx ≡ self.batch_tx)
            × (let (r, c) = submit_block block self.celestia in
                self'.celestia ≡ elim r [ ok s ↦ track_finality s c | err e ↦ c ]))

  -- A block that was executed became head and safe and was handed over.
  abbrev pub Advanced : Block → Bool → Node E D → Node E D → Type 0
  Advanced block is_leader self self' =
      (self'.forkchoice ≡ record {
        head = block.block_hash;
        safe = block.block_hash;
        finalized = self.forkchoice.finalized;
      })
      × (self'.executed_blocks ≡ insert_set block.block_hash self.executed_blocks)
      × HandedOver block is_leader self self'

  -- The outcome of a finalized block.
  abbrev pub Processed : Block → Bool → Node E D → Node E D → Type 0
  Processed block is_leader self self' =
      (self' ≡ record self { execution = self'.execution }) ⊎ Advanced block is_leader self self'

  after_execution-Advanced :
      (block : Block) (is_leader : Bool) (self : Node E D) (execution : ExecutionClient E)
      → let self' = after_execution block is_leader (ok tt) (record self {
        execution = execution;
        forkchoice = with_soft self.forkchoice block.block_hash;
      }) in
        Advanced block is_leader self self'
  unfolding after_execution submit_to_celestia submit_immediate queue_for_batch with_soft
  after_execution-Advanced block false self execution = (refl, refl, (refl, refl))
  after_execution-Advanced block true self execution = (
    ground arith,
    ground arith,
    (
      λ on. (ground (arith, on), λ tx e o. ground (arith, on, e, o)),
      λ off. (ground (arith, off), ground (arith, off)),
    ),
  )

  executed-Advanced :
      (block : Block) (is_leader : Bool) (self self1 : Node E D)
      → Executes block self (ok tt) self1
      → Advanced block is_leader self (after_execution block is_leader (ok tt) self1)
  executed-Advanced block is_leader self self1 h =
      subst (λ n. Advanced block is_leader self (after_execution block is_leader (ok tt) n)) (sym h)
        (after_execution-Advanced block is_leader self self1.execution)

  after_execution-Processed :
      (block : Block) (is_leader : Bool) (self : Node E D) (r : Result Report (Unit {0}))
      (self1 : Node E D)
      → Executes block self r self1
      → Processed block is_leader self (after_execution block is_leader r self1)
  unfolding after_execution
  after_execution-Processed block is_leader self (err e) self1 h = inl h
  after_execution-Processed block is_leader self (ok _) self1 h =
      inr (executed-Advanced block is_leader self self1 h)

  pub process_finalized_block-Advanced :
      (block : Block) (is_leader : Bool) (self : Node E D)
      → (execute_and_update_forkchoice block self).0 ≡ ok tt
      → Advanced block is_leader self (process_finalized_block block is_leader self)
  unfolding process_finalized_block
  process_finalized_block-Advanced block is_leader self h =
      let (r, self1) = execute_and_update_forkchoice block self in
      subst (λ r. Advanced block is_leader self (after_execution block is_leader r self1)) (sym h)
        (executed-Advanced block is_leader self self1 (
          subst (λ r. Executes block self r self1) h
            (execute_and_update_forkchoice-Executes block self)))

  -- A finalized block either fails and leaves the node as it was but for the connection to reth, or
  -- becomes head and safe, keeps the finalized hash, is recorded as executed, and is handed over to
  -- Celestia by the leader.
  pub process_finalized_block-Processed :
      (block : Block) (is_leader : Bool) (self : Node E D)
      → Processed block is_leader self (process_finalized_block block is_leader self)
  unfolding process_finalized_block
  process_finalized_block-Processed block is_leader self =
      let (r, self1) = execute_and_update_forkchoice block self in
      after_execution-Processed block is_leader self r self1
        (execute_and_update_forkchoice-Executes block self)

  -- A confirmation of a block that was not executed is ignored. Otherwise the finalized hash is the
  -- block's if reth takes the forkchoice, and the old one if not; nothing else of the node changes
  -- but the connection to reth.
  pub handle_finality_confirmation_lem :
      (confirmation : FinalityConfirmation) (self : Node E D)
      → let self' = handle_finality_confirmation confirmation self in
        let wanted = record self.forkchoice { finalized = confirmation.block_hash } in
        let (r, execution) = update_forkchoice wanted self.execution in
        (contains confirmation.block_hash self.executed_blocks ≡ false → self' ≡ self)
        × (contains confirmation.block_hash self.executed_blocks ≡ true
            → self' ≡ record self {
              execution = execution;
              forkchoice = elim r [ ok _ ↦ wanted | err e ↦ self.forkchoice ];
            })
  unfolding handle_finality_confirmation verify_block_executed update_finalized_forkchoice
      commit_forkchoice with_firm
  handle_finality_confirmation_lem confirmation self =
      (λ h. ground (arith, h), λ h. ground (arith, h))
