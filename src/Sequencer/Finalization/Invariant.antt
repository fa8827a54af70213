-- ===== src/Sequencer/Finalization/Invariant.antt =====
-- crates/sequencer/src/simplex_sequencer.rs: the hashes of the forkchoice are those of executed
-- blocks.
use rkb.Prelude.{
  ◌≡◌, refl, Bool, true, ◌⊎◌, inl, inr, List, [], ◌∷◌, Option, Result, ok, err, arith, Bool-cases,
  subst, sym,
}
use rkb.Prelude.Maps.{HashSet, contains, insert_set, contains-insert_set}
use rkb.Types.Primitives.{B256}
use rkb.Types.Block.{Block}
use rkb.Execution.Error.{ExecutionError}
use rkb.Execution.Forkchoice.{genesis}
use rkb.Execution.Engine.{Engine}
use rkb.Execution.Client.{ExecutionClient, update_forkchoice}
use rkb.Celestia.Finality.{FinalityConfirmation}
use rkb.Celestia.Client.{DataLayer, CelestiaClient}
use rkb.Sequencer.Finalization.{
  Node, BatchSender, process_finalized_block, handle_finality_confirmation, NodeEvent, finalized,
  confirmed, run, start,
}
use rkb.Sequencer.Finalization.Laws.{
  process_finalized_block-Processed, handle_finality_confirmation_lem,
}

-- A hash that reth knows: of the genesis block or of a block executed.
abbrev pub Known : B256 → HashSet → B256 → Type 0
Known genesis_hash executed h = (h ≡ genesis_hash) ⊎ (contains h executed ≡ true)

pub contains_self : (h : B256) (executed : HashSet) → contains h (insert_set h executed) ≡ true
contains_self h executed = ground (arith, contains-insert_set h h executed)

pub Known-insert_set :
    (genesis_hash h k : B256) (executed : HashSet)
    → Known genesis_hash executed h
    → Known genesis_hash (insert_set k executed) h
Known-insert_set g h k executed (inl e) = inl e
Known-insert_set g h k executed (inr e) = inr (ground (arith, contains-insert_set k h executed, e))

module _ {E : Engine} {D : DataLayer} where
  pub record IsNode (genesis_hash : B256) (self : Node E D) : Type 0 where
    pub safe_is_head : self.forkchoice.safe ≡ self.forkchoice.head
    pub head_known : Known genesis_hash self.executed_blocks self.forkchoice.head
    pub finalized_known : Known genesis_hash self.executed_blocks self.forkchoice.finalized

  module _ (genesis_hash : B256) where
    pub process_finalized_block-IsNode :
        (block : Block) (is_leader : Bool) (self : Node E D)
        → IsNode genesis_hash self
        → IsNode genesis_hash (process_finalized_block block is_leader self)
    process_finalized_block-IsNode block is_leader self v =
        elim (process_finalized_block-Processed block is_leader self) [
          | inl kept ↦ ground (arith, kept, v.safe_is_head, v.head_known, v.finalized_known)
          | inr (forkchoice, executed, handed) ↦ record {
            safe_is_head = ground (arith, forkchoice);
            head_known = inr (
                ground (
                  arith,
                  forkchoice,
                  executed,
                  contains_self block.block_hash self.executed_blocks,
                ));
            finalized_known =
                rw (forkchoice, executed)
                  (Known-insert_set genesis_hash self.forkchoice.finalized block.block_hash
                    self.executed_blocks v.finalized_known);
          }
        ]

    finalized-IsNode :
        {A : Type 0} (r : Result ExecutionError A) (execution : ExecutionClient E) (h : B256)
        (self : Node E D)
        → IsNode genesis_hash self
        → contains h self.executed_blocks ≡ true
        → IsNode genesis_hash (record self {
          execution = execution;
          forkchoice = elim r [
            | ok _ ↦ record self.forkchoice { finalized = h }
            | err e ↦ self.forkchoice
          ];
        })
    finalized-IsNode (ok _) execution h self v known = record {
      safe_is_head = v.safe_is_head;
      head_known = v.head_known;
      finalized_known = inr known;
    }
    finalized-IsNode (err e) execution h self v known = record {
      safe_is_head = v.safe_is_head;
      head_known = v.head_known;
      finalized_known = v.finalized_known;
    }

    pub handle_finality_confirmation-IsNode :
        (confirmation : FinalityConfirmation) (self : Node E D)
        → IsNode genesis_hash self
        → IsNode genesis_hash (handle_finality_confirmation confirmation self)
    handle_finality_confirmation-IsNode confirmation self v =
        let (ignored, taken) = handle_finality_confirmation_lem confirmation self in
        elim (Bool-cases (contains confirmation.block_hash self.executed_blocks)) [
          | inr unknown ↦ subst (IsNode genesis_hash) (sym (ignored unknown)) v
          | inl known ↦
              let wanted = record self.forkchoice { finalized = confirmation.block_hash } in
              let (r, execution) = update_forkchoice wanted self.execution in
              subst (IsNode genesis_hash) (sym (taken known))
                (finalized-IsNode r execution confirmation.block_hash self v known)
        ]

    pub run-IsNode :
        (events : List NodeEvent) (self : Node E D)
        → IsNode genesis_hash self
        → IsNode genesis_hash (run events self)
    unfolding run
    run-IsNode [] self v = v
    run-IsNode (finalized block is_leader ∷ events) self v =
        run-IsNode events _ (process_finalized_block-IsNode block is_leader self v)
    run-IsNode (confirmed confirmation ∷ events) self v =
        run-IsNode events _ (handle_finality_confirmation-IsNode confirmation self v)

    -- From the start of the node, whatever blocks are finalized and confirmed and whatever reth and
    -- Celestia answer: the safe hash is the head, and the head and the finalized hash are those of
    -- the genesis block or of executed blocks.
    pub run-start-IsNode :
        (events : List NodeEvent) (execution : ExecutionClient E) (celestia : CelestiaClient D)
        (batch_tx : Option BatchSender) (batch_enabled : Bool)
        → IsNode genesis_hash
            (run events (start genesis_hash execution celestia batch_tx batch_enabled))
    unfolding start genesis
    run-start-IsNode events execution celestia batch_tx batch_enabled =
        run-IsNode events _
          (record { safe_is_head = refl; head_known = inl refl; finalized_known = inl refl })
