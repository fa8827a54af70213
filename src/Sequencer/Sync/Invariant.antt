-- ===== src/Sequencer/Sync/Invariant.antt =====
-- crates/sequencer/src/simplex_sequencer.rs: a sync, also one that fails, keeps the invariants of
-- the node and of the index.
use rkb.Prelude.{
  ℕ, ◌≡◌, sym, List, [], ◌∷◌, Option, none, some, Result, ok, err, arith, inl, inr, subst,
}
use rkb.Prelude.Maps.{insert_set}
use rkb.Types.Primitives.{B256}
use rkb.Types.Block.{Block, height}
use rkb.Execution.Forkchoice.{with_soft}
use rkb.Execution.Engine.{Engine}
use rkb.Celestia.Index.{Storage, IndexEntry, get_by_height}
use rkb.Celestia.Index.Laws.{IsIndex, record_entry-IsIndex}
use rkb.Celestia.Client.{DataLayer}
use rkb.Sequencer.Finalization.{Node}
use rkb.Sequencer.Finalization.Invariant.{IsNode, Known-insert_set, contains_self}
use rkb.Sequencer.Sync.{SyncReport, SyncContext, sync_single_block, sync_loop, sync_block_batch}
use rkb.Sequencer.Sync.Steps.{Synced, sync_single_block-Synced}

module _ {E : Engine} {D : DataLayer} (genesis_hash : B256) where
  advanced-IsNode :
      (block : Block) (self self' : Node E D)
      → IsNode genesis_hash self
      → self'.forkchoice ≡ with_soft self.forkchoice block.block_hash
      → self'.executed_blocks ≡ insert_set block.block_hash self.executed_blocks
      → IsNode genesis_hash self'
  unfolding with_soft
  advanced-IsNode block self self' v f x = record {
    safe_is_head = ground (arith, f);
    head_known = inr (ground (arith, f, x, contains_self block.block_hash self.executed_blocks));
    finalized_known =
        rw (f, x)
          (Known-insert_set genesis_hash self.forkchoice.finalized block.block_hash
            self.executed_blocks v.finalized_known);
  }

module _ {E : Engine} {D : DataLayer} {S : Storage} where
  pub record IsSynced (genesis_hash : B256) (ctx : SyncContext E D S) : Type 0 where
    pub node : IsNode genesis_hash ctx.node
    pub index : IsIndex ctx.index

  module _ (genesis_hash : B256) where
    Synced-IsSynced :
        (block : Block) (ctx : SyncContext E D S) (r : Result SyncReport B256)
        (ctx' : SyncContext E D S)
        → Synced block ctx r ctx'
        → IsSynced genesis_hash ctx
        → IsSynced genesis_hash ctx'
    Synced-IsSynced block ctx (ok h) ctx' (same, f, x, (celestia_height, i)) v = record {
      node = advanced-IsNode genesis_hash block ctx.node ctx'.node v.node f x;
      index = subst IsIndex (sym i) (record_entry-IsIndex _ ctx.index v.index);
    }
    Synced-IsSynced block ctx (err e) ctx' (i, inl (f, x)) v = record {
      node = record {
        safe_is_head = rw f v.node.safe_is_head;
        head_known = rw (f, x) v.node.head_known;
        finalized_known = rw (f, x) v.node.finalized_known;
      };
      index = subst IsIndex (sym i) v.index;
    }
    Synced-IsSynced block ctx (err e) ctx' (i, inr (f, x)) v = record {
      node = advanced-IsNode genesis_hash block ctx.node ctx'.node v.node f x;
      index = subst IsIndex (sym i) v.index;
    }

    sync_loop-IsSynced :
        (blocks : List (ℕ × Block)) (parent : B256) (last : ℕ) (ctx : SyncContext E D S)
        → IsSynced genesis_hash ctx
        → IsSynced genesis_hash (sync_loop blocks parent last ctx).1
    unfolding sync_loop
    sync_loop-IsSynced [] parent last ctx v = v
    sync_loop-IsSynced ((celestia_height, block) ∷ blocks) parent last ctx v =
        let (r, ctx1) = sync_single_block block celestia_height parent ctx in
        let w =
          Synced-IsSynced block ctx r ctx1
            (sync_single_block-Synced block celestia_height parent ctx) v in
        go (get_by_height (height block) ctx.index) r (sync_loop blocks block.block_hash last ctx)
          ctx1 (λ parent'. sync_loop blocks parent' (height block) ctx1)
          (sync_loop-IsSynced blocks block.block_hash last ctx v) w
          (λ parent'. sync_loop-IsSynced blocks parent' (height block) ctx1 w)
      where
        go :
            (entry : Option IndexEntry) (r : Result SyncReport B256)
            (skipped : Result SyncReport ℕ × SyncContext E D S) (ctx1 : SyncContext E D S)
            (rest : B256 → Result SyncReport ℕ × SyncContext E D S)
            → IsSynced genesis_hash skipped.1
            → IsSynced genesis_hash ctx1
            → ((parent' : B256) → IsSynced genesis_hash (rest parent').1)
            → let synced : Result SyncReport ℕ × SyncContext E D S = elim r [
              | ok parent' ↦ rest parent'
              | err e ↦ (err e, ctx1)
            ] in
              let out : Result SyncReport ℕ × SyncContext E D S = elim entry [
                | some _ ↦ skipped
                | none ↦ synced
              ] in
              IsSynced genesis_hash out.1
        go (some _) r s t f a b c = a
        go none (ok parent') s t f a b c = c parent'
        go none (err e) s t f a b c = b

    -- A sync keeps the invariants of the node and of the index, also when it fails half way: the
    -- head and the finalized hash stay those of executed blocks or of the genesis block.
    pub sync_block_batch-IsSynced :
        (blocks : List (ℕ × Block)) (ctx : SyncContext E D S)
        → IsSynced genesis_hash ctx
        → IsSynced genesis_hash (sync_block_batch blocks ctx).1
    unfolding sync_block_batch
    sync_block_batch-IsSynced blocks ctx v = sync_loop-IsSynced blocks _ _ ctx v
