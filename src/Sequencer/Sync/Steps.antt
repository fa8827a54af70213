-- ===== src/Sequencer/Sync/Steps.antt =====
-- crates/sequencer/src/simplex_sequencer.rs: how the sync of one block ends.
use rkb.Prelude.{ℕ, ◌≡◌, ◌⊎◌, refl, ◌∙◌, ap, [], Result, ok, err, arith, inl, inr}
use rkb.Prelude.Maps.{insert_set}
use rkb.Types.Primitives.{B256}
use rkb.Types.Block.{Block, height}
use rkb.Execution.Forkchoice.{with_soft}
use rkb.Execution.Engine.{Engine}
use rkb.Celestia.Error.{CelestiaError}
use rkb.Celestia.Index.{
  Storage, BlockIndex, IndexEntry, record_entry, append_line, insert as insert_entry,
}
use rkb.Celestia.Client.{DataLayer}
use rkb.Sequencer.Finalization.{Report, Node, commit_forkchoice}
use rkb.Sequencer.Finalization.Laws.{Executes}
use rkb.Sequencer.Sync.{
  SyncReport, celestia, SyncContext, adopt_synced, execute_sync_block, index_synced, record_synced,
  sync_single_block,
}

-- An insertion records the entry, or leaves the index as it was.
abbrev Recorded : IndexEntry → BlockIndex → Result CelestiaError (Unit {0}) → BlockIndex → Type 0
Recorded entry index (ok _) index' = index' ≡ record_entry entry index
Recorded entry index (err e) index' = index' ≡ index

insert_entry-Recorded :
    (S : Storage) (entry : IndexEntry) (d : S.Disk) (index : BlockIndex)
    → let (r, s) = insert_entry S entry (d, index) in Recorded entry index r s.1
unfolding insert_entry append_line
insert_entry-Recorded S entry d index = ground arith

module _ {E : Engine} {D : DataLayer} where
  execute_sync_block-Executes :
      (block : Block) (self : Node E D)
      → let (r, self') = execute_sync_block block self in Executes block self r self'
  unfolding execute_sync_block adopt_synced commit_forkchoice
  execute_sync_block-Executes block self = ground arith

module _ {E : Engine} {D : DataLayer} {S : Storage} where
  -- How the sync of one block ends.
  abbrev pub Synced :
      Block → SyncContext E D S → Result SyncReport B256 → SyncContext E D S → Type 0
  Synced block ctx (ok parent) ctx' =
      (parent ≡ block.block_hash)
      × (ctx'.node.forkchoice ≡ with_soft ctx.node.forkchoice block.block_hash)
      × (ctx'.node.executed_blocks ≡ insert_set block.block_hash ctx.node.executed_blocks)
      × ((celestia_height : ℕ) × (ctx'.index
            ≡ record_entry
                (record {
                  block_height = height block;
                  block_hash = block.block_hash;
                  celestia_height = celestia_height;
                  commitment = [];
                })
                ctx.index))
  Synced block ctx (err e) ctx' =
      (ctx'.index ≡ ctx.index)
      × (((ctx'.node.forkchoice ≡ ctx.node.forkchoice)
            × (ctx'.node.executed_blocks ≡ ctx.node.executed_blocks))
          ⊎ ((ctx'.node.forkchoice ≡ with_soft ctx.node.forkchoice block.block_hash)
              × (ctx'.node.executed_blocks ≡ insert_set block.block_hash ctx.node.executed_blocks)))

  index_synced-Synced :
      (block : Block) (celestia_height : ℕ) (ctx ctx1 : SyncContext E D S)
      → ctx1.index ≡ ctx.index
      → ctx1.node.forkchoice ≡ with_soft ctx.node.forkchoice block.block_hash
      → ctx1.node.executed_blocks ≡ insert_set block.block_hash ctx.node.executed_blocks
      → let (r, ctx') = index_synced block celestia_height ctx1 in Synced block ctx r ctx'
  unfolding index_synced
  index_synced-Synced block celestia_height ctx ctx1 i f x =
      let entry : IndexEntry = record {
        block_height = height block;
        block_hash = block.block_hash;
        celestia_height = celestia_height;
        commitment = [];
      } in
      go (insert_entry S entry (ctx1.disk, ctx1.index))
        (insert_entry-Recorded S entry ctx1.disk ctx1.index)
    where
      go :
          (s : Result CelestiaError (Unit {0}) × (S.Disk × BlockIndex))
          → Recorded
              (record {
                block_height = height block;
                block_hash = block.block_hash;
                celestia_height = celestia_height;
                commitment = [];
              })
              ctx1.index
              s.0
              s.1.1
          → let out : Result SyncReport B256 × SyncContext E D S = elim s.0 [
            | ok _ ↦ (ok block.block_hash, record ctx1 { disk = s.1.0; index = s.1.1 })
            | err e ↦ (
              err (celestia "failed to update block index" e),
              record ctx1 { disk = s.1.0; index = s.1.1 },
            )
          ] in
            Synced block ctx out.0 out.1
      go (ok _, s) h = (refl, f, x, (celestia_height, h ∙ ap (record_entry _) i))
      go (err e, s) h = (h ∙ i, inr (f, x))

  record_synced-Synced :
      (block : Block) (celestia_height : ℕ) (ctx : SyncContext E D S) (r : Result Report (Unit {0}))
      (node : Node E D)
      → Executes block ctx.node r node
      → let (r', ctx') = record_synced block celestia_height r (record ctx { node = node }) in
        Synced block ctx r' ctx'
  unfolding record_synced
  record_synced-Synced block celestia_height ctx (err e) node h = (
    refl,
    inl (ap (λ (n : Node E D). n.forkchoice) h, ap (λ (n : Node E D). n.executed_blocks) h),
  )
  record_synced-Synced block celestia_height ctx (ok _) node h =
      index_synced-Synced block celestia_height ctx _ refl (ap (λ (n : Node E D). n.forkchoice) h)
        (ap (λ (n : Node E D). insert_set block.block_hash n.executed_blocks) h)

  pub sync_single_block-Synced :
      (block : Block) (celestia_height : ℕ) (parent : B256) (ctx : SyncContext E D S)
      → let (r, ctx') = sync_single_block block celestia_height parent ctx in
        Synced block ctx r ctx'
  unfolding sync_single_block
  sync_single_block-Synced block celestia_height parent ctx =
      let (r, node) = execute_sync_block block ctx.node in
      record_synced-Synced block celestia_height ctx r node
        (execute_sync_block-Executes block ctx.node)
