-- ===== src/Sequencer/Sync.antt =====
-- crates/sequencer/src/simplex_sequencer.rs: blocks that Celestia holds are executed before
-- consensus starts. The calls see the node and the block index with its disk; log lines are left out.
pub mod Laws
pub mod Fetch
pub mod Steps
pub mod Invariant
use rkb.Prelude.{
  ℕ, ◌==◌, ltb, leb, if◌then◌else◌, Bool, true, false, String, List, [], ◌∷◌, Option, none, some,
  Result, ok, err,
}
use rkb.Prelude.Maps.{insert_set, HashSet}
use rkb.Prelude.Sorting.{sort_by_key}
use rkb.Types.Primitives.{B256}
use rkb.Types.Block.{Block, height, parent_hash}
use rkb.Execution.Error.{ExecutionError}
use rkb.Execution.Forkchoice.{ForkchoiceState, with_soft}
use rkb.Execution.Payload.{ExecutionResult, is_valid}
use rkb.Execution.Engine.{Engine}
use rkb.Execution.Client.{ExecutionClient, execute_block}
use rkb.Celestia.Error.{CelestiaError}
use rkb.Celestia.Finality.{finalized_height}
use rkb.Celestia.Index.{
  Storage, BlockIndex, IndexEntry, get_by_height, latest_height, insert as insert_entry,
}
use rkb.Celestia.Client.{DataLayer, CelestiaClient}
use rkb.Celestia.Client.Retrieve.{get_blocks_in_range}
use rkb.Sequencer.Finalization.{
  Report, Node, wrapped, block_invalid, commit_forkchoice, on_execution,
}

-- The reports of a sync: those of an execution, and errors of the Celestia crate with their text.
pub data SyncReport : Type 0 where
  execution : Report → SyncReport
  celestia : String → CelestiaError → SyncReport

pub record SyncContext (E : Engine) (D : DataLayer) (S : Storage) : Type 0 where
  pub node : Node E D
  pub disk : S.Disk
  pub index : BlockIndex

-- `unwrap_or(0)`
abbrev pub or_zero : Option ℕ → ℕ
or_zero none = 0
or_zero (some n) = n

unfoldable pub check_sync_preconditions : BlockIndex → ℕ → ℕ → Option ℕ
check_sync_preconditions index genesis_da_height current_celestia_height =
    if current_celestia_height == 0
    then some (or_zero (latest_height index))
    else if ltb current_celestia_height genesis_da_height
    then some (or_zero (latest_height index))
    else none

-- Whether a warning is logged: nothing else depends on it.
unfoldable pub check_parent_continuity : Block → B256 → Bool
check_parent_continuity block expected_parent =
    if leb (height block) 1 then true else parent_hash block == expected_parent

abbrev pub height_of : ℕ × Block → ℕ
height_of b = height b.1

module _ {D : DataLayer} where
  -- The blocks of the range by height; an empty list is returned as it is.
  unfoldable pub fetch_blocks_from_celestia :
      ℕ → ℕ → CelestiaClient D → Result SyncReport (List (ℕ × Block)) × CelestiaClient D
  fetch_blocks_from_celestia start_height end_height client =
      let (r, client') = get_blocks_in_range start_height end_height client in
      elim r [
        | ok blocks ↦ (ok (sort_by_key height_of blocks), client')
        | err e ↦ (err (celestia "failed to fetch blocks from Celestia" e), client')
      ]

module _ {E : Engine} {D : DataLayer} where
  -- The rest, once the block was executed.
  unfoldable pub adopt_synced :
      Block → Result ExecutionError ExecutionResult → Node E D → Result Report (Unit {0}) × Node E D
  unfolding commit_forkchoice with_soft
  adopt_synced block (err e) self = (err (wrapped "failed to execute block" e), self)
  adopt_synced block (ok result) self =
      if is_valid result
      then commit_forkchoice "failed to update forkchoice for block"
          (with_soft self.forkchoice block.block_hash) self
      else (err (block_invalid result.status), self)

  unfoldable pub execute_sync_block : Block → Node E D → Result Report (Unit {0}) × Node E D
  execute_sync_block block self =
      let (r, self') = on_execution (execute_block block) self in adopt_synced block r self'

module _ {E : Engine} {D : DataLayer} {S : Storage} where
  -- The entry of a synced block.
  unfoldable pub index_synced :
      Block → ℕ → SyncContext E D S → Result SyncReport B256 × SyncContext E D S
  index_synced block celestia_height ctx =
      let entry : IndexEntry = record {
        block_height = height block;
        block_hash = block.block_hash;
        celestia_height = celestia_height;
        commitment = [];
      } in
      let (r, (disk, index)) = insert_entry S entry (ctx.disk, ctx.index) in
      let ctx' = record ctx { disk = disk; index = index } in
      elim r [
        | ok _ ↦ (ok block.block_hash, ctx')
        | err e ↦ (err (celestia "failed to update block index" e), ctx')
      ]

  -- What follows the execution of a block.
  unfoldable pub record_synced :
      Block
      → ℕ
      → Result Report (Unit {0})
      → SyncContext E D S
      → Result SyncReport B256 × SyncContext E D S
  record_synced block celestia_height (err e) ctx = (err (execution e), ctx)
  record_synced block celestia_height (ok _) ctx =
      let executed = insert_set block.block_hash ctx.node.executed_blocks in
      index_synced block celestia_height
        (record ctx { node = record ctx.node { executed_blocks = executed } })

  -- Of the expected parent only a warning depends.
  unfoldable pub sync_single_block :
      Block → ℕ → B256 → SyncContext E D S → Result SyncReport B256 × SyncContext E D S
  sync_single_block block celestia_height expected_parent ctx =
      let (r, node) = execute_sync_block block ctx.node in
      record_synced block celestia_height r (record ctx { node = node })

  unfoldable pub sync_loop :
      List (ℕ × Block)
      → (parent_hash : B256) → (last_synced_height : ℕ) → SyncContext E D S
      → Result SyncReport ℕ × SyncContext E D S
  sync_loop [] parent last_synced_height ctx = (ok last_synced_height, ctx)
  sync_loop ((celestia_height, block) ∷ blocks) parent last_synced_height ctx =
      let skipped = sync_loop blocks block.block_hash last_synced_height ctx in
      let (r, ctx') = sync_single_block block celestia_height parent ctx in
      let synced : Result SyncReport ℕ × SyncContext E D S = elim r [
        | ok parent' ↦ sync_loop blocks parent' (height block) ctx'
        | err e ↦ (err e, ctx')
      ] in
      elim (get_by_height (height block) ctx.index) [ some _ ↦ skipped | none ↦ synced ]

  unfoldable pub sync_block_batch :
      List (ℕ × Block) → SyncContext E D S → Result SyncReport ℕ × SyncContext E D S
  sync_block_batch blocks ctx =
      sync_loop blocks ctx.node.forkchoice.head (or_zero (latest_height ctx.index)) ctx

  -- The steps after the fetch.
  unfoldable pub sync_fetched :
      Result SyncReport (List (ℕ × Block))
      → SyncContext E D S
      → Result SyncReport ℕ × SyncContext E D S
  sync_fetched (err e) ctx = (err e, ctx)
  sync_fetched (ok []) ctx = (ok (or_zero (latest_height ctx.index)), ctx)
  sync_fetched (ok (b ∷ blocks)) ctx = sync_block_batch (b ∷ blocks) ctx

  unfoldable pub sync_from_celestia :
      ℕ → SyncContext E D S → Result SyncReport ℕ × SyncContext E D S
  sync_from_celestia genesis_da_height ctx =
      let current = finalized_height ctx.node.celestia.finality_tracker in
      let (r, client) = fetch_blocks_from_celestia genesis_da_height current ctx.node.celestia in
      let fetched = record ctx { node = record ctx.node { celestia = client } } in
      elim (check_sync_preconditions ctx.index genesis_da_height current) [
        | some height ↦ (ok height, ctx)
        | none ↦ sync_fetched r fetched
      ]
