-- ===== src/Sequencer/Sync/Laws.antt =====
-- crates/sequencer/src/simplex_sequencer.rs: what a sync from Celestia reaches.
use rkb.Prelude.{ℕ, ◌≡◌, refl, true, List, [], ◌∷◌, ok, All, arith}
use rkb.Prelude.Maps.{contains_key}
use rkb.Types.Primitives.{B256}
use rkb.Types.Block.{Block, height}
use rkb.Execution.Engine.{Engine}
use rkb.Celestia.Index.{Storage, get_by_height}
use rkb.Celestia.Client.{DataLayer}
use rkb.Sequencer.Sync.{SyncContext, sync_loop}

module _ {E : Engine} {D : DataLayer} {S : Storage} where
  -- The blocks of a list have entries in the index.
  abbrev pub Indexed : SyncContext E D S → ℕ × Block → Type 0
  Indexed ctx b = contains_key (height b.1) ctx.index.by_height ≡ true

  -- Blocks that are indexed are passed over.
  pub sync_loop-Indexed' :
      (blocks : List (ℕ × Block)) (parent : B256) (last : ℕ) (ctx : SyncContext E D S)
      → All (Indexed ctx) blocks
      → sync_loop blocks parent last ctx ≡ (ok last, ctx)
  unfolding sync_loop get_by_height
  sync_loop-Indexed' [] parent last ctx h = refl
  sync_loop-Indexed' (b ∷ blocks) parent last ctx h =
      ground (arith, h.0, sync_loop-Indexed' blocks b.1.block_hash last ctx h.1)

  -- What is indexed stays indexed.
  abbrev Grows : SyncContext E D S → SyncContext E D S → Type 0
  Grows ctx ctx' =
      (n : ℕ)
      → contains_key n ctx.index.by_height ≡ true
      → contains_key n ctx'.index.by_height ≡ true
