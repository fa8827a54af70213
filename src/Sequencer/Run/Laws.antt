-- ===== src/Sequencer/Run/Laws.antt =====
-- crates/sequencer/src/simplex_sequencer.rs: the opened index and the synced node keep their
-- invariants.
use rkb.Prelude.Text.{is_empty as is_empty_text}
use rkb.Prelude.{
  ℕ, ◌≡◌, refl, if◌then◌else◌, Bool, true, false, List, [], ◌∷◌, Option, none, some, Result, ok,
  err, map_err, String,
}
use rkb.Types.Primitives.{B256}
use rkb.Execution.Engine.{Engine}
use rkb.Celestia.Error.{CelestiaError}
use rkb.Celestia.Index.{
  Storage, BlockIndex, IndexEntry, open_index, open_append, replay_lines, record_entry,
  parse_and_insert, replay, replay_existing, empty_index,
}
use rkb.Celestia.Index.Laws.{IsIndex, empty_index-IsIndex, record_entry-IsIndex}
use rkb.Celestia.Client.{DataLayer}
use rkb.Sequencer.Finalization.{Node}
use rkb.Sequencer.Finalization.Invariant.{IsNode}
use rkb.Types.Block.{Block}
use rkb.Celestia.Finality.{finalized_height}
use rkb.Sequencer.Sync.{
  check_sync_preconditions, SyncReport, SyncContext, sync_from_celestia, sync_fetched,
  fetch_blocks_from_celestia,
}
use rkb.Sequencer.Sync.Invariant.{IsSynced, sync_block_batch-IsSynced}

module _ (S : Storage) where
  replay_lines-IsIndex :
      (lines : List (Result String String)) (self : BlockIndex)
      → IsIndex self
      → IsIndex (replay_lines S lines self).1
  unfolding replay_lines parse_and_insert
  replay_lines-IsIndex [] self v = v
  replay_lines-IsIndex (err e ∷ lines) self v = v
  replay_lines-IsIndex (ok line ∷ lines) self v =
      replay_lines-IsIndex lines _ (next (is_empty_text line) (S.from_str line))
    where
      next :
          (blank : Bool) (entry : Option IndexEntry)
          → let parsed : Bool × BlockIndex = elim entry [
            | some e ↦ (true, record_entry e self)
            | none ↦ (false, self)
          ] in
            IsIndex (if blank then self else parsed.1)
      next true entry = v
      next false none = v
      next false (some e) = record_entry-IsIndex e self v

  abbrev Indexed : Result CelestiaError (Unit {0}) × (S.Disk × BlockIndex) → Type 0
  Indexed r = IsIndex r.1.1

  call-Indexed :
      {A : Type 0} (r : Result CelestiaError A) (s : S.Disk × BlockIndex)
      (good : A → Result CelestiaError (Unit {0}) × (S.Disk × BlockIndex))
      → IsIndex s.1
      → ((a : A) → Indexed (good a))
      → let out : Result CelestiaError (Unit {0}) × (S.Disk × BlockIndex) = elim r [
        | ok a ↦ good a
        | err e ↦ (err e, s)
      ] in
        Indexed out
  call-Indexed (ok a) s good v h = h a
  call-Indexed (err e) s good v h = v

  replay_existing-IsIndex :
      (there : Bool) (s : S.Disk × BlockIndex) → IsIndex s.1 → Indexed (replay_existing S there s)
  unfolding replay_existing replay
  replay_existing-IsIndex false s v = v
  replay_existing-IsIndex true (disk, self) v =
      let (r, disk') = S.open_read disk in
      let read = replay_lines S (S.lines disk') self in
      call-Indexed (map_err _ r) (disk', self) (λ _. (read.0, (disk', read.1))) v
        (λ _. replay_lines-IsIndex (S.lines disk') self v)

  file-IsIndex : (self : BlockIndex) → IsIndex self → IsIndex (record self { file = true })
  file-IsIndex self v = record {
    ordered = v.ordered;
    hashes = v.hashes;
    filed = v.filed;
    total = v.total;
  }

  open_append-Indexed : (s : S.Disk × BlockIndex) → IsIndex s.1 → Indexed (open_append S s)
  unfolding open_append
  open_append-Indexed (disk, self) v =
      call-Indexed (map_err _ (S.open_append disk).0) ((S.open_append disk).1, self) _ v
        (λ _. file-IsIndex self v)

  pub open_index-IsIndex : (disk : S.Disk) → IsIndex (open_index S disk).1.1
  unfolding open_index
  open_index-IsIndex disk =
      let (r, made) = S.create_parent disk in
      let read = replay_existing S (S.exists made) (made, empty_index) in
      let v = replay_existing-IsIndex (S.exists made) (made, empty_index) empty_index-IsIndex in
      call-Indexed (map_err _ r) (made, empty_index) _ empty_index-IsIndex
        (λ _.
          call-Indexed read.0 read.1 (λ _. open_append S read.1) v
            (λ _. open_append-Indexed read.1 v))

module _ {E : Engine} {D : DataLayer} (hash : B256) where
  -- The invariant reads only the forkchoice and the executed blocks.
  pub same-IsNode :
      (self self' : Node E D)
      → self'.forkchoice ≡ self.forkchoice
      → self'.executed_blocks ≡ self.executed_blocks
      → IsNode hash self
      → IsNode hash self'
  same-IsNode self self' f x v = record {
    safe_is_head = rw f v.safe_is_head;
    head_known = rw (f, x) v.head_known;
    finalized_known = rw (f, x) v.finalized_known;
  }

  module _ {S : Storage} where
    sync_fetched-IsSynced :
        (r : Result SyncReport (List (ℕ × Block))) (ctx : SyncContext E D S)
        → IsSynced hash ctx
        → IsSynced hash (sync_fetched r ctx).1
    unfolding sync_fetched
    sync_fetched-IsSynced (err e) ctx v = v
    sync_fetched-IsSynced (ok []) ctx v = v
    sync_fetched-IsSynced (ok (b ∷ blocks)) ctx v =
        sync_block_batch-IsSynced hash (b ∷ blocks) ctx v

    pub sync_from_celestia-IsSynced :
        (genesis_da_height : ℕ) (ctx : SyncContext E D S)
        → IsSynced hash ctx
        → IsSynced hash (sync_from_celestia genesis_da_height ctx).1
    unfolding sync_from_celestia
    sync_from_celestia-IsSynced genesis_da_height ctx v =
        let current = finalized_height ctx.node.celestia.finality_tracker in
        let (r, client) = fetch_blocks_from_celestia genesis_da_height current ctx.node.celestia in
        let fetched = record ctx { node = record ctx.node { celestia = client } } in
        let w : IsSynced hash fetched = record {
          node = same-IsNode ctx.node fetched.node refl refl v.node;
          index = v.index;
        } in
        go (check_sync_preconditions ctx.index genesis_da_height current) (sync_fetched r fetched)
          (sync_fetched-IsSynced r fetched w)
      where
        go :
            (early : Option ℕ) (late : Result SyncReport ℕ × SyncContext E D S)
            → IsSynced hash late.1
            → let out : Result SyncReport ℕ × SyncContext E D S = elim early [
              | some height ↦ (ok height, ctx)
              | none ↦ late
            ] in
              IsSynced hash out.1
        go none late h = h
        go (some height) late h = v
