-- ===== src/Celestia/Index/Refinement.antt =====
-- crates/celestia/src/index.rs: the index against a log of the entries that were recorded, the
-- newest first, which is what its two maps stand for.
use Prim.Native.String.{◌++◌ as append}
use rkb.Prelude.{
  ℕ, zero, suc, ◌+◌, ◌-◌, ◌≡◌, ◌==◌, ltb, leb, if◌then◌else◌, ◌&&◌, Bool, List, [], ◌∷◌, map,
  Option, none, some, Result, ok, err,
}
use rkb.Prelude.Maps.{lookup, lookup-insert as lookup-insert_hash}
use rkb.Prelude.Ordered.{BTreeMap, IsOrdered, last_key, insert, lookup-insert}
use rkb.Prelude.Sorting.{filter}
use rkb.Types.Primitives.{B256}
use rkb.Celestia.Error.{CelestiaError}
use rkb.Celestia.Index.{
  IndexEntry, Storage, BlockIndex, get_by_height, get_by_hash, latest_height, range, record_entry,
  insert as insert_entry,
}

module _ {V : Type 0} where
  -- What an ordered map has between two keys, asked key by key.
  abbrev pub lookups : ℕ → ℕ → BTreeMap V → List V
  lookups start zero m = []
  lookups start (suc count) m = elim (lookup start m) [
    | none ↦ lookups (start + 1) count m
    | some v ↦ v ∷ lookups (start + 1) count m
  ]

  abbrev between : ℕ → ℕ → BTreeMap V → List V
  between start stop m = map (λ e. e.1) (filter (λ e. leb start e.0 && leb e.0 stop) m)

-- The newest entry that passes.
abbrev pub newest : (IndexEntry → Bool) → List IndexEntry → Option IndexEntry
newest p [] = none
newest p (e ∷ log) = if p e then some e else newest p log

abbrev pub entry_at : ℕ → List IndexEntry → Option IndexEntry
entry_at n log = newest (λ e. e.block_height == n) log

-- The height at which the newest entry of a hash was recorded.
abbrev pub height_of : B256 → List IndexEntry → Option ℕ
height_of h log = elim (newest (λ e. e.block_hash == h) log) [
  | none ↦ none
  | some e ↦ some e.block_height
]

abbrev pub highest : List IndexEntry → Option ℕ
highest [] = none
highest (e ∷ log) = elim (highest log) [
  | none ↦ some e.block_height
  | some k ↦ some (if ltb k e.block_height then e.block_height else k)
]

-- The entries at the heights from `start` on, one height after another.
abbrev pub entries_from : ℕ → ℕ → List IndexEntry → List IndexEntry
entries_from start zero log = []
entries_from start (suc count) log = elim (entry_at start log) [
  | none ↦ entries_from (start + 1) count log
  | some e ↦ e ∷ entries_from (start + 1) count log
]

record IsLogged (self : BlockIndex) (log : List IndexEntry) : Type 0 where
  pub ordered : IsOrdered self.by_height
  pub heights : (n : ℕ) → lookup n self.by_height ≡ entry_at n log
  pub hashes : (h : B256) → lookup h self.by_hash ≡ height_of h log
  pub last : last_key self.by_height ≡ highest log

-- What the queries of the index answer, from the log.
pub record Shows (self : BlockIndex) (log : List IndexEntry) : Type 0 where
  pub by_height : (n : ℕ) → get_by_height n self ≡ entry_at n log
  pub by_hash :
      (h : B256)
      → get_by_hash h self ≡ elim (height_of h log) [ none ↦ none | some n ↦ entry_at n log ]
  pub latest : latest_height self ≡ highest log
  pub ranges :
      (start stop : ℕ)
      → range start stop self
        ≡ (if ltb stop start then none else some (entries_from start (suc (stop - start)) log))

module _ (S : Storage) where
  -- An insertion records its entry, or fails and leaves the index.
  abbrev Outcome :
      IndexEntry → BlockIndex → Result CelestiaError (Unit {0}) × (S.Disk × BlockIndex) → Type 0
  Outcome e self (ok _, (_, self')) = self' ≡ record_entry e self
  Outcome e self (err _, (_, self')) = self' ≡ self

  -- One insertion after another, some of which may fail, with the log of those that do not.
  abbrev pub insert_logged :
      List IndexEntry
      → (S.Disk × BlockIndex) × List IndexEntry
      → (S.Disk × BlockIndex) × List IndexEntry
  insert_logged [] s = s
  insert_logged (e ∷ entries) (s, log) =
      let (r, s') = insert_entry S e s in
      insert_logged entries (s', elim r [ ok _ ↦ e ∷ log | err _ ↦ log ])
