-- ===== src/Celestia/Index.antt =====
-- crates/celestia/src/index.rs: the index of where each block lies on Celestia, kept in memory and
-- in an append-only file of lines. The paths are those of the file system behind `Storage`.
pub mod Laws
pub mod Persistence
pub mod Refinement
use Prim.Native.String.{◌++◌}
use rkb.Prelude.Text.{is_empty as is_empty_text}
use rkb.Prelude.{
  ℕ, ◌+◌, ltb, leb, if◌then◌else◌, ◌&&◌, Bool, true, false, String, List, [], ◌∷◌, map, length,
  Option, is_empty as list_is_empty, none, some, Result, ok, err, catch_err, lift, pure, ◌>>=◌,
  ◌>>◌, Action,
}
use rkb.Prelude.Maps.{HashMap, lookup, insert as insert_hash}
use rkb.Prelude.Ordered.{BTreeMap, last_key, insert as insert_height}
use rkb.Prelude.Sorting.{filter}
use rkb.Types.Primitives.{B256, Bytes}
use rkb.Celestia.Error.{CelestiaError, internal}

pub record IndexEntry : Type 0 where
  pub block_height : ℕ
  pub block_hash : B256
  pub celestia_height : ℕ
  pub commitment : Bytes

-- The file of the index and the JSON codec: `tokio::fs` and `serde_json`, as `open` and `insert`
-- call them for one path. An error is its text.
pub record Storage : Type 1 where
  pub Disk : Type 0
  -- `create_dir_all` of the parent, and nothing for a path without one
  pub create_parent : Disk → Result String (Unit {0}) × Disk
  pub exists : Disk → Bool
  -- `File::open`
  pub open_read : Disk → Result String (Unit {0}) × Disk
  -- what `next_line` hands out, up to the first failure
  pub lines : Disk → List (Result String String)
  -- `OpenOptions` with `create` and `append`
  pub open_append : Disk → Result String (Unit {0}) × Disk
  pub write_all : String → Disk → Result String (Unit {0}) × Disk
  pub flush : Disk → Result String (Unit {0}) × Disk
  pub to_string : IndexEntry → Result String String
  pub from_str : String → Option IndexEntry

-- `file` is whether the handle for appending is there.
pub record BlockIndex : Type 0 where
  pub by_height : BTreeMap IndexEntry
  pub by_hash : HashMap ℕ
  pub file : Bool

unfoldable pub get_by_height : ℕ → BlockIndex → Option IndexEntry
get_by_height height self = lookup height self.by_height

unfoldable pub get_by_hash : B256 → BlockIndex → Option IndexEntry
get_by_hash hash self = elim (lookup hash self.by_hash) [
  | none ↦ none
  | some height ↦ lookup height self.by_height
]

unfoldable pub latest_height : BlockIndex → Option ℕ
latest_height self = last_key self.by_height

unfoldable pub len : BlockIndex → ℕ
len self = length self.by_height

unfoldable pub is_empty : BlockIndex → Bool
is_empty self = list_is_empty self.by_height

abbrev pub value : ℕ × IndexEntry → IndexEntry
value entry = entry.1

unfoldable pub iter : BlockIndex → List IndexEntry
iter self = map value self.by_height

-- `none` is the panic of `BTreeMap::range` on a start above the end.
unfoldable pub range : ℕ → ℕ → BlockIndex → Option (List IndexEntry)
range start stop self =
    if ltb stop start
    then none
    else some (map value (filter (λ e. leb start e.0 && leb e.0 stop) self.by_height))

-- The two writes that `insert` and `parse_and_insert` share.
unfoldable pub record_entry : IndexEntry → BlockIndex → BlockIndex
record_entry entry self = record self {
  by_hash = insert_hash entry.block_hash entry.block_height self.by_hash;
  by_height = insert_height entry.block_height entry self.by_height;
}

abbrev pub empty_index : BlockIndex
empty_index = record { by_height = []; by_hash = []; file = false }

module _ (S : Storage) where
  unfoldable pub parse_and_insert : String → BlockIndex → Bool × BlockIndex
  unfolding record_entry
  parse_and_insert line self = elim (S.from_str line) [
    | some entry ↦ (true, record_entry entry self)
    | none ↦ (false, self)
  ]

  -- The loop of `replay`, without the counts that it logs.
  unfoldable pub replay_lines :
      List (Result String String) → BlockIndex → Result CelestiaError (Unit {0}) × BlockIndex
  replay_lines [] self = (ok tt, self)
  replay_lines (err e ∷ lines) self = (err (internal ("failed to read index line: " ++ e)), self)
  replay_lines (ok line ∷ lines) self =
      replay_lines lines (if is_empty_text line then self else (parse_and_insert line self).1)

  -- A call sees the disk and the index.
  abbrev pub IndexCall : Type 0 → Type 0
  IndexCall A = Action (S.Disk × BlockIndex) CelestiaError A

  abbrev on_disk : {A : Type 0} → String → (S.Disk → Result String A × S.Disk) → IndexCall A
  on_disk failed call (d, self) =
      let (r, d') = catch_err (λ e. internal (failed ++ e)) call d in (r, (d', self))

  unfoldable pub replay : IndexCall (Unit {0})
  replay = do
    on_disk "failed to open index for replay: " S.open_read
    λ s. let (r, self) = replay_lines (S.lines s.0) s.1 in (r, (s.0, self))

  unfoldable pub replay_existing : Bool → IndexCall (Unit {0})
  replay_existing true = replay
  replay_existing false = pure tt

  unfoldable pub open_append : IndexCall (Unit {0})
  open_append = do
    on_disk "failed to open index file: " S.open_append
    λ s. (ok tt, (s.0, record s.1 { file = true }))

  -- The index begins empty.
  unfoldable pub open_index : S.Disk → Result CelestiaError (Unit {0}) × (S.Disk × BlockIndex)
  unfolding open_append
  open_index d =
      (do
        on_disk "failed to create index directory: " S.create_parent
        (λ s. replay_existing (S.exists s.0) s)
        open_append)
        (d, empty_index)

  unfoldable pub append_line : Bool → String → IndexCall (Unit {0})
  append_line false line = pure tt
  append_line true line = do
    on_disk "failed to write index entry: " (S.write_all line)
    on_disk "failed to flush index: " S.flush

  unfoldable pub insert : IndexEntry → IndexCall (Unit {0})
  insert entry = do
    line ← (λ s.
        catch_err (λ e. internal ("failed to serialize index entry: " ++ e))
          (lift (S.to_string entry)) s)
    (λ s. append_line s.1.file (line ++ "\n") s)
    λ s. (ok tt, (s.0, record_entry entry s.1))
