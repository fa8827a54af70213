-- ===== src/Celestia/Index/Persistence.antt =====
-- crates/celestia/src/index.rs: the file holds what the index in memory holds, so an index opened
-- again is the same.
use Prim.Native.String.{◌++◌ as append}
use rkb.Prelude.Text.{is_empty as is_empty_text}
use rkb.Prelude.{
  ◌≡◌, refl, ap, if◌then◌else◌, true, false, String, List, [], ◌∷◌, ◌++◌, some, Result, ok, err,
  arith, Result-cases, inl, inr, pure, ◌>>◌,
}
use rkb.Celestia.Error.{CelestiaError}
use rkb.Celestia.Index.{
  IndexEntry, Storage, BlockIndex, record_entry, empty_index, parse_and_insert, replay_lines,
  replay, replay_existing, open_index, append_line, insert, IndexCall,
}

-- What the code relies on of the file system and of the codec: a line that the codec printed, once
-- written and flushed, is read back at the end of the file; opening changes no line, and a file that is not there has
-- none; what the codec prints, it parses, and that is no blank line.
pub record IsStorage (S : Storage) : Type 0 where
  pub reads_back :
      (e : IndexEntry) (line : String) (d d' d'' : S.Disk)
      → S.to_string e ≡ ok line
      → S.write_all (append line "\n") d ≡ (ok tt, d')
      → S.flush d' ≡ (ok tt, d'')
      → S.lines d'' ≡ S.lines d ++ ok line ∷ []
  pub create_keeps : (d : S.Disk) → S.lines (S.create_parent d).1 ≡ S.lines d
  pub read_keeps : (d : S.Disk) → S.lines (S.open_read d).1 ≡ S.lines d
  pub append_keeps : (d : S.Disk) → S.lines (S.open_append d).1 ≡ S.lines d
  pub absent : (d : S.Disk) → S.exists d ≡ false → S.lines d ≡ []
  pub parses :
      (e : IndexEntry) (line : String)
      → S.to_string e ≡ ok line
      → (S.from_str line ≡ some e) × (is_empty_text line ≡ false)

-- Replaying the file of an open index gives the index.
pub record IsPersisted (S : Storage) (d : S.Disk) (self : BlockIndex) : Type 0 where
  pub opened : self.file ≡ true
  pub replayed : replay_lines S (S.lines d) empty_index ≡ (ok tt, record self { file = false })

module _ (S : Storage) where
  -- One insertion after another, up to the first that fails.
  abbrev pub insert_all : List IndexEntry → IndexCall S (Unit {0})
  insert_all [] = pure tt
  insert_all (entry ∷ entries) = do insert S entry; insert_all entries

  replay_lines-append :
      (lines : List (Result String String)) (line : String) (self self' : BlockIndex)
      → replay_lines S lines self ≡ (ok tt, self')
      → replay_lines S (lines ++ ok line ∷ []) self
        ≡ (ok tt, if is_empty_text line then self' else (parse_and_insert S line self').1)
  unfolding replay_lines
  replay_lines-append [] line self self' h =
      ap
        (λ (r : Result CelestiaError (Unit {0}) × BlockIndex).
          (r.0, if is_empty_text line then r.1 else (parse_and_insert S line r.1).1))
        h
  replay_lines-append (ok l ∷ lines) line self self' h = replay_lines-append lines line _ self' h
  replay_lines-append (err e ∷ lines) line self self' h = ground arith

  pub insert-IsPersisted :
      (entry : IndexEntry) (d d' : S.Disk) (self self' : BlockIndex)
      → IsStorage S
      → IsPersisted S d self
      → insert S entry (d, self) ≡ (ok tt, (d', self'))
      → IsPersisted S d' self'
  unfolding insert append_line parse_and_insert record_entry
  insert-IsPersisted entry d d' self self' laws v h = elim (Result-cases (S.to_string entry)) [
    | inl (line, printed) ↦
        let w = (S.write_all (append line "\n") d).1 in
        let parsed = laws.parses entry line printed in
        let read = laws.reads_back entry line d w d' printed in
        let added = replay_lines-append (S.lines d) line empty_index _ v.replayed in
        record {
          opened = ground (arith, v.opened);
          replayed = ground (arith, printed, parsed, read, added, v.opened);
        }
    | inr (e, failed) ↦ absurd (ground arith)
  ]

  file-replay_lines :
      (lines : List (Result String String)) (self : BlockIndex)
      → (replay_lines S lines self).1.file ≡ self.file
  unfolding replay_lines parse_and_insert record_entry
  file-replay_lines [] self = refl
  file-replay_lines (err e ∷ lines) self = refl
  file-replay_lines (ok line ∷ lines) self = ground (
    arith,
    file-replay_lines lines (if is_empty_text line then self else (parse_and_insert S line self).1),
  )

  replay_nothing : (self : BlockIndex) → replay_lines S [] self ≡ (ok tt, self)
  unfolding replay_lines
  replay_nothing self = refl

  pub open_index-IsPersisted :
      (d d' : S.Disk) (self : BlockIndex)
      → IsStorage S
      → open_index S d ≡ (ok tt, (d', self))
      → IsPersisted S d' self
  unfolding open_index replay_existing replay
  open_index-IsPersisted d d' self laws h =
      let made = (S.create_parent d).1 in
      let read = (S.open_read made).1 in
      record {
        opened = ground arith;
        replayed = ground (
          arith,
          laws.read_keeps made,
          laws.append_keeps made,
          laws.append_keeps read,
          laws.absent made,
          file-replay_lines (S.lines read) empty_index,
          replay_nothing empty_index,
        );
      }
