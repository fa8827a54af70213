-- ===== src/Celestia/Finality/Laws.antt =====
-- What one finalized Celestia header does to the tracker of crates/celestia/src/finality.rs.
use mathlib.Core.List.Perm
use mathlib.Core.List.{perm_middle}
use rkb.Prelude.{
  ℕ, ◌≤◌, ◌<◌, ◌≡◌, refl, ◌==◌, ltb, if◌then◌else◌, Bool-cases, inl, inr, Option, none, some, List,
  [], ◌∷◌, ◌++◌, map, Perm, All, length, arith,
}
use rkb.Prelude.Maps.{HashMap, lookup, IsMap}
use rkb.Prelude.Sorting.{
  filter, IsSorted, sort_by_key-IsSorted, sort_by_key-Perm, All-sort_by_key, filter-sort_few,
}
use rkb.Types.Primitives.{B256}
use rkb.Celestia.Finality.{
  Instant, FinalityConfirmation, PendingFinality, FinalityTracker, build_confirmation,
  retain_pending, on_celestia_finality, height_of,
}

-- The confirmations for one block.
abbrev pub confirmations_of : B256 → List FinalityConfirmation → List FinalityConfirmation
confirmations_of hash = filter (λ c. c.block_hash == hash)

-- What an entry turns into at a finalized height: a confirmation or nothing ..
abbrev pub confirmed :
    ℕ → B256 → Instant → B256 → Option PendingFinality → List FinalityConfirmation
confirmed height header now hash none = []
confirmed height header now hash (some p) =
    if ltb height p.celestia_height then [] else build_confirmation hash p header now ∷ []

-- .. and what is left of it.
abbrev pub waiting : ℕ → Option PendingFinality → Option PendingFinality
waiting height none = none
waiting height (some p) = if ltb height p.celestia_height then some p else none

-- The entry that a confirmation came from.
abbrev pub entry_of : FinalityConfirmation → B256 × PendingFinality
entry_of c = (
  c.block_hash,
  record {
    block_height = c.block_height;
    celestia_height = c.celestia_height;
    submitted_at = c.submitted_at;
  },
)

module _ (height : ℕ) (header : B256) (now : Instant) where
  confirmed_few :
      (hash : B256) (entry : Option PendingFinality)
      → length (confirmed height header now hash entry) ≤ 1
  confirmed_few hash none = omega arith
  confirmed_few hash (some p) = ground arith

  confirmations_of-retain_pending :
      (hash : B256) (m : HashMap PendingFinality)
      → IsMap m
      → confirmations_of hash (retain_pending height header now m).0
        ≡ confirmed height header now hash (lookup hash m)
  unfolding retain_pending build_confirmation
  confirmations_of-retain_pending hash [] h = refl
  confirmations_of-retain_pending hash ((j, p) ∷ m) h =
      ground (arith, confirmations_of-retain_pending hash m h.1)

  pub lookup-retain_pending :
      (hash : B256) (m : HashMap PendingFinality)
      → IsMap m
      → lookup hash (retain_pending height header now m).1 ≡ waiting height (lookup hash m)
  unfolding retain_pending
  lookup-retain_pending hash [] h = refl
  lookup-retain_pending hash ((j, p) ∷ m) h = ground (arith, lookup-retain_pending hash m h.1)

  retain_pending-IsMap :
      (m : HashMap PendingFinality) → IsMap m → IsMap (retain_pending height header now m).1
  unfolding retain_pending
  retain_pending-IsMap [] h = tt
  retain_pending-IsMap ((j, p) ∷ m) h =
      ground (arith, retain_pending-IsMap m h.1, lookup-retain_pending j m h.1)

  pub on_celestia_finality-IsMap :
      (self : FinalityTracker)
      → IsMap self.pending
      → IsMap (on_celestia_finality height header now self).1.pending
  unfolding on_celestia_finality
  on_celestia_finality-IsMap self h = retain_pending-IsMap self.pending h

  -- For each block: it is confirmed once, with the data it was tracked with, if it waits for a
  -- Celestia height up to the finalized one, and then waits no longer; otherwise it is not
  -- confirmed and waits on.
  pub on_celestia_finality-lookup :
      (self : FinalityTracker) (hash : B256)
      → IsMap self.pending
      → let (confirmations, self') = on_celestia_finality height header now self in
        let entry = lookup hash self.pending in
        (confirmations_of hash confirmations ≡ confirmed height header now hash entry)
        × (lookup hash self'.pending ≡ waiting height entry)
  unfolding on_celestia_finality
  on_celestia_finality-lookup self hash h =
      let entry = lookup hash self.pending in
      (
        filter-sort_few height_of (λ c. c.block_hash == hash)
            (confirmed height header now hash entry)
            (retain_pending height header now self.pending).0 (confirmed_few hash entry)
            (confirmations_of-retain_pending hash self.pending h),
        lookup-retain_pending hash self.pending h,
      )

  retain_pending-Perm :
      (m : HashMap PendingFinality)
      → let (confirmations, kept) = retain_pending height header now m in
        Perm (map entry_of confirmations ++ kept) m
  unfolding retain_pending build_confirmation
  retain_pending-Perm [] = Perm.rfl
  retain_pending-Perm ((j, p) ∷ m) = elim (Bool-cases (ltb height p.celestia_height)) [
    | inl lt ↦ rw lt (
        Perm.trans (perm_middle (map entry_of (retain_pending height header now m).0) _)
          (Perm.cons (j, p) (retain_pending-Perm m)))
    | inr ge ↦ rw ge (Perm.cons (j, p) (retain_pending-Perm m))
  ]

  retain_pending-All :
      (m : HashMap PendingFinality)
      → let (confirmations, kept) = retain_pending height header now m in
        All (λ c. c.celestia_height ≤ height) confirmations
        × All (λ e. height < e.1.celestia_height) kept
  unfolding retain_pending build_confirmation
  retain_pending-All [] = (tt, tt)
  retain_pending-All ((j, p) ∷ m) = let h = retain_pending-All m in ground (arith, h)

  -- No entry is lost or made up: the confirmations and what waits on are the entries there were.
  -- The confirmations are sorted by block height and are for Celestia heights up to the finalized
  -- one; what waits on is above it.
  pub on_celestia_finality-Partition :
      (self : FinalityTracker)
      → let (confirmations, self') = on_celestia_finality height header now self in
        Perm (map entry_of confirmations ++ self'.pending) self.pending
        × IsSorted height_of confirmations
        × All (λ c. c.celestia_height ≤ height) confirmations
        × All (λ e. height < e.1.celestia_height) self'.pending
  unfolding on_celestia_finality
  on_celestia_finality-Partition self =
      let pushed = (retain_pending height header now self.pending).0 in
      let (small, large) = retain_pending-All self.pending in
      (
        Perm.trans (Perm.append_right _ (Perm.map entry_of (sort_by_key-Perm height_of pushed)))
            (retain_pending-Perm self.pending),
        sort_by_key-IsSorted height_of pushed,
        All-sort_by_key height_of _ pushed small,
        large,
      )
