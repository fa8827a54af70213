-- ===== src/Celestia/Index/Laws.antt =====
-- What the two maps of crates/celestia/src/index.rs hold after an insertion, and what the queries
-- return.
use rkb.Prelude.{
  ℕ, ◌≤◌, ◌≡◌, ◌==◌, if◌then◌else◌, ◌||◌, Bool, true, false, Option, none, some, [], ◌∷◌, arith,
  Option-cases, inl, inr,
}
use rkb.Prelude.Maps.{lookup, contains_key, IsMap, insert-IsMap, lookup-insert}
use rkb.Prelude.Ordered.{
  BTreeMap, IsOrdered, last_key, insert-IsOrdered, lookup-insert as lookup-insert_height,
}
use rkb.Types.Primitives.{B256}
use rkb.Celestia.Index.{
  IndexEntry, BlockIndex, get_by_height, get_by_hash, latest_height, record_entry, empty_index,
}

-- Heights ascend, hashes stand once, an entry stands at its own height, and a hash leads to an
-- entry.
pub record IsIndex (self : BlockIndex) : Type 0 where
  pub ordered : IsOrdered self.by_height
  pub hashes : IsMap self.by_hash
  pub filed : (n : ℕ) (e : IndexEntry) → lookup n self.by_height ≡ some e → e.block_height ≡ n
  pub total :
      (h : B256) (n : ℕ) → lookup h self.by_hash ≡ some n → contains_key n self.by_height ≡ true

pub empty_index-IsIndex : IsIndex empty_index
empty_index-IsIndex = record {
  ordered = tt;
  hashes = tt;
  filed = λ n e h. ground arith;
  total = λ h n e. ground arith;
}

-- Recording an entry keeps the index well formed.
pub record_entry-IsIndex :
    (entry : IndexEntry) (self : BlockIndex) → IsIndex self → IsIndex (record_entry entry self)
unfolding record_entry
record_entry-IsIndex entry self v = record {
  ordered = insert-IsOrdered entry.block_height entry self.by_height v.ordered;
  hashes = insert-IsMap entry.block_hash entry.block_height self.by_hash v.hashes;
  filed = λ n e h.
      ground (arith, lookup-insert_height entry.block_height n entry self.by_height, v.filed n e);
  total = λ h n e. ground (
    arith,
    lookup-insert entry.block_hash h entry.block_height self.by_hash,
    lookup-insert_height entry.block_height n entry self.by_height,
    v.total h n,
  );
}

-- By height, the recorded entry takes the place of the one that was there.
pub get_by_height-record_entry :
    (entry : IndexEntry) (self : BlockIndex) (n : ℕ)
    → get_by_height n (record_entry entry self)
      ≡ (if entry.block_height == n then some entry else get_by_height n self)
unfolding get_by_height record_entry
get_by_height-record_entry entry self n =
    lookup-insert_height entry.block_height n entry self.by_height

-- Whether a hash is recorded for a height.
abbrev pub leads_to : Option ℕ → ℕ → Bool
leads_to none n = false
leads_to (some m) n = m == n

-- By hash, the recorded entry is returned for its own hash, and also for every other hash that an
-- earlier entry recorded for the same height; for the other hashes nothing changes.
pub get_by_hash-record_entry :
    (entry : IndexEntry) (self : BlockIndex) (h : B256)
    → get_by_hash h (record_entry entry self) ≡ (
        if entry.block_hash == h || leads_to (lookup h self.by_hash) entry.block_height
        then some entry
        else get_by_hash h self)
unfolding get_by_hash record_entry
get_by_hash-record_entry entry self h = elim (Option-cases (lookup h self.by_hash)) [
  | inl missing ↦ ground (
    arith,
    lookup-insert entry.block_hash h entry.block_height self.by_hash,
    lookup-insert_height entry.block_height entry.block_height entry self.by_height,
  )
  | inr (m, found) ↦ ground (
    arith,
    lookup-insert entry.block_hash h entry.block_height self.by_hash,
    lookup-insert_height entry.block_height m entry self.by_height,
    lookup-insert_height entry.block_height entry.block_height entry self.by_height,
  )
]

-- Every recorded hash leads to an entry, at the height recorded for it.
pub get_by_hash-total :
    (self : BlockIndex) (h : B256) (n : ℕ)
    → IsIndex self
    → lookup h self.by_hash ≡ some n
    → (e : IndexEntry) × (get_by_hash h self ≡ some e) × (e.block_height ≡ n)
unfolding get_by_hash
get_by_hash-total self h n v found = elim (Option-cases (lookup n self.by_height)) [
  | inl missing ↦ absurd (ground (arith, v.total h n found))
  | inr (e, filed) ↦ (e, ground arith, v.filed n e filed)
]

module _ {ℓ} {V : Type ℓ} where
  last_key_bound :
      (m : BTreeMap V) (k n : ℕ)
      → IsOrdered m
      → last_key m ≡ some k
      → contains_key n m ≡ true
      → n ≤ k
  last_key_bound [] k n o h c = ground arith
  last_key_bound ((j, v) ∷ []) k n o h c = ground arith
  last_key_bound ((j, v) ∷ (i, w) ∷ m) k n o h c =
      ground (arith, last_key_bound ((i, w) ∷ m) k n o.1 h, last_key_bound ((i, w) ∷ m) k i o.1 h)

  last_key_present : (m : BTreeMap V) (k : ℕ) → last_key m ≡ some k → contains_key k m ≡ true
  last_key_present [] k h = ground arith
  last_key_present ((j, v) ∷ []) k h = ground arith
  last_key_present ((j, v) ∷ (i, w) ∷ m) k h = ground (arith, last_key_present ((i, w) ∷ m) k h)

-- `latest_height` is the largest height of the index.
pub latest_height-max :
    (self : BlockIndex) (k : ℕ)
    → IsIndex self
    → latest_height self ≡ some k
    → (contains_key k self.by_height ≡ true)
      × ((n : ℕ) → contains_key n self.by_height ≡ true → n ≤ k)
unfolding latest_height
latest_height-max self k v h =
    (last_key_present self.by_height k h, λ n. last_key_bound self.by_height k n v.ordered h)
