-- ===== src/Prelude/Maps.antt =====
-- Hash maps and sets with numbers for keys: association lists in which a key stands once. Only
-- `retain` and a walk over the entries see the order of the list.
use Prim.Native.Nat.{ℕ}
use mathlib.Core.Path.{◌≡◌, refl, subst}
use mathlib.Core.Bool.{Bool, true, false, ◌||◌}
use mathlib.Core.Logic.{inl, inr}
use mathlib.Core.List.{List, [], ◌∷◌}
use mathlib.Core.Option.{Option, none, some}
use native.Mathlib.Omega.{arith}
use rkb.Prelude.Tests.{◌==◌, if◌then◌else◌, ==_iff, Bool-cases}
use rkb.Prelude.Lists.{All}

abbrev pub HashMap {ℓ} : Type ℓ → Type ℓ
HashMap V = List (ℕ × V)

module _ {ℓ} {V : Type ℓ} where
  -- `get`
  abbrev pub lookup : ℕ → HashMap V → Option V
  lookup k [] = none
  lookup k ((j, v) ∷ m) = if j == k then some v else lookup k m

  abbrev pub contains_key : ℕ → HashMap V → Bool
  contains_key k m = elim (lookup k m) [ none ↦ false | some _ ↦ true ]

  abbrev pub insert : ℕ → V → HashMap V → HashMap V
  insert k v [] = (k, v) ∷ []
  insert k v ((j, w) ∷ m) = if j == k then (k, v) ∷ m else (j, w) ∷ insert k v m

  abbrev pub remove : ℕ → HashMap V → HashMap V
  remove k [] = []
  remove k ((j, v) ∷ m) = if j == k then remove k m else (j, v) ∷ remove k m

  -- Each key stands once.
  abbrev pub IsMap : HashMap V → Type ℓ
  IsMap [] = Unit
  IsMap ((k, v) ∷ m) = (lookup k m ≡ none) × IsMap m

  pub lookup-insert :
      (k j : ℕ) (v : V) (m : HashMap V)
      → lookup j (insert k v m) ≡ (if k == j then some v else lookup j m)
  lookup-insert k j v [] = refl
  lookup-insert k j v ((i, w) ∷ m) = ground (arith, lookup-insert k j v m)

  pub lookup-remove :
      (k j : ℕ) (m : HashMap V) → lookup j (remove k m) ≡ (if k == j then none else lookup j m)
  lookup-remove k j [] = ground arith
  lookup-remove k j ((i, w) ∷ m) = ground (arith, lookup-remove k j m)

  pub insert-IsMap : (k : ℕ) (v : V) (m : HashMap V) → IsMap m → IsMap (insert k v m)
  insert-IsMap k v [] h = (refl, tt)
  insert-IsMap k v ((i, w) ∷ m) h = ground (arith, insert-IsMap k v m h.1, lookup-insert k i v m)

  pub remove-IsMap : (k : ℕ) (m : HashMap V) → IsMap m → IsMap (remove k m)
  remove-IsMap k [] h = tt
  remove-IsMap k ((i, w) ∷ m) h = ground (arith, remove-IsMap k m h.1, lookup-remove k i m)

abbrev pub HashSet : Type 0
HashSet = List ℕ

abbrev pub contains : ℕ → HashSet → Bool
contains k [] = false
contains k (j ∷ s) = j == k || contains k s

abbrev pub insert_set : ℕ → HashSet → HashSet
insert_set k s = if contains k s then s else k ∷ s

pub contains-insert_set :
    (k j : ℕ) (s : HashSet) → contains j (insert_set k s) ≡ (k == j || contains j s)
contains-insert_set k j s = elim (Bool-cases (contains k s)) [
  | inl old ↦ rw old (elim (Bool-cases (k == j)) [
    | inl same ↦ rw same (let e : k ≡ j = (==_iff k j).0 same in rw (← e) old)
    | inr other ↦ rw other
  ])
  | inr new ↦ rw new
]

-- What holds of all entries holds of the one found.
pub lookup-All :
    {V : Type 0}
    → (P : V → Type 0) (k : ℕ) (v : V) (m : HashMap V) → All (λ e. P e.1) m
    → lookup k m ≡ some v
    → P v
lookup-All P k v [] ps e = absurd (ground arith)
lookup-All P k v ((i, w) ∷ m) ps e = elim (Bool-cases (i == k)) [
  | inl same ↦ subst P (ground (arith, same)) ps.0
  | inr other ↦ lookup-All P k v m ps.1 (ground (arith, other))
]
