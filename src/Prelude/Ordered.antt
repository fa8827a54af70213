-- ===== src/Prelude/Ordered.antt =====
-- A BTreeMap with numbers for keys: an association list with its keys in ascending order.
use Prim.Native.Nat.{ℕ, ◌<◌, ◌≤◌}
use mathlib.Core.Path.{◌≡◌, refl}
use mathlib.Core.List.{List, [], ◌∷◌}
use mathlib.Core.Option.{Option, none, some}
use native.Mathlib.Omega.{arith}
use rkb.Prelude.Tests.{◌==◌, ltb, if◌then◌else◌}
use rkb.Prelude.Maps.{lookup}

abbrev pub BTreeMap {ℓ} : Type ℓ → Type ℓ
BTreeMap V = List (ℕ × V)

module _ {ℓ} {V : Type ℓ} where
  abbrev pub insert : ℕ → V → BTreeMap V → BTreeMap V
  insert k v [] = (k, v) ∷ []
  insert k v ((j, w) ∷ m) =
      if k == j then (k, v) ∷ m else if ltb k j then (k, v) ∷ (j, w) ∷ m else (j, w) ∷ insert k v m

  -- `keys().next_back()`
  abbrev pub last_key : BTreeMap V → Option ℕ
  last_key [] = none
  last_key ((k, v) ∷ []) = some k
  last_key ((k, v) ∷ (j, w) ∷ m) = last_key ((j, w) ∷ m)

  -- Every key lies above `k`.
  abbrev pub Above : ℕ → BTreeMap V → Type 0
  Above k [] = Unit
  Above k ((j, v) ∷ m) = (k < j) × Above k m

  abbrev pub IsOrdered : BTreeMap V → Type 0
  IsOrdered [] = Unit
  IsOrdered ((k, v) ∷ m) = Above k m × IsOrdered m

  pub lookup-insert :
      (k j : ℕ) (v : V) (m : BTreeMap V)
      → lookup j (insert k v m) ≡ (if k == j then some v else lookup j m)
  lookup-insert k j v [] = refl
  lookup-insert k j v ((i, w) ∷ m) = ground (arith, lookup-insert k j v m)

  Above-insert : (i k : ℕ) (v : V) (m : BTreeMap V) → i < k → Above i m → Above i (insert k v m)
  Above-insert i k v [] lt h = (lt, tt)
  Above-insert i k v ((j, w) ∷ m) lt h = ground (arith, Above-insert i k v m lt h.1)

  Above-trans : (i k : ℕ) (m : BTreeMap V) → i < k → Above k m → Above i m
  Above-trans i k [] lt h = tt
  Above-trans i k ((j, w) ∷ m) lt h = (omega arith, Above-trans i k m lt h.1)

  pub insert-IsOrdered : (k : ℕ) (v : V) (m : BTreeMap V) → IsOrdered m → IsOrdered (insert k v m)
  insert-IsOrdered k v [] h = (tt, tt)
  insert-IsOrdered k v ((j, w) ∷ m) h =
      ground (arith, insert-IsOrdered k v m h.1, Above-insert j k v m, Above-trans k j m)

  pub lookup-Above : (k n : ℕ) (m : BTreeMap V) → Above k m → n ≤ k → lookup n m ≡ none
  lookup-Above k n [] h le = refl
  lookup-Above k n ((j, v) ∷ m) h le = ground (arith, lookup-Above k n m h.1 le)
