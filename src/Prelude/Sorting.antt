-- ===== src/Prelude/Sorting.antt =====
-- `sort_by_key` of Rust's slices, a stable sort, as an insertion sort, and the filter that it
-- commutes with.
use Prim.Native.Nat.{ℕ, ◌≤◌}
use mathlib.Core.Path.{◌≡◌, refl}
use mathlib.Core.Bool.{Bool, true, false}
use mathlib.Core.Logic.{inl, inr}
use mathlib.Core.List.{List, [], ◌∷◌, Perm}
use mathlib.Core.List.Perm
use native.Mathlib.Omega.{arith}
use rkb.Prelude.Tests.{leb, if◌then◌else◌, Bool-cases, leb→le}
use rkb.Prelude.Lists.{All, length}

module _ {ℓ} {A : Type ℓ} where
  abbrev pub filter : (A → Bool) → List A → List A
  filter p [] = []
  filter p (x ∷ xs) = if p x then x ∷ filter p xs else filter p xs

  -- before the first element with a larger key or the same
  abbrev pub insert_sorted : (A → ℕ) → A → List A → List A
  insert_sorted key x [] = x ∷ []
  insert_sorted key x (y ∷ ys) =
      if leb (key x) (key y) then x ∷ y ∷ ys else y ∷ insert_sorted key x ys

  abbrev pub sort_by_key : (A → ℕ) → List A → List A
  sort_by_key key [] = []
  sort_by_key key (x ∷ xs) = insert_sorted key x (sort_by_key key xs)

  abbrev pub IsSorted : (A → ℕ) → List A → Type 0
  IsSorted key [] = Unit
  IsSorted key (x ∷ xs) = All (λ y. key x ≤ key y) xs × IsSorted key xs

  module _ (key : A → ℕ) where
    All-insert_sorted {κ} :
        (P : A → Type κ) (x : A) (xs : List A) → P x → All P xs → All P (insert_sorted key x xs)
    All-insert_sorted P x [] h hs = (h, tt)
    All-insert_sorted P x (y ∷ ys) h hs = elim (Bool-cases (leb (key x) (key y))) [
      | inl le ↦ rw le (h, hs)
      | inr gt ↦ rw gt (hs.0, All-insert_sorted P x ys h hs.1)
    ]

    pub All-sort_by_key {κ} : (P : A → Type κ) (xs : List A) → All P xs → All P (sort_by_key key xs)
    All-sort_by_key P [] hs = tt
    All-sort_by_key P (x ∷ xs) hs = All-insert_sorted P x _ hs.0 (All-sort_by_key P xs hs.1)

    above_trans :
        (a b : ℕ) (xs : List A) → a ≤ b → All (λ y. b ≤ key y) xs → All (λ y. a ≤ key y) xs
    above_trans a b [] le hs = tt
    above_trans a b (x ∷ xs) le hs = (omega (arith, le, hs.0), above_trans a b xs le hs.1)

    insert_sorted-IsSorted :
        (x : A) (xs : List A) → IsSorted key xs → IsSorted key (insert_sorted key x xs)
    insert_sorted-IsSorted x [] h = (tt, tt)
    insert_sorted-IsSorted x (y ∷ ys) h = elim (Bool-cases (leb (key x) (key y))) [
      | inl le ↦
          rw le ((leb→le (key x) (key y) le, above_trans (key x) (key y) ys (leb→le _ _ le) h.0), h)
      | inr gt ↦ rw gt (
        All-insert_sorted (λ z. key y ≤ key z) x ys (ground arith) h.0,
        insert_sorted-IsSorted x ys h.1,
      )
    ]

    pub sort_by_key-IsSorted : (xs : List A) → IsSorted key (sort_by_key key xs)
    sort_by_key-IsSorted [] = tt
    sort_by_key-IsSorted (x ∷ xs) = insert_sorted-IsSorted x _ (sort_by_key-IsSorted xs)

    insert_sorted-Perm : (x : A) (xs : List A) → Perm (insert_sorted key x xs) (x ∷ xs)
    insert_sorted-Perm x [] = Perm.rfl
    insert_sorted-Perm x (y ∷ ys) = elim (Bool-cases (leb (key x) (key y))) [
      | inl le ↦ rw le Perm.rfl
      | inr gt ↦ rw gt (Perm.trans (Perm.cons y (insert_sorted-Perm x ys)) (Perm.swap x y ys))
    ]

    pub sort_by_key-Perm : (xs : List A) → Perm (sort_by_key key xs) xs
    sort_by_key-Perm [] = Perm.rfl
    sort_by_key-Perm (x ∷ xs) =
        Perm.trans (insert_sorted-Perm x (sort_by_key key xs)) (Perm.cons x (sort_by_key-Perm xs))

    filter-insert_sorted_out :
        (p : A → Bool) (x : A) (xs : List A)
        → p x ≡ false
        → filter p (insert_sorted key x xs) ≡ filter p xs
    filter-insert_sorted_out p x [] h = rw h refl
    filter-insert_sorted_out p x (y ∷ ys) h = ground (arith, filter-insert_sorted_out p x ys h)

    filter-insert_sorted_in :
        (p : A → Bool) (x : A) (xs : List A)
        → p x ≡ true
        → filter p xs ≡ []
        → filter p (insert_sorted key x xs) ≡ x ∷ []
    filter-insert_sorted_in p x [] h e = rw h refl
    filter-insert_sorted_in p x (y ∷ ys) h e = ground (arith, filter-insert_sorted_in p x ys h)

    filter-sort_none :
        (p : A → Bool) (xs : List A) → filter p xs ≡ [] → filter p (sort_by_key key xs) ≡ []
    filter-sort_none p [] e = refl
    filter-sort_none p (x ∷ xs) e =
        ground (arith, filter-sort_none p xs, filter-insert_sorted_out p x (sort_by_key key xs))

    filter-sort_one :
        (p : A → Bool) (a : A) (xs : List A)
        → filter p xs ≡ a ∷ []
        → filter p (sort_by_key key xs) ≡ a ∷ []
    filter-sort_one p a [] e = ground arith
    filter-sort_one p a (x ∷ xs) e = ground (
      arith,
      filter-sort_none p xs,
      filter-sort_one p a xs,
      filter-insert_sorted_out p x (sort_by_key key xs),
      filter-insert_sorted_in p x (sort_by_key key xs),
    )

    -- Where one element at most passes, sorting changes nothing.
    pub filter-sort_few :
        (p : A → Bool) (ys xs : List A)
        → length ys ≤ 1
        → filter p xs ≡ ys
        → filter p (sort_by_key key xs) ≡ ys
    filter-sort_few p [] xs few e = filter-sort_none p xs e
    filter-sort_few p (a ∷ []) xs few e = filter-sort_one p a xs e
    filter-sort_few p (a ∷ b ∷ ys) xs few e = absurd (omega arith)
