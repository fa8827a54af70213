-- ===== src/Prelude/Results.antt =====
-- `Result` of the source, and calls that also change an outside world. What a call wrote before
-- it failed stays written, so the world comes back beside the error too.
use mathlib.Core.Path.{◌≡◌, refl}
use mathlib.Core.Logic.{◌⊎◌, inl, inr}

pub data Result {ℓ κ} (E : Type κ) (A : Type ℓ) : Type (ℓ ⊔ κ) where
  ok : A → Result E A
  err : E → Result E A

module _ {ℓ κ μ} {E : Type κ} {F : Type μ} {A : Type ℓ} where
  abbrev pub map_err : (E → F) → Result E A → Result F A
  map_err f (ok a) = ok a
  map_err f (err e) = err (f e)

module _ {ℓ κ} {E : Type κ} {A : Type ℓ} where
  pub Result-cases : (r : Result E A) → ((a : A) × (r ≡ ok a)) ⊎ ((e : E) × (r ≡ err e))
  Result-cases (ok a) = inl (a, refl)
  Result-cases (err e) = inr (e, refl)

-- `async fn` with `Result<A>`: the world goes in and comes out.
abbrev pub Action {ℓ} : Type ℓ → Type ℓ → Type ℓ → Type ℓ
Action W E A = W → Result E A × W

module _ {ℓ} {W E A : Type ℓ} where
  abbrev pub pure : A → Action W E A
  pure a w = (ok a, w)

  abbrev pub raise : E → Action W E A
  raise e w = (err e, w)

  abbrev pub lift : Result E A → Action W E A
  lift r w = (r, w)

-- `.map_err(f)?` on a call
abbrev pub catch_err {ℓ} : {W E F A : Type ℓ} → (E → F) → Action W E A → Action W F A
catch_err f m w = let (r, w') = m w in (map_err f r, w')

infixl 5 ◌>>=◌ ◌>>◌
-- `?`
abbrev pub ◌>>=◌ {ℓ} : {W E A B : Type ℓ} → Action W E A → (A → Action W E B) → Action W E B
◌>>=◌ m f w = let (r, w') = m w in elim r [ ok a ↦ f a w' | err e ↦ (err e, w') ]

abbrev pub ◌>>◌ {ℓ} : {W E A B : Type ℓ} → Action W E A → Action W E B → Action W E B
m >> n = m >>= λ _. n

module _ {ℓ κ} {W E A B : Type ℓ} (P : Result E B × W → Type κ) where
  -- What holds of a bind: of the rest after a success, and of the error handed on.
  pub bind-cases :
      (m : Action W E A) (f : A → Action W E B) (w : W)
      → ((a : A) → (m w).0 ≡ ok a → P (f a (m w).1))
      → ((e : E) → (m w).0 ≡ err e → P (err e, (m w).1))
      → P ((m >>= f) w)
  bind-cases m f w good bad = go (m w).0 refl
    where
      go :
          (r : Result E A)
          → (m w).0 ≡ r
          → P (elim r [ ok a ↦ f a (m w).1 | err e ↦ (err e, (m w).1) ])
      go (ok a) h = good a h
      go (err e) h = bad e h
