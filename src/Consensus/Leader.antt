-- ===== src/Consensus/Leader.antt =====
-- crates/consensus/src/leader.rs: round-robin leaders. `none` is the panic of a remainder by zero.
use native.Mathlib.Nat.{mod-add-mod, mod-eq_of_lt, mod-eq-sub-mod}
use native.Mathlib.Decide.{dec_lt}
use rkb.Prelude.{
  ℕ, zero, suc, ◌+◌, ◌-◌, ◌%◌, ◌<◌, ◌≤◌, ◌∙◌, sym, ◌↔◌, ◌⊎◌, inl, inr, ◌≡◌, ◌==◌, Bool, true,
  Option, none, some, arith,
}

-- `as usize` keeps a u64 on the 64-bit targets.
unfoldable pub leader_index : ℕ → ℕ → Option ℕ
leader_index height zero = none
leader_index height (suc n) = some (height % suc n)

unfoldable pub is_leader : ℕ → ℕ → ℕ → Option Bool
unfolding leader_index
is_leader our_index height validator_count = elim (leader_index height validator_count) [
  | none ↦ none
  | some i ↦ some (i == our_index)
]

-- At each height exactly one validator is the leader.
pub is_leader_unique :
    (height n : ℕ)
    → 0 < n
    → (i : ℕ) × (i < n)
      × (is_leader i height n ≡ some true)
      × ((j : ℕ) → is_leader j height n ≡ some true → j ≡ i)
unfolding is_leader
is_leader_unique height zero pos = absurd (omega arith)
is_leader_unique height (suc n) pos =
    (height % suc n, omega arith, ground arith, λ j h. ground arith)

-- A sum of two remainders wraps at most once.
mod_small : (x m : ℕ) → x < m → x % m ≡ x
mod_small x m h = mod-eq_of_lt h

mod_once : (x m : ℕ) → m ≤ x → x < m + m → x % m ≡ x - m
mod_once x m h k = mod-eq-sub-mod h ∙ mod-eq_of_lt (omega arith)

mod_cases : (x m : ℕ) → x < m + m → (x < m) × (x % m ≡ x) ⊎ (m ≤ x) × (x % m ≡ x - m)
mod_cases x m k = elim (dec_lt x m) [
  | yes h ↦ inl (h, mod_small x m h)
  | no h ↦ inr (omega arith, mod_once x m (omega arith) k)
]

shift_hits : (r i m : ℕ) → r < m → i < m → (r + (i + m - r) % m) % m ≡ i
shift_hits r i m hr hi =
    grind (arith, mod_cases (i + m - r) m (omega arith), mod_cases (r + (i + m - r) % m) m)

shift_unique : (r i m e : ℕ) → r < m → e < m → (r + e) % m ≡ i → e ≡ (i + m - r) % m
shift_unique r i m e hr he h =
    grind (arith, mod_cases (r + e) m (omega arith), mod_cases ((r + e) % m + m - r) m)

is_leader_iff : (i height n : ℕ) → (is_leader i height (suc n) ≡ some true) ↔ (height % suc n ≡ i)
unfolding is_leader
is_leader_iff i height n = (λ h. ground arith, λ h. ground arith)

-- In any run of as many heights as there are validators, each validator leads exactly once.
pub is_leader_rotates :
    (i n start : ℕ)
    → i < n
    → (d : ℕ) × (d < n)
      × (is_leader i (start + d) n ≡ some true)
      × ((e : ℕ) → e < n → is_leader i (start + e) n ≡ some true → e ≡ d)
is_leader_rotates i zero start lt = absurd (omega arith)
is_leader_rotates i (suc n) start lt =
    let m : ℕ = suc n in
    let r : ℕ = start % m in
    let d : ℕ = (i + m - r) % m in
    (
      d,
      omega arith,
      (is_leader_iff i (start + d) n).1
          (sym (mod-add-mod start m d) ∙ shift_hits r i m (omega arith) lt),
      λ e le h.
          shift_unique r i m e (omega arith) le
            (mod-add-mod start m e ∙ (is_leader_iff i (start + e) n).0 h),
    )
