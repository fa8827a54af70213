-- ===== src/Celestia/Client/Backoff.antt =====
-- crates/celestia/src/client.rs, `calculate_backoff`: the delay doubles with every failure up to a
-- cap. The arithmetic of u64 saturates.
use native.Mathlib.Nat.{mul-le-mul_right}
use rkb.Prelude.{ℕ, zero, suc, ◌-◌, ◌*◌, ◌^◌, ◌≤◌, ◌≡◌, min, arith, Bool-cases, leb, inl, inr}

abbrev pub u64_max : ℕ
u64_max = 0xffffffffffffffff

abbrev pub saturating_mul : ℕ → ℕ → ℕ
saturating_mul a b = min (a * b) u64_max

abbrev pub saturating_pow : ℕ → ℕ → ℕ
saturating_pow a k = min (a ^ k) u64_max

unfoldable pub calculate_backoff : ℕ → ℕ → ℕ → ℕ
calculate_backoff failures base_delay_ms max_delay_ms =
    let backoff = saturating_mul base_delay_ms (saturating_pow 2 (failures - 1)) in
    min backoff max_delay_ms

saturated : (b p m : ℕ) → m ≤ u64_max → min (min (b * min p u64_max) u64_max) m ≡ min (b * p) m
saturated zero p m le = omega arith
saturated (suc b) p m le = elim (Bool-cases (leb p u64_max)) [
  | inl small ↦ let e : min p u64_max ≡ p = ground arith in rw e (omega arith)
  | inr large ↦
      let e : min p u64_max ≡ u64_max = ground arith in
      let one : 1 ≤ suc b = omega arith in
      let grows : 1 * p ≤ suc b * p = mul-le-mul_right p one in rw e (ground (arith, grows))
]

-- The saturation is never seen: the delay is the base delay, doubled with every failure after the
-- first, up to the cap, for a cap that fits in 64 bits.
pub calculate_backoff-exact :
    (failures base_delay_ms max_delay_ms : ℕ)
    → max_delay_ms ≤ u64_max
    → calculate_backoff failures base_delay_ms max_delay_ms
      ≡ min (base_delay_ms * 2 ^ (failures - 1)) max_delay_ms
unfolding calculate_backoff
calculate_backoff-exact failures base_delay_ms max_delay_ms le =
    saturated base_delay_ms (2 ^ (failures - 1)) max_delay_ms le
