-- ===== src/Prelude/Bits.antt =====
-- Bits of small numbers: a claim about all numbers below a bound is checked by evaluating it.
use Prim.Native.Nat.{ℕ, zero, suc, ◌*◌, ◌/◌, ◌%◌, ◌<◌, bit_and, bit_or}
use mathlib.Core.Path.{◌≡◌, refl}
use mathlib.Core.Bool.{Bool, true, ◌&&◌}
use native.Mathlib.Omega.{arith}
use rkb.Prelude.Tests.{◌==◌, ==_iff}

unfoldable pub all_below : ℕ → (ℕ → Bool) → Bool
all_below zero p = true
all_below (suc n) p = p n && all_below n p

pub of_all_below : (n : ℕ) (p : ℕ → Bool) (x : ℕ) → all_below n p ≡ true → x < n → p x ≡ true
unfolding all_below
of_all_below zero p x h lt = absurd (omega arith)
of_all_below (suc n) p x h lt = ground (arith, of_all_below n p x)

three_table : all_below 256 (λ b. bit_and b 3 == b % 4) ≡ true
unfolding all_below
three_table = refl

fifteen_table : all_below 256 (λ b. bit_and b 0x0f == b % 16) ≡ true
unfolding all_below
fifteen_table = refl

sixty_three_table : all_below 256 (λ b. bit_and b 0x3f == b % 64) ≡ true
unfolding all_below
sixty_three_table = refl

-- Two numbers without a common bit.
four_bits_table : all_below 64 (λ n. bit_or (n / 16 * 16) (n % 16) == n) ≡ true
unfolding all_below
four_bits_table = refl

two_bits_table : all_below 64 (λ n. bit_or (n / 4 * 4) (n % 4) == n) ≡ true
unfolding all_below
two_bits_table = refl

pub bit_and-three : (b : ℕ) → b < 256 → bit_and b 3 ≡ b % 4
bit_and-three b h = (==_iff _ _).0 (of_all_below 256 _ b three_table h)

pub bit_and-fifteen : (b : ℕ) → b < 256 → bit_and b 0x0f ≡ b % 16
bit_and-fifteen b h = (==_iff _ _).0 (of_all_below 256 _ b fifteen_table h)

pub bit_and-sixty_three : (b : ℕ) → b < 256 → bit_and b 0x3f ≡ b % 64
bit_and-sixty_three b h = (==_iff _ _).0 (of_all_below 256 _ b sixty_three_table h)

pub bit_or-four_bits : (n : ℕ) → n < 64 → bit_or (n / 16 * 16) (n % 16) ≡ n
bit_or-four_bits n h = (==_iff _ _).0 (of_all_below 64 _ n four_bits_table h)

pub bit_or-two_bits : (n : ℕ) → n < 64 → bit_or (n / 4 * 4) (n % 4) ≡ n
bit_or-two_bits n h = (==_iff _ _).0 (of_all_below 64 _ n two_bits_table h)
