-- ===== src/Types/Primitives.antt =====
-- The alloy primitives that the source stores and compares, and never looks into: a B256 or an
-- Address is the number that its bytes spell, `Bytes` is a list of bytes.
use rkb.Prelude.{ℕ, ◌+◌, ◌%◌, ◌^◌, List}

abbrev pub B256 : Type 0
B256 = ℕ

abbrev pub Address : Type 0
Address = ℕ

abbrev pub Bytes : Type 0
Bytes = List ℕ

-- `a + b` on u64 and on usize, which wraps in a release build.
abbrev pub wrapping_add : ℕ → ℕ → ℕ
wrapping_add a b = (a + b) % 2 ^ 64
