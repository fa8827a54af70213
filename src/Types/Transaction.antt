-- ===== src/Types/Transaction.antt =====
-- crates/types/src/transaction.rs: a transaction is opaque bytes.
use rkb.Prelude.{ℕ, Bool, length, is_empty as list_is_empty}
use rkb.Types.Primitives.{Bytes}

pub record Transaction : Type 0 where
  pub data_bytes : Bytes

unfoldable pub new : Bytes → Transaction
new bytes = record { data_bytes = bytes }

-- `Transaction::data`, which hands the bytes out
unfoldable pub raw_bytes : Transaction → Bytes
raw_bytes tx = tx.data_bytes

unfoldable pub len : Transaction → ℕ
len tx = length tx.data_bytes

unfoldable pub is_empty : Transaction → Bool
is_empty tx = list_is_empty tx.data_bytes
