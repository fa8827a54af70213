-- ===== src/Types.antt =====
-- crates/types: blocks, transactions and the block timing mode.
pub mod Primitives
pub mod Transaction
pub mod Block
pub mod Timing
pub mod Config
pub mod Defaults
pub mod Signature
pub mod Hex
