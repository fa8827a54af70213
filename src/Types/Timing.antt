-- ===== src/Types/Timing.antt =====
-- crates/types/src/config.rs: the block timing mode.
pub data BlockTiming : Type 0 where
  vanilla subsecond : BlockTiming
