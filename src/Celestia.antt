-- ===== src/Celestia.antt =====
-- crates/celestia: data availability. The parts are re-exported nowhere: they are named by module.
pub mod Error
pub mod Finality
pub mod Retry
pub mod Index
pub mod Client
