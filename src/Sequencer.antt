-- ===== src/Sequencer.antt =====
-- crates/sequencer/src: the configuration (config.rs), and the node that ties consensus, reth and
-- Celestia (simplex_sequencer.rs).
pub mod Config
pub mod Startup
pub mod Batch
pub mod Finalization
pub mod Sync
pub mod Run
pub mod Cli
