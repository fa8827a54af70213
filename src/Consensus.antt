-- ===== src/Consensus.antt =====
-- crates/consensus: leader rotation, and the application actor between the Simplex engine and reth.
pub mod Error
pub mod Leader
pub mod Mailbox
pub mod Runtime
pub mod Relay
pub mod Application
pub mod Agreement
pub mod System
pub mod Network
