-- ===== src/Consensus/Application.antt =====
-- crates/consensus/src/application.rs: the application actor, its messages and its loop.
pub mod Actor
pub mod Proposal
pub mod Finalization
pub mod Lookup
pub mod Frames
pub mod Invariant
pub mod Outcomes
pub mod Proposals
pub mod Chain
