-- ===== src/Tests.antt =====
-- The theorems of this library at concrete values.
mod Fixtures
mod Execution
mod Consensus
mod Relay
mod Celestia
mod Sequencer
mod Startup
mod Agreement
mod Jwt
mod Run
mod EndToEnd
mod System
