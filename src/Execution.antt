-- ===== src/Execution.antt =====
-- crates/execution: forkchoice states, payloads, and the client of reth's Engine API.
pub mod Forkchoice
pub mod Payload
pub mod Error
pub mod Engine
pub mod Client
pub mod Jwt
