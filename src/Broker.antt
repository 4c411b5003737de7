-- ===== src/Broker.antt =====
-- The capability broker (crates/supervisor/src/broker.rs and broker/agent.rs).
pub mod Types
pub mod Scope
pub mod State
pub mod AgentTypes
pub mod Agent
pub mod Takeover
pub mod Gate
pub mod Errors
pub mod Invariance
pub mod Ops
pub mod Durability
pub mod Authority
pub mod Issued
pub mod Negotiated
pub mod Replay
mod Tests
