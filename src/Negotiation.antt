-- ===== src/Negotiation.antt =====
-- The dsh-std negotiation (crates/adapter-dsh-std/src/negotiate.rs).
pub mod Messages
pub mod Session
pub mod Invariant
mod Tests
