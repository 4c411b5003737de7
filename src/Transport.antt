-- ===== src/Transport.antt =====
-- The local transport (crates/local-transport/src).
pub mod Framing
pub mod Worker
pub mod Server
pub mod RoundTrip
pub mod Pauses
pub mod Delivery
pub mod OneTime
mod Tests
