-- ===== src/Envelope.antt =====
-- The frames of the interop protocol (crates/daemon/src/envelope.rs).
pub mod Formats
pub mod Types
pub mod Words
pub mod Grammar
pub mod Frames
pub mod Checks
pub mod WellFormed
pub mod Stamps
mod Tests
