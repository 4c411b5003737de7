-- ===== src/Scheduler.antt =====
-- The wake scheduler of the daemon (crates/daemon/src/scheduler.rs).
pub mod Entries
pub mod Firing
pub mod Civil
pub mod Calendar
pub mod Timestamp
pub mod RoundTrip
mod Tests
