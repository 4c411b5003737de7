-- ===== src/Terminal.antt =====
-- The terminals: the PTY registry (crates/terminal-provider/src/lib.rs) and the daemon's host of it
-- (crates/daemon/src/terminal.rs).
pub mod Registry
pub mod Requests
pub mod Host
pub mod Handlers
pub mod Gate
pub mod Live
pub mod History
mod Tests
