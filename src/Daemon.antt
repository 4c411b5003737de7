-- ===== src/Daemon.antt =====
-- The daemon: its envelope server, its capability surface and its browser host
-- (crates/daemon/src/server.rs, capabilities.rs, browser.rs).
pub mod Types
pub mod BrowserHost
pub mod Catalog
pub mod Authority
pub mod Terms
pub mod Replies
pub mod Hello
pub mod Invocation
pub mod Server
pub mod Admission
pub mod Handling
pub mod Connection
pub mod Classes
pub mod History
pub mod Safety
pub mod Entries
pub mod Ownership
pub mod Replay
pub mod Answers
pub mod Promise
pub mod Teardown
pub mod Events
mod Samples
mod Tests
