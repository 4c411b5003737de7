-- ===== src/Browser.antt =====
-- The shared browser surface (crates/browser-provider/src).
pub mod UrlPolicy
pub mod Session
pub mod Listing
pub mod Lifecycle
mod Tests
