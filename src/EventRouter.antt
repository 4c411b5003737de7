-- ===== src/EventRouter.antt =====
-- The daemon's event router (crates/daemon/src/events.rs).
pub mod State
pub mod Routing
pub mod View
pub mod Refinement
mod Tests
