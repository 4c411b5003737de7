-- ===== src/Runtime.antt =====
-- The supervisor of managed runtimes (crates/managed-runtime/src/supervisor.rs).
pub mod Types
pub mod State
pub mod Sections
pub mod Stop
pub mod Invariant
pub mod Steps
pub mod Candidate
pub mod Binding
pub mod Start
pub mod Outcome
pub mod Deadline
pub mod Calls
pub mod Recovery
pub mod Surface
pub mod Recipe
mod Tests
