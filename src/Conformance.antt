-- ===== src/Conformance.antt =====
-- The pinned dsh-std coordinates, the record of their evaluations, and facets
-- (crates/adapter-dsh-std/src/conformance.rs and facets.rs).
pub mod Formats
pub mod Declaration
pub mod Facets
pub mod Evaluation
pub mod Intersection
mod Tests
