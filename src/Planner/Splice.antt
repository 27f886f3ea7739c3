-- ===== src/Planner/Splice.antt =====
-- crates/srcmv-core/src/planner.rs: the segments of an output against a byte-by-byte reference.
pub mod Spec
pub mod Segments
pub mod Points
pub mod Coverage
pub mod Correct
