-- ===== src/Planner.antt =====
-- crates/srcmv-core/src/planner.rs: from an immutable snapshot and a batch to an edit plan.
pub mod Resolve
pub mod Edits
pub mod Stream
pub mod Usage
pub mod Plan
pub mod Splice
pub mod Output
pub mod Selection
pub mod Limits
pub mod Totals
