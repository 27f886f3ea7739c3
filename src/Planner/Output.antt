-- ===== src/Planner/Output.antt =====
-- crates/srcmv-core/src/planner.rs: what a planned output says of the bytes that it stands for.
pub mod Streaming
pub mod References
pub mod Planned
pub mod Indexed
pub mod Fitting
pub mod Recorded
pub mod Asked
pub mod Known
pub mod Batch
pub mod Resolved
pub mod Complete
pub mod Whole
