-- ===== src/Lines.antt =====
-- crates/srcmv-core/src/line_metrics.rs: logical lines of byte strings.
pub mod Scan
pub mod Index
pub mod Metrics
pub mod Split
pub mod Boundaries
pub mod Numbers
pub mod Counts
pub mod Append
pub mod Ranges
