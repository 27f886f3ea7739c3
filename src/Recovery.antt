-- ===== src/Recovery.antt =====
-- crates/srcmv-fs/src/recovery_classifier.rs: what an interrupted transaction may still do.
pub mod State
pub mod Classify
pub mod Safety
pub mod Lag
