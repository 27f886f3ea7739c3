-- ===== src/PlanHash.antt =====
-- crates/srcmv-core/src/plan_hash.rs: the deterministic record behind a plan digest.
pub mod Cbor
pub mod Record
pub mod Decode
