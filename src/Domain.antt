-- ===== src/Domain.antt =====
-- crates/srcmv-core/src/lib.rs: the vocabulary shared by planning and execution.
pub mod Errors
pub mod Types
