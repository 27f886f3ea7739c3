-- ===== src/Fs.antt =====
-- crates/srcmv-fs/src: what its components share.
pub mod Errors
