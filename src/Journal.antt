-- ===== src/Journal.antt =====
-- crates/srcmv-fs/src/journal.rs: the recorded states of a transaction.
pub mod State
pub mod Shape
pub mod Transition
pub mod History
pub mod Outcome
pub mod Hex
pub mod Envelope
pub mod RoundTrip
pub mod Publish
pub mod Chain
