-- ===== src/Examples.antt =====
-- Runs of the models on small inputs, and the theorems at concrete inputs.
mod Planning
mod Lines
mod Edits
mod Recovery
mod Journal
mod Disk
mod Transaction
mod Rollback
