-- ===== src/Transaction.antt =====
-- crates/srcmv-fs/src/transaction.rs: the steps of a commit and of a rollback on the targets.
pub mod Manifest
pub mod Filesystem
pub mod Run
pub mod Observe
pub mod Steps
pub mod Hoare
pub mod Facts
pub mod Stages
pub mod Assertions
pub mod Moves
pub mod Commit
pub mod Branches
pub mod Install
pub mod BackUp
pub mod Classified
pub mod CommitSteps
pub mod Frame
pub mod Complete
pub mod Targets
pub mod Whole
pub mod Partial
pub mod RollbackSteps
pub mod RollbackStages
pub mod RollbackMoves
pub mod Rollback
pub mod Reverted
