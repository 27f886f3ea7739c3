-- ===== src/Recovery/State.antt =====
-- crates/srcmv-fs/src/journal.rs and recovery_classifier.rs: the recorded state of a target and
-- what is observed of it.
use srcmv.Base.{ℕ, Bool, Option}

pub record PersistedIdentity : Type 0 where
  pub device : ℕ
  pub inode : ℕ

pub data CandidateKind : Type 0 where
  missing ready : CandidateKind

pub record CandidateState : Type 0 where
  pub kind : CandidateKind
  pub identity : Option PersistedIdentity

pub data CommitKind : Type 0 where
  untouched backed_up installed : CommitKind

pub record CommitState : Type 0 where
  pub kind : CommitKind
  pub identity : Option PersistedIdentity
  pub preserved_mode : Option ℕ

-- `None` of the source is `not_restored`.
pub data RollbackKind : Type 0 where
  not_restored original_restored absence_restored : RollbackKind

pub record RollbackState : Type 0 where
  pub kind : RollbackKind
  pub identity : Option PersistedIdentity

pub record TargetState : Type 0 where
  pub target_index : ℕ
  pub candidate : CandidateState
  pub commit : CommitState
  pub rollback : RollbackState

pub data GlobalState : Type 0 where
  preparing prepared committing committed rolling_back rolled_back : GlobalState

pub data LocationObservation : Type 0 where
  original candidate absent unexpected : LocationObservation

pub record SyntheticTargetObservation : Type 0 where
  pub parent_matches : Bool
  pub target : LocationObservation
  pub candidate : LocationObservation
  pub backup : LocationObservation

pub record RecoveryDisposition : Type 0 where
  pub complete : Bool
  pub rollback : Bool
  pub cleanup_only : Bool
