-- ===== src/Fs/Errors.antt =====
-- crates/srcmv-fs/src/lib.rs: `FsError`, as far as the journal, the classifier and the
-- transactions return it. A `&'static str` that names a reason is an enumeration of the strings.
use srcmv.Base.{Bytes, ℕ, Option}
use srcmv.Base.Results.{ResultOf}
pub use srcmv.Base.Results.{ok, err, ◌>>=◌, ◌>>◌, ok_or, >>=-eq-ok, ok_injective}

-- The reasons of `TransactionRecordCorrupt`.
pub data CorruptReason : Type 0 where
  state_version_unsupported state_zero_prior_checksum_present : CorruptReason
  state_prior_checksum_missing state_target_index_invalid : CorruptReason
  global_state_target_combination_invalid state_target_count_mismatch : CorruptReason
  state_original_existence_mismatch candidate_identity_invalid : CorruptReason
  commit_fields_invalid rollback_fields_invalid candidate_state_regressed : CorruptReason
  rollback_progress_outside_rollback commit_state_regressed : CorruptReason
  rollback_state_changed_after_restore state_sequence_overflow : CorruptReason
  state_sequence_not_contiguous invalid_global_state_transition : CorruptReason
  state_target_count_changed state_target_order_changed record_digest_invalid : CorruptReason
  state_manifest_checksum_mismatch state_prior_checksum_mismatch : CorruptReason
  state_zero_must_be_preparing record_json_encode record_oversized : CorruptReason
  record_magic_or_truncation record_version_unsupported record_length_overflow : CorruptReason
  record_length_mismatch record_checksum_invalid record_payload_invalid : CorruptReason
  record_payload_trailing_data : CorruptReason
  record_truncated record_checksum_truncated : CorruptReason

-- The reasons of `RecoveryConflict`.
pub data ConflictReason : Type 0 where
  unexpected_location_or_parent : ConflictReason
  preparing_observation_invalid prepared_observation_invalid : ConflictReason
  committing_observation_invalid committed_observation_invalid : ConflictReason
  rolling_back_observation_invalid rolling_back_record_invalid : ConflictReason
  rolled_back_record_invalid : ConflictReason
  restored_original_observation_invalid restored_absence_observation_invalid : ConflictReason
  recorded_original_missing recorded_original_mismatch : ConflictReason
  recorded_candidate_missing recorded_candidate_mismatch : ConflictReason
  backup_remains_after_original_restore absence_not_restored : ConflictReason

-- The reasons of `RecoveryActionNotAllowed`, and the invariants of `InternalInvariant`.
pub data ActionReason : Type 0 where
  transaction_cannot_be_completed transaction_cannot_be_rolled_back : ActionReason

pub data Invariant : Type 0 where
  state_target_index_exists state_sequence_checked new_target_has_recorded_mode : Invariant
  manifest_and_state_target_counts_match : Invariant

-- The resources of `ResourceLimitExceeded`.
pub data FsResource : Type 0 where
  state_records transaction_targets transaction_record_bytes : FsResource
  state_record_bytes projected_transaction_disk_bytes : FsResource

pub data FsError : Type 0 where
  transaction_record_corrupt : Option Bytes → CorruptReason → FsError
  recovery_conflict : ConflictReason → FsError
  recovery_action_not_allowed : ActionReason → FsError
  internal_invariant : Invariant → FsError
  resource_limit_exceeded : FsResource → ℕ → ℕ → FsError

abbrev pub FsResult {ℓ} : Type ℓ → Type ℓ
FsResult T = ResultOf FsError T
