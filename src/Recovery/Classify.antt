-- ===== src/Recovery/Classify.antt =====
-- crates/srcmv-fs/src/recovery_classifier.rs: `classify_recovery` and the classifiers of the
-- global states.
use srcmv.Base.{if◌then◌else◌, Bool, true, false, not, ◌&&◌, ◌||◌}
use srcmv.Recovery.State.{
  CommitKind, untouched, backed_up, installed, RollbackKind, not_restored, original_restored,
  absence_restored, TargetState, GlobalState, preparing, prepared, committing, committed,
  rolling_back, rolled_back, LocationObservation, original, candidate, absent, unexpected,
  SyntheticTargetObservation, RecoveryDisposition,
}
use srcmv.Fs.Errors.{
  unexpected_location_or_parent, preparing_observation_invalid, prepared_observation_invalid,
  committing_observation_invalid, committed_observation_invalid, rolling_back_observation_invalid,
  rolling_back_record_invalid, rolled_back_record_invalid, restored_original_observation_invalid,
  restored_absence_observation_invalid, recovery_conflict, FsResult, ok, err,
}

-- The constructors `completion_and_rollback`, `rollback_only` and `cleanup_only`.
abbrev pub completion_and_rollback : RecoveryDisposition
completion_and_rollback = record { complete = true; rollback = true; cleanup_only = false }

abbrev pub rollback_only : RecoveryDisposition
rollback_only = record { complete = false; rollback = true; cleanup_only = false }

abbrev pub cleanup_only : RecoveryDisposition
cleanup_only = record { complete = false; rollback = false; cleanup_only = true }

-- Derived `PartialEq` of locations.
abbrev pub location_eq : LocationObservation → LocationObservation → Bool
location_eq original original = true
location_eq candidate candidate = true
location_eq absent absent = true
location_eq unexpected unexpected = true
location_eq _ _ = false

-- `initial_target`, and the expected backup of a committed target.
abbrev pub original_or_absent : Bool → LocationObservation
original_or_absent original_existed = if original_existed then original else absent

-- The three comparisons of an observation with one state.
abbrev pub is_at :
    LocationObservation
    → LocationObservation
    → LocationObservation
    → SyntheticTargetObservation
    → Bool
is_at target staged backup observed =
    location_eq observed.target target
    && location_eq observed.candidate staged
    && location_eq observed.backup backup

unfoldable pub classify_preparing : Bool → SyntheticTargetObservation → FsResult RecoveryDisposition
classify_preparing original_existed observed =
    if location_eq observed.target (original_or_absent original_existed)
      && (location_eq observed.candidate absent || location_eq observed.candidate candidate)
      && location_eq observed.backup absent
    then ok rollback_only
    else err (recovery_conflict preparing_observation_invalid)

unfoldable pub classify_prepared : Bool → SyntheticTargetObservation → FsResult RecoveryDisposition
classify_prepared original_existed observed =
    if is_at (original_or_absent original_existed) candidate absent observed
    then ok completion_and_rollback
    else err (recovery_conflict prepared_observation_invalid)

-- The `match` of `classify_committing`.
unfoldable pub is_committing : Bool → CommitKind → SyntheticTargetObservation → Bool
is_committing true untouched observed =
    is_at original candidate absent observed
    || is_at absent candidate original observed
    || is_at candidate absent original observed
is_committing false untouched observed =
    is_at absent candidate absent observed || is_at candidate absent absent observed
is_committing true backed_up observed =
    is_at absent candidate original observed || is_at candidate absent original observed
is_committing false backed_up observed = false
is_committing true installed observed = is_at candidate absent original observed
is_committing false installed observed = is_at candidate absent absent observed

unfoldable pub classify_committing :
    Bool → TargetState → SyntheticTargetObservation → FsResult RecoveryDisposition
classify_committing original_existed recorded observed =
    if is_committing original_existed recorded.commit.kind observed
    then ok completion_and_rollback
    else err (recovery_conflict committing_observation_invalid)

unfoldable pub classify_committed : Bool → SyntheticTargetObservation → FsResult RecoveryDisposition
classify_committed original_existed observed =
    if is_at candidate absent (original_or_absent original_existed) observed
    then ok cleanup_only
    else err (recovery_conflict committed_observation_invalid)

unfoldable pub classify_restored_original :
    SyntheticTargetObservation → RecoveryDisposition → FsResult RecoveryDisposition
classify_restored_original observed disposition =
    if is_at original absent absent observed
    then ok disposition
    else err (recovery_conflict restored_original_observation_invalid)

unfoldable pub classify_restored_absence :
    SyntheticTargetObservation → RecoveryDisposition → FsResult RecoveryDisposition
classify_restored_absence observed disposition =
    if is_at absent absent absent observed
    then ok disposition
    else err (recovery_conflict restored_absence_observation_invalid)

-- The `matches!` of `classify_rolling_back`.
unfoldable pub is_rolling_back : Bool → SyntheticTargetObservation → Bool
is_rolling_back true observed =
    is_at original absent absent observed
    || is_at original candidate absent observed
    || is_at absent absent original observed
    || is_at absent candidate original observed
    || is_at candidate absent original observed
is_rolling_back false observed =
    is_at absent absent absent observed
    || is_at absent candidate absent observed
    || is_at candidate absent absent observed

-- The `match` of `classify_rolling_back`.
unfoldable pub rolling_back_as :
    RollbackKind → Bool → SyntheticTargetObservation → FsResult RecoveryDisposition
rolling_back_as original_restored true observed = classify_restored_original observed rollback_only
rolling_back_as absence_restored false observed = classify_restored_absence observed rollback_only
rolling_back_as not_restored original_existed observed =
    if is_rolling_back original_existed observed
    then ok rollback_only
    else err (recovery_conflict rolling_back_observation_invalid)
rolling_back_as original_restored false observed =
    err (recovery_conflict rolling_back_record_invalid)
rolling_back_as absence_restored true observed = err (recovery_conflict rolling_back_record_invalid)

unfoldable pub classify_rolling_back :
    Bool → TargetState → SyntheticTargetObservation → FsResult RecoveryDisposition
classify_rolling_back original_existed recorded observed =
    rolling_back_as recorded.rollback.kind original_existed observed

-- The `match` of `classify_rolled_back`.
unfoldable pub rolled_back_as :
    RollbackKind → Bool → SyntheticTargetObservation → FsResult RecoveryDisposition
rolled_back_as original_restored true observed = classify_restored_original observed cleanup_only
rolled_back_as absence_restored false observed = classify_restored_absence observed cleanup_only
rolled_back_as _ _ observed = err (recovery_conflict rolled_back_record_invalid)

unfoldable pub classify_rolled_back :
    Bool → TargetState → SyntheticTargetObservation → FsResult RecoveryDisposition
classify_rolled_back original_existed recorded observed =
    rolled_back_as recorded.rollback.kind original_existed observed

-- The classifier of each global state.
unfoldable pub classify_as :
    GlobalState → Bool → TargetState → SyntheticTargetObservation → FsResult RecoveryDisposition
classify_as preparing original_existed recorded observed =
    classify_preparing original_existed observed
classify_as prepared original_existed recorded observed =
    classify_prepared original_existed observed
classify_as committing original_existed recorded observed =
    classify_committing original_existed recorded observed
classify_as committed original_existed recorded observed =
    classify_committed original_existed observed
classify_as rolling_back original_existed recorded observed =
    classify_rolling_back original_existed recorded observed
classify_as rolled_back original_existed recorded observed =
    classify_rolled_back original_existed recorded observed

abbrev pub is_unexpected : SyntheticTargetObservation → Bool
is_unexpected observed =
    not observed.parent_matches
    || location_eq observed.target unexpected
    || location_eq observed.candidate unexpected
    || location_eq observed.backup unexpected

unfoldable pub classify_recovery :
    GlobalState → Bool → TargetState → SyntheticTargetObservation → FsResult RecoveryDisposition
classify_recovery global original_existed recorded observed =
    if is_unexpected observed
    then err (recovery_conflict unexpected_location_or_parent)
    else classify_as global original_existed recorded observed
