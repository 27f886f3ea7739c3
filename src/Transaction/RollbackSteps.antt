-- ===== src/Transaction/RollbackSteps.antt =====
-- crates/srcmv-fs/src/transaction.rs: `rollback_target`.
use srcmv.Base.{if◌then◌else◌, ℕ, Bool, false, ◌&&◌, ◌||◌, none, some}
use srcmv.Recovery.State.{
  ready, not_restored, original_restored, absence_restored, RollbackState, TargetState,
  rolling_back, candidate, SyntheticTargetObservation,
}
use srcmv.Recovery.Classify.{location_eq}
use srcmv.Fs.Errors.{
  ConflictReason, backup_remains_after_original_restore, absence_not_restored, recovery_conflict,
  FsResult, ok, err,
}
use srcmv.Journal.State.{candidate_kind_eq, rollback_kind_eq}
use srcmv.Journal.Publish.{Formats}
use srcmv.Transaction.Manifest.{ManifestTarget}
use srcmv.Transaction.Filesystem.{at_target, at_candidate, at_backup, Location, Filesystem}
use srcmv.Transaction.Run.{Run, ◌>>=◌, ◌>>◌, pure, ask, effect}
use srcmv.Transaction.Observe.{verify_candidate_location}
use srcmv.Transaction.Steps.{publish_target_transition, recorded_at, observed_at, verified_original}

-- `Path::exists`, which answers `false` for every error.
abbrev pub path_exists : FsResult Bool → Bool
path_exists (err _) = false
path_exists (ok found) = found

module _ {W : Type 0} (fs : Filesystem W) (formats : Formats) where
  abbrev pub exists_at : Location → Run W Bool
  exists_at location = ask (λ world. ok (path_exists (fs.metadata location world.files)))

  abbrev pub refuse : {T : Type 0} → ConflictReason → Run W T
  refuse reason = ask (λ world. err (recovery_conflict reason))

  abbrev pub set_rollback : RollbackState → TargetState → TargetState
  set_rollback restored state = record state { rollback = restored }

  -- An installed candidate is removed.
  unfoldable pub remove_installed :
      ManifestTarget → ℕ → TargetState → SyntheticTargetObservation → Run W (Unit {0})
  remove_installed target index state observed =
      if location_eq observed.target candidate
      then (do
        _ ← ask (λ world. verify_candidate_location fs (index, at_target) target state world.files)
        effect (fs.remove_file (index, at_target))
        ask (λ world. fs.sync world.files))
      else pure tt

  -- The backup is moved back.
  unfoldable pub restore_backup : ManifestTarget → ℕ → Run W (Unit {0})
  restore_backup target index = do
    backup_exists ← exists_at (index, at_backup)
    if target.original_existed && backup_exists
        then (do
          _ ← verified_original fs formats (index, at_backup) target
          effect (fs.rename (index, at_backup) (index, at_target))
          ask (λ world. fs.sync world.files)
          ask (λ world. fs.sync world.files))
        else pure tt

  -- A staged candidate is removed.
  unfoldable pub remove_staged : ManifestTarget → ℕ → TargetState → Run W (Unit {0})
  remove_staged target index state = do
    candidate_exists ← exists_at (index, at_candidate)
    if candidate_exists
        then (do
          (if candidate_kind_eq state.candidate.kind ready
              then (do
                _ ← ask (λ world.
                    verify_candidate_location fs (index, at_candidate) target state world.files)
                pure tt)
              else ask (λ world. fs.validate_partial (index, at_candidate) world.files))
          effect (fs.remove_file (index, at_candidate))
          ask (λ world. fs.sync world.files))
        else pure tt

  -- What is recorded of the restoration.
  unfoldable pub restored_state : ManifestTarget → ℕ → Run W RollbackState
  restored_state target index =
      if target.original_existed
      then (do
        found ← verified_original fs formats (index, at_target) target
        backup_exists ← exists_at (index, at_backup)
        if backup_exists
            then refuse backup_remains_after_original_restore
            else pure (record { kind = original_restored; identity = some found.identity }))
      else do
        target_exists ← exists_at (index, at_target)
        backup_exists ← exists_at (index, at_backup)
        if target_exists || backup_exists
            then refuse absence_not_restored
            else pure (record { kind = absence_restored; identity = none })

  -- The publication of a restoration.
  unfoldable pub publish_restored : ℕ → RollbackState → Run W (Unit {0})
  publish_restored index restored = do
    recorded ← recorded_at fs formats index
    if rollback_kind_eq recorded.rollback.kind not_restored
        then publish_target_transition fs formats rolling_back index (set_rollback restored)
        else pure tt

  -- `rollback_target`.
  unfoldable pub rollback_target : ManifestTarget → ℕ → Run W (Unit {0})
  unfolding remove_installed restore_backup remove_staged restored_state publish_restored
  rollback_target target index = do
    ask (λ world. fs.target_paths index world.files)
    state ← recorded_at fs formats index
    observed ← observed_at fs formats target index state
    remove_installed target index state observed
    restore_backup target index
    remove_staged target index state
    restored ← restored_state target index
    publish_restored index restored
