-- ===== src/Examples/Rollback.antt =====
-- The rollback of a file whose candidate was installed, and one whose metadata calls fail.
use srcmv.Base.{[], ◌∷◌, is_some, All, ◌≡◌, refl, none, some}
use srcmv.Recovery.State.{rolling_back}
use srcmv.Recovery.Classify.{
  classify_restored_original, is_rolling_back, rolling_back_as, classify_rolling_back, classify_as,
  classify_recovery,
}
use srcmv.Recovery.Lag.{commit_rank}
use srcmv.Fs.Errors.{
  err, recovery_conflict, recorded_original_mismatch, restored_original_observation_invalid, ok,
}
use srcmv.PlanHash.Cbor.{be_bytes}
use srcmv.Journal.State.{StateSnapshot, candidate_eq, commit_eq, rollback_eq}
use srcmv.Journal.Shape.{
  strip_prefix, validate_digest, validate_target_fields, global_constraints,
  validate_global_constraints, validate_targets, validate_prior, validate_state_shape,
}
use srcmv.Journal.Transition.{
  is_allowed, validate_target_progress, validate_progress, validate_state_transition_with_limits,
  fit_originals, validate_state_against_originals,
}
use srcmv.Journal.Hex.{hex_bytes, to_prefixed_hex}
use srcmv.Journal.Envelope.{checked_record_length, encode_record}
use srcmv.Journal.Publish.{
  encode_state_record, record_checksum, validate_next, charge_bytes, publish_state,
}
use srcmv.Transaction.Manifest.{matches_original, matches_candidate}
use srcmv.Transaction.Filesystem.{at_candidate, Filesystem, at_target, at_backup}
use srcmv.Transaction.Run.{World}
use srcmv.Transaction.Observe.{
  classify_all_targets, rollback_mode, location_of, backup_of, observe_target,
  verify_original_location, verify_candidate_location,
}
use srcmv.Transaction.Hoare.{Post}
use srcmv.Transaction.Steps.{update_at, publish_transition}
use srcmv.Transaction.RollbackSteps.{
  remove_installed, restore_backup, remove_staged, restored_state, publish_restored,
  rollback_target,
}
use srcmv.Transaction.RollbackStages.{Revertible}
use srcmv.Transaction.Reverted.{Reverted, rollback_target-Revertible}
use srcmv.Examples.Journal.{
  no_commit, hashed, staged_target, ready_candidate, full_commit, no_rollback, snapshot, formats,
}
use srcmv.Examples.Disk.{Disk, put, disk_calls, disk_laws}
use srcmv.Examples.Transaction.{fingerprint_of, replaced_file, staged_world}

abbrev swapped_disk : Disk
swapped_disk =
    put (0, at_target) (some (fingerprint_of 9))
      (put (0, at_backup) (some (fingerprint_of 8)) λ l. none)

abbrev rolling_state : StateSnapshot
rolling_state =
    snapshot 5 (some hashed) rolling_back (staged_target ready_candidate full_commit no_rollback)

abbrev swapped_world : World Disk
swapped_world = record staged_world {
  files = swapped_disk;
  journal = record staged_world.journal { last_state = some rolling_state };
  progress = record { state = rolling_state; checksum = hashed };
}

swapped_world-Revertible : Revertible disk_calls disk_laws replaced_file 0 swapped_world
unfolding disk_laws location_of backup_of matches_original matches_candidate to_prefixed_hex
    hex_bytes classify_recovery classify_as classify_rolling_back rolling_back_as is_rolling_back
swapped_world-Revertible = record {
  recorded = staged_target ready_candidate full_commit no_rollback;
  found = refl;
  is_rolling = refl;
  allowed = refl;
}

rollback_target_returns :
    (rollback_target disk_calls formats replaced_file 0 swapped_world).value ≡ ok tt
unfolding rollback_target remove_installed restore_backup remove_staged restored_state
    publish_restored publish_transition update_at observe_target verify_original_location
    verify_candidate_location location_of backup_of matches_original matches_candidate
    to_prefixed_hex hex_bytes publish_state validate_next charge_bytes encode_state_record
    record_checksum encode_record checked_record_length be_bytes validate_state_shape
    validate_digest strip_prefix validate_prior validate_targets validate_target_fields
    validate_global_constraints global_constraints validate_state_against_originals fit_originals
    validate_state_transition_with_limits is_allowed validate_progress validate_target_progress
    candidate_eq commit_eq rollback_eq commit_rank
rollback_target_returns = refl

rollback_target-Revertible_example :
    let ran = rollback_target disk_calls formats replaced_file 0 swapped_world in
    All (Revertible disk_calls disk_laws replaced_file 0) ran.trace
    × Post (λ _. Reverted disk_calls disk_laws formats replaced_file 0) ran.value ran.world
rollback_target-Revertible_example =
    rollback_target-Revertible disk_calls disk_laws formats replaced_file 0 swapped_world
      (λ p v. (is_some (v (0, p)), refl)) swapped_world-Revertible

-- The original is in place and the candidate was not moved.
abbrev staged_disk : Disk
staged_disk =
    put (0, at_target) (some (fingerprint_of 8))
      (put (0, at_candidate) (some (fingerprint_of 9)) λ l. none)

abbrev staged_rollback : StateSnapshot
staged_rollback =
    snapshot 5 (some hashed) rolling_back (staged_target ready_candidate no_commit no_rollback)

abbrev rollback_world : World Disk
rollback_world = record staged_world {
  files = staged_disk;
  journal = record staged_world.journal { last_state = some staged_rollback };
  progress = record { state = staged_rollback; checksum = hashed };
}

-- A disk whose metadata calls fail.
abbrev blind_calls : Filesystem Disk
blind_calls = record disk_calls {
  metadata = λ l disk. err (recovery_conflict recorded_original_mismatch);
}

-- The rollback returns, the candidate is left behind, and the target cannot be classified any more.
rollback_target_unanswered :
    let ran = rollback_target blind_calls formats replaced_file 0 rollback_world in
    (ran.value ≡ ok tt)
    × (ran.world.files (0, at_candidate) ≡ some (fingerprint_of 9))
    × (classify_all_targets disk_calls rollback_mode rolling_back ran.world.progress.state.targets 0
          (replaced_file ∷ [])
          ran.world.files
        ≡ err (recovery_conflict restored_original_observation_invalid))
unfolding rollback_target remove_installed restore_backup remove_staged restored_state
    publish_restored publish_transition update_at observe_target verify_original_location
    verify_candidate_location location_of backup_of matches_original matches_candidate
    to_prefixed_hex hex_bytes publish_state validate_next charge_bytes encode_state_record
    record_checksum encode_record checked_record_length be_bytes validate_state_shape
    validate_digest strip_prefix validate_prior validate_targets validate_target_fields
    validate_global_constraints global_constraints validate_state_against_originals fit_originals
    validate_state_transition_with_limits is_allowed validate_progress validate_target_progress
    candidate_eq commit_eq rollback_eq commit_rank classify_all_targets classify_recovery
    classify_as classify_rolling_back rolling_back_as is_rolling_back classify_restored_original
rollback_target_unanswered = (refl, refl, refl)
