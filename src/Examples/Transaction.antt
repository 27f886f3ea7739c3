-- ===== src/Examples/Transaction.antt =====
-- The commit of one existing file.
use srcmv.Base.{All, Bytes, ℕ, ◌≡◌, refl, true, none, some, [], ◌∷◌}
use srcmv.Recovery.State.{
  missing, installed, TargetState, preparing, committing, rolling_back, original, candidate, absent,
}
use srcmv.Recovery.Classify.{is_committing, classify_committing, classify_as, classify_recovery}
use srcmv.Fs.Errors.{unexpected_location_or_parent, recovery_conflict, ok, err}
use srcmv.PlanHash.Cbor.{be_bytes}
use srcmv.Journal.State.{StateSnapshot, candidate_eq, commit_eq, rollback_eq}
use srcmv.Journal.Shape.{
  strip_prefix, validate_digest, validate_target_fields, global_constraints,
  validate_global_constraints, validate_targets, validate_prior, validate_state_shape,
}
use srcmv.Journal.Transition.{
  is_allowed, validate_target_progress, validate_progress, validate_state_transition_with_limits,
  fit_originals, validate_state_against_originals,
}
use srcmv.Journal.Hex.{hex_bytes, to_prefixed_hex}
use srcmv.Journal.Envelope.{checked_record_length, encode_record}
use srcmv.Journal.Publish.{
  encode_state_record, record_checksum, validate_next, charge_bytes, publish_state,
}
use srcmv.Transaction.Manifest.{
  preserve_existing_mode, ManifestTarget, Fingerprint, matches_original, matches_candidate,
}
use srcmv.Transaction.Filesystem.{at_target, at_candidate}
use srcmv.Transaction.Run.{World}
use srcmv.Transaction.Observe.{
  location_of, backup_of, observe_target, verify_original_location, verify_candidate_location,
  complete_mode, classify_all_targets,
}
use srcmv.Transaction.Stages.{observed_as}
use srcmv.Transaction.Assertions.{Recoverable, Holds}
use srcmv.Transaction.Hoare.{Post}
use srcmv.Transaction.Steps.{
  update_at, publish_transition, publish_installed, back_up, install, complete_target,
}
use srcmv.Transaction.Classified.{classify_all_targets-Recoverable}
use srcmv.Transaction.Complete.{complete_target-Recoverable}
use srcmv.Examples.Journal.{
  zeros, roomy, hashed, staged_target, ready_candidate, no_commit, no_rollback, snapshot, formats,
}
use srcmv.Recovery.Lag.{commit_rank}
use srcmv.Transaction.CommitSteps.{complete_targets, verify_targets, complete_commit_steps}
use srcmv.Transaction.Targets.{Each, CommittedTarget}
use srcmv.Transaction.Whole.{CanRecover, complete_commit_steps-CanRecover}
use srcmv.Transaction.Partial.{location_of-classify_recovery}
use srcmv.Examples.Disk.{Disk, put, disk_calls, disk_laws}

abbrev content_digest : ℕ → Bytes
content_digest byte = byte ∷ zeros 31

abbrev pub fingerprint_of : ℕ → Fingerprint
fingerprint_of inode = record {
  identity = record { device = 1; inode = inode };
  length_of = 5;
  digest = content_digest inode;
}

-- The file has inode 8, and its candidate inode 9.
abbrev pub replaced_file : ManifestTarget
replaced_file = record {
  target_index = 0;
  path = 97 ∷ [];
  parent_identity = record { device = 1; inode = 2 };
  original_existed = true;
  original_identity = some (record { device = 1; inode = 8 });
  original_sha256 = some (to_prefixed_hex (content_digest 8));
  original_length = some 5;
  candidate_name = 99 ∷ [];
  backup_name = 98 ∷ [];
  candidate_sha256 = to_prefixed_hex (content_digest 9);
  candidate_length = 5;
  metadata_policy = preserve_existing_mode;
  new_file_mode = none;
  segments = [];
}

abbrev staged_disk : Disk
staged_disk =
    put (0, at_target) (some (fingerprint_of 8))
      (put (0, at_candidate) (some (fingerprint_of 9)) λ l. none)

abbrev committing_state : StateSnapshot
committing_state =
    snapshot 3 (some hashed) committing (staged_target ready_candidate no_commit no_rollback)

abbrev pub staged_world : World Disk
staged_world = record {
  files = staged_disk;
  journal = record {
    manifest_checksum = hashed;
    original_existence = true ∷ [];
    limits = roomy;
    projected_disk_bytes = 300;
    state_record_bytes = 200;
    last_state = some committing_state;
    last_checksum = some hashed;
  };
  progress = record { state = committing_state; checksum = hashed };
}

staged_world-Recoverable : Recoverable disk_calls disk_laws replaced_file 0 staged_world
unfolding location_of backup_of matches_original matches_candidate to_prefixed_hex hex_bytes
    classify_recovery classify_as classify_committing is_committing disk_laws
staged_world-Recoverable = record {
  recorded = staged_target ready_candidate no_commit no_rollback;
  found = refl;
  is_committed_to = refl;
  allowed = refl;
}

complete_target_returns :
    (complete_target disk_calls formats replaced_file 0 staged_world).value ≡ ok tt
unfolding complete_target back_up install publish_installed publish_transition update_at
    observe_target verify_original_location verify_candidate_location location_of backup_of
    matches_original matches_candidate to_prefixed_hex hex_bytes publish_state validate_next
    charge_bytes encode_state_record record_checksum encode_record checked_record_length be_bytes
    validate_state_shape validate_digest strip_prefix validate_prior validate_targets
    validate_target_fields validate_global_constraints global_constraints
    validate_state_against_originals fit_originals validate_state_transition_with_limits is_allowed
    validate_progress validate_target_progress candidate_eq commit_eq rollback_eq commit_rank
complete_target_returns = refl

complete_target-Recoverable_example :
    let ran = complete_target disk_calls formats replaced_file 0 staged_world in
    All (Recoverable disk_calls disk_laws replaced_file 0) ran.trace
    × Post
        (λ _. Holds disk_calls disk_laws replaced_file 0 installed candidate absent original)
        ran.value
        ran.world
complete_target-Recoverable_example =
    complete_target-Recoverable disk_calls disk_laws formats replaced_file 0 staged_world
      staged_world-Recoverable

staged_world_classified :
    classify_all_targets disk_calls complete_mode committing
      (staged_target ready_candidate no_commit no_rollback ∷ [])
      0
      (replaced_file ∷ [])
      staged_disk
    ≡ ok tt
unfolding classify_all_targets observe_target location_of backup_of matches_original
    matches_candidate to_prefixed_hex hex_bytes classify_recovery classify_as classify_committing
    is_committing
staged_world_classified = refl

classify_all_targets-Recoverable_example :
    Recoverable disk_calls disk_laws replaced_file 0 staged_world
classify_all_targets-Recoverable_example =
    classify_all_targets-Recoverable disk_calls disk_laws complete_mode (replaced_file ∷ [])
      staged_world 0 replaced_file refl staged_world_classified refl

complete_commit_steps_returns :
    (complete_commit_steps disk_calls formats (replaced_file ∷ []) staged_world).value ≡ ok tt
unfolding complete_commit_steps complete_targets verify_targets classify_all_targets
    classify_recovery classify_as classify_committing is_committing complete_target back_up install
    publish_installed publish_transition update_at observe_target verify_original_location
    verify_candidate_location location_of backup_of matches_original matches_candidate
    to_prefixed_hex hex_bytes publish_state validate_next charge_bytes encode_state_record
    record_checksum encode_record checked_record_length be_bytes validate_state_shape
    validate_digest strip_prefix validate_prior validate_targets validate_target_fields
    validate_global_constraints global_constraints validate_state_against_originals fit_originals
    validate_state_transition_with_limits is_allowed validate_progress validate_target_progress
    candidate_eq commit_eq rollback_eq commit_rank
complete_commit_steps_returns = refl

complete_commit_steps-CanRecover_example :
    let ran = complete_commit_steps disk_calls formats (replaced_file ∷ []) staged_world in
    All (CanRecover disk_calls disk_laws formats (replaced_file ∷ [])) ran.trace
    × Post
        (λ _. Each (CommittedTarget disk_calls disk_laws) (replaced_file ∷ []))
        ran.value
        ran.world
complete_commit_steps-CanRecover_example =
    complete_commit_steps-CanRecover disk_calls disk_laws formats (replaced_file ∷ []) staged_world
      refl

abbrev unstaged : TargetState
unstaged = staged_target (record { kind = missing; identity = none }) no_commit no_rollback

location_of-classify_recovery_example :
    (location_of (some (fingerprint_of 9)) replaced_file unstaged.candidate true preparing
      ≡ candidate)
    × (classify_recovery rolling_back true unstaged (
          observed_as original
            (location_of
              (some (fingerprint_of 9))
              replaced_file
              unstaged.candidate
              true
              rolling_back)
            absent)
        ≡ err (recovery_conflict unexpected_location_or_parent))
unfolding matches_original to_prefixed_hex hex_bytes
location_of-classify_recovery_example =
    location_of-classify_recovery (fingerprint_of 9) replaced_file unstaged original absent refl
      refl
