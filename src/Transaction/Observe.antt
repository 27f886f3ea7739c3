-- ===== src/Transaction/Observe.antt =====
-- crates/srcmv-fs/src/transaction.rs: what is observed of a target, and the classification of all.
use srcmv.Base.{
  if◌then◌else◌, get_elem?, ℕ, ◌+◌, Bool, true, false, ◌&&◌, ◌||◌, Option, none, some, List, [],
  ◌∷◌,
}
use srcmv.Fs.Errors.{
  recorded_original_missing, recorded_original_mismatch, recorded_candidate_missing,
  recorded_candidate_mismatch, ActionReason, transaction_cannot_be_completed,
  transaction_cannot_be_rolled_back, manifest_and_state_target_counts_match, recovery_conflict,
  recovery_action_not_allowed, internal_invariant, FsResult, ok, err, ◌>>=◌, ◌>>◌, ok_or,
}
use srcmv.Recovery.State.{
  ready, CandidateState, TargetState, GlobalState, preparing, LocationObservation, original,
  candidate, absent, unexpected, SyntheticTargetObservation, RecoveryDisposition,
}
use srcmv.Recovery.Classify.{classify_recovery}
use srcmv.Journal.State.{candidate_kind_eq, global_eq}
use srcmv.Transaction.Manifest.{ManifestTarget, Fingerprint, matches_original, matches_candidate}
use srcmv.Transaction.Filesystem.{at_target, at_candidate, at_backup, Location, Filesystem}

-- The tests of `classify_location` on what is at a location.
unfoldable pub location_of :
    Option Fingerprint → ManifestTarget → CandidateState → Bool → GlobalState → LocationObservation
location_of none target recorded candidate_location global = absent
location_of (some actual) target recorded candidate_location global =
    if target.original_existed && matches_original actual target
    then original
    else if candidate_kind_eq recorded.kind ready && matches_candidate actual target recorded
    then candidate
    else if candidate_location && global_eq global preparing
    then candidate
    else unexpected

-- The tests of `classify_backup`.
unfoldable pub backup_of : Option Fingerprint → ManifestTarget → LocationObservation
backup_of none target = absent
backup_of (some actual) target =
    if target.original_existed && matches_original actual target then original else unexpected

module _ {W : Type 0} (fs : Filesystem W) where
  -- `observe_target`, with `classify_location` and `classify_backup`.
  unfoldable pub observe_target :
      ManifestTarget → ℕ → TargetState → GlobalState → W → FsResult SyntheticTargetObservation
  unfolding location_of backup_of
  observe_target target index recorded global w = do
    target_seen ← fs.fingerprint (index, at_target) w
    candidate_seen ← fs.fingerprint (index, at_candidate) w
    backup_seen ← fs.fingerprint (index, at_backup) w
    ok (record {
      parent_matches = true;
      target = location_of target_seen target recorded.candidate false global;
      candidate = location_of candidate_seen target recorded.candidate true global;
      backup = backup_of backup_seen target;
    })

  -- `verify_original_location`.
  unfoldable pub verify_original_location : Location → ManifestTarget → W → FsResult Fingerprint
  verify_original_location location target w = do
    seen ← fs.fingerprint location w
    actual ← ok_or (recovery_conflict recorded_original_missing) seen
    if matches_original actual target
        then ok actual
        else err (recovery_conflict recorded_original_mismatch)

  -- `verify_candidate_location`.
  unfoldable pub verify_candidate_location :
      Location → ManifestTarget → TargetState → W → FsResult Fingerprint
  verify_candidate_location location target recorded w = do
    seen ← fs.fingerprint location w
    actual ← ok_or (recovery_conflict recorded_candidate_missing) seen
    if matches_candidate actual target recorded.candidate
        then ok actual
        else err (recovery_conflict recorded_candidate_mismatch)

-- `RecoveryMode`.
pub data RecoveryMode : Type 0 where
  complete_mode rollback_mode : RecoveryMode

abbrev pub mode_allows : RecoveryMode → RecoveryDisposition → Bool
mode_allows complete_mode disposition = disposition.complete || disposition.cleanup_only
mode_allows rollback_mode disposition = disposition.rollback || disposition.cleanup_only

abbrev pub mode_refusal : RecoveryMode → ActionReason
mode_refusal complete_mode = transaction_cannot_be_completed
mode_refusal rollback_mode = transaction_cannot_be_rolled_back

module _ {W : Type 0} (fs : Filesystem W) where
  -- The loop of `classify_all_targets`.
  unfoldable pub classify_all_targets :
      RecoveryMode
      → GlobalState
      → List TargetState
      → ℕ
      → List ManifestTarget
      → W
      → FsResult (Unit {0})
  classify_all_targets mode global states index [] w = ok tt
  classify_all_targets mode global states index (target ∷ targets) w = do
    recorded ←
        ok_or (internal_invariant manifest_and_state_target_counts_match) (get_elem? states index)
    fs.target_paths index w
    observed ← observe_target fs target index recorded global w
    disposition ← classify_recovery global target.original_existed recorded observed
    (if mode_allows mode disposition
        then ok tt
        else err (recovery_action_not_allowed (mode_refusal mode)))
    classify_all_targets mode global states (index + 1) targets w
