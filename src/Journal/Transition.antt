-- ===== src/Journal/Transition.antt =====
-- crates/srcmv-fs/src/journal.rs: the validation of one step between two state snapshots.
use srcmv.Base.{
  leb, ◌==◌, if◌then◌else◌, length, ◌+◌, Bool, true, false, not, ◌&&◌, ◌||◌, List, [], ◌∷◌,
}
use srcmv.Fs.Errors.{
  state_target_count_mismatch, state_original_existence_mismatch, candidate_state_regressed,
  rollback_progress_outside_rollback, commit_state_regressed, rollback_state_changed_after_restore,
  state_sequence_overflow, state_sequence_not_contiguous, invalid_global_state_transition,
  state_target_count_changed, state_target_order_changed, FsResult, ok, err, ◌>>◌,
}
use srcmv.Recovery.State.{
  missing, ready, backed_up, not_restored, original_restored, absence_restored, TargetState,
  GlobalState, preparing, prepared, committing, committed, rolling_back, rolled_back,
}
use srcmv.Recovery.Lag.{commit_rank}
use srcmv.Journal.State.{
  TransactionLimits, StateSnapshot, corrupt, candidate_kind_eq, commit_kind_eq, rollback_kind_eq,
  candidate_eq, commit_eq, rollback_eq,
}
use srcmv.Journal.Shape.{validate_state_shape}

-- `matches!(global, RollingBack | RolledBack)`.
abbrev pub is_rollback : GlobalState → Bool
is_rollback rolling_back = true
is_rollback rolled_back = true
is_rollback _ = false

-- The `matches!` of `validate_state_transition_with_limits`.
unfoldable pub is_allowed : GlobalState → GlobalState → Bool
is_allowed preparing preparing = true
is_allowed preparing prepared = true
is_allowed preparing rolling_back = true
is_allowed prepared prepared = true
is_allowed prepared committing = true
is_allowed prepared rolling_back = true
is_allowed committing committing = true
is_allowed committing committed = true
is_allowed committing rolling_back = true
is_allowed rolling_back rolling_back = true
is_allowed rolling_back rolled_back = true
is_allowed _ _ = false

-- `validate_target_progress`.
unfoldable pub validate_target_progress :
    TargetState → TargetState → GlobalState → FsResult (Unit {0})
validate_target_progress before after global =
    if not (
      candidate_eq before.candidate after.candidate
      || (candidate_kind_eq before.candidate.kind missing
          && candidate_kind_eq after.candidate.kind ready))
    then err (corrupt candidate_state_regressed)
    else if not (is_rollback global) && not (rollback_eq before.rollback after.rollback)
    then err (corrupt rollback_progress_outside_rollback)
    else if not (
        leb (commit_rank before.commit.kind) (commit_rank after.commit.kind)
        && (not (is_rollback global) || commit_eq before.commit after.commit))
    then err (corrupt commit_state_regressed)
    else if not (rollback_kind_eq before.rollback.kind not_restored)
        && not (rollback_eq before.rollback after.rollback)
    then err (corrupt rollback_state_changed_after_restore)
    else ok tt

-- The loop over the zipped targets, whose counts the caller has compared.
unfoldable pub validate_progress :
    List TargetState → List TargetState → GlobalState → FsResult (Unit {0})
validate_progress [] after global = ok tt
validate_progress (b ∷ before) [] global = ok tt
validate_progress (b ∷ before) (a ∷ after) global = do
  (if b.target_index == a.target_index then ok tt else err (corrupt state_target_order_changed))
  validate_target_progress b a global
  validate_progress before after global

-- `validate_state_transition_with_limits`.
unfoldable pub validate_state_transition_with_limits :
    StateSnapshot → StateSnapshot → TransactionLimits → FsResult (Unit {0})
validate_state_transition_with_limits previous next limits = do
  validate_state_shape previous limits
  validate_state_shape next limits
  (if leb 18446744073709551615 previous.sequence
      then err (corrupt state_sequence_overflow)
      else ok tt)
  (if next.sequence == previous.sequence + 1
      then ok tt
      else err (corrupt state_sequence_not_contiguous))
  (if is_allowed previous.global_state next.global_state
      then ok tt
      else err (corrupt invalid_global_state_transition))
  (if length previous.targets == length next.targets
      then ok tt
      else err (corrupt state_target_count_changed))
  validate_progress previous.targets next.targets next.global_state

-- One pair of the loop of `validate_state_against_originals`.
abbrev pub fits_original : Bool → TargetState → Bool
fits_original original_existed target = not (
    (not original_existed && commit_kind_eq target.commit.kind backed_up)
    || (rollback_kind_eq target.rollback.kind original_restored && not original_existed)
    || (rollback_kind_eq target.rollback.kind absence_restored && original_existed))

unfoldable pub fit_originals : List TargetState → List Bool → FsResult (Unit {0})
fit_originals [] existed = ok tt
fit_originals (target ∷ targets) [] = ok tt
fit_originals (target ∷ targets) (original_existed ∷ existed) =
    let rest = fit_originals targets existed in
    if fits_original original_existed target
    then rest
    else err (corrupt state_original_existence_mismatch)

-- `validate_state_against_originals`.
unfoldable pub validate_state_against_originals : StateSnapshot → List Bool → FsResult (Unit {0})
unfolding fit_originals
validate_state_against_originals state original_existence =
    if not (length state.targets == length original_existence)
    then err (corrupt state_target_count_mismatch)
    else fit_originals state.targets original_existence
