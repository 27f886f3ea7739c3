-- ===== src/Journal/Shape.antt =====
-- crates/srcmv-fs/src/journal.rs: the validation of one state snapshot.
use srcmv.Base.{
  ltb, leb, ◌==◌, if◌then◌else◌, length, Bytes, is_some, bool_eq, ℕ, ◌+◌, Bool, true, not, ◌&&◌,
  ◌||◌, Option, none, some, List, [], ◌∷◌,
}
use srcmv.Fs.Errors.{
  state_version_unsupported, state_zero_prior_checksum_present, state_prior_checksum_missing,
  state_target_index_invalid, global_state_target_combination_invalid, candidate_identity_invalid,
  commit_fields_invalid, rollback_fields_invalid, record_digest_invalid, FsResource,
  transaction_targets, resource_limit_exceeded, FsResult, ok, err, ◌>>◌,
}
use srcmv.Recovery.State.{
  ready, CommitKind, untouched, backed_up, installed, CommitState, RollbackKind, not_restored,
  original_restored, absence_restored, RollbackState, TargetState, GlobalState, preparing, prepared,
  committing, committed, rolling_back, rolled_back,
}
use srcmv.Journal.State.{
  TransactionLimits, StateSnapshot, corrupt, candidate_kind_eq, commit_kind_eq, rollback_kind_eq,
}

-- `u64::saturating_add(1)` and `all` over the targets.
abbrev saturating_suc : ℕ → ℕ
saturating_suc n = if leb 18446744073709551615 n then 18446744073709551615 else n + 1

abbrev pub all_of {ℓ} : {A : Type ℓ} → (A → Bool) → List A → Bool
all_of p [] = true
all_of p (x ∷ xs) = p x && all_of p xs

-- Lowercase hexadecimal digits.
abbrev pub is_hex : ℕ → Bool
is_hex byte = (leb 48 byte && leb byte 57) || (leb 97 byte && leb byte 102)

-- "sha256:".
abbrev pub digest_prefix : Bytes
digest_prefix = 115 ∷ 104 ∷ 97 ∷ 50 ∷ 53 ∷ 54 ∷ 58 ∷ []

unfoldable pub strip_prefix : Bytes → Bytes → Option Bytes
strip_prefix [] value = some value
strip_prefix (x ∷ prefix) [] = none
strip_prefix (x ∷ prefix) (y ∷ value) =
    let rest = strip_prefix prefix value in if x == y then rest else none

-- `validate_digest` without a transaction identifier.
unfoldable pub validate_digest : Bytes → FsResult (Unit {0})
unfolding strip_prefix
validate_digest value = elim (strip_prefix digest_prefix value) [
  | none ↦ err (corrupt record_digest_invalid)
  | some hex ↦
      if (length hex == 64) && all_of is_hex hex then ok tt else err (corrupt record_digest_invalid)
]

-- The guards of the two matches of `validate_target_fields`.
abbrev pub commit_fields_valid : CommitKind → CommitState → Bool
commit_fields_valid untouched commit =
    not (is_some commit.identity) && not (is_some commit.preserved_mode)
commit_fields_valid backed_up commit = is_some commit.identity && is_some commit.preserved_mode
commit_fields_valid installed commit = is_some commit.identity

abbrev pub rollback_fields_valid : RollbackKind → RollbackState → Bool
rollback_fields_valid not_restored rollback = not (is_some rollback.identity)
rollback_fields_valid absence_restored rollback = not (is_some rollback.identity)
rollback_fields_valid original_restored rollback = is_some rollback.identity

-- `validate_target_fields`.
unfoldable pub validate_target_fields : TargetState → FsResult (Unit {0})
validate_target_fields target =
    if not
      (bool_eq (candidate_kind_eq target.candidate.kind ready) (is_some target.candidate.identity))
    then err (corrupt candidate_identity_invalid)
    else if not (commit_fields_valid target.commit.kind target.commit)
    then err (corrupt commit_fields_invalid)
    else if rollback_fields_valid target.rollback.kind target.rollback
    then ok tt
    else err (corrupt rollback_fields_invalid)

abbrev pub is_ready : TargetState → Bool
is_ready target = candidate_kind_eq target.candidate.kind ready

abbrev pub is_untouched : TargetState → Bool
is_untouched target = commit_kind_eq target.commit.kind untouched

abbrev pub is_installed : TargetState → Bool
is_installed target = commit_kind_eq target.commit.kind installed

abbrev pub is_not_restored : TargetState → Bool
is_not_restored target = rollback_kind_eq target.rollback.kind not_restored

-- The `match` of `validate_global_constraints`.
unfoldable pub global_constraints : GlobalState → List TargetState → Bool
global_constraints preparing targets = all_of is_untouched targets && all_of is_not_restored targets
global_constraints prepared targets =
    all_of is_ready targets && all_of is_untouched targets && all_of is_not_restored targets
global_constraints committing targets = all_of is_ready targets && all_of is_not_restored targets
global_constraints committed targets =
    all_of is_ready targets && all_of is_not_restored targets && all_of is_installed targets
global_constraints rolling_back targets =
    all_of (λ t. not (is_not_restored t) || is_untouched t || is_ready t) targets
global_constraints rolled_back targets = all_of (λ t. not (is_not_restored t)) targets

-- `validate_global_constraints`.
unfoldable pub validate_global_constraints : StateSnapshot → FsResult (Unit {0})
validate_global_constraints state =
    if global_constraints state.global_state state.targets
    then ok tt
    else err (corrupt global_state_target_combination_invalid)

-- The loop of `validate_state_shape` over the targets.
unfoldable pub validate_targets : ℕ → List TargetState → FsResult (Unit {0})
unfolding validate_target_fields
validate_targets index [] = ok tt
validate_targets index (target ∷ targets) = do
  (if target.target_index == index then ok tt else err (corrupt state_target_index_invalid))
  validate_target_fields target
  validate_targets (index + 1) targets

-- The optional checksum of the prior state.
unfoldable pub validate_prior : Option Bytes → FsResult (Unit {0})
validate_prior none = ok tt
validate_prior (some checksum) = validate_digest checksum

-- `validate_state_shape`.
unfoldable pub validate_state_shape : StateSnapshot → TransactionLimits → FsResult (Unit {0})
validate_state_shape state limits =
    if not (state.transaction_version == 1)
    then err (corrupt state_version_unsupported)
    else if leb limits.state_records state.sequence
    then err (
        resource_limit_exceeded FsResource.state_records (saturating_suc state.sequence)
          limits.state_records)
    else do
      validate_digest state.manifest_checksum
      validate_prior state.prior_state_checksum
      (if (state.sequence == 0) && is_some state.prior_state_checksum
          then err (corrupt state_zero_prior_checksum_present)
          else ok tt)
      (if not (state.sequence == 0) && not (is_some state.prior_state_checksum)
          then err (corrupt state_prior_checksum_missing)
          else ok tt)
      (if ltb limits.targets (length state.targets)
          then err
              (resource_limit_exceeded transaction_targets (length state.targets) limits.targets)
          else ok tt)
      validate_targets 0 state.targets
      validate_global_constraints state
