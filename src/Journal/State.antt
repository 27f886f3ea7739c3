-- ===== src/Journal/State.antt =====
-- crates/srcmv-fs/src/journal.rs: limits, full state snapshots, and the derived comparisons.
use srcmv.Base.{
  ◌==◌, ==_iff, Bytes, ℕ, ◌≡◌, refl, ap, Bool, true, false, ◌&&◌, Option, none, some, List, arith,
}
use srcmv.Fs.Errors.{CorruptReason, FsError, transaction_record_corrupt}
use srcmv.Recovery.State.{
  PersistedIdentity, CandidateKind, missing, ready, CandidateState, CommitKind, untouched,
  backed_up, installed, CommitState, RollbackKind, not_restored, original_restored,
  absence_restored, RollbackState, TargetState, GlobalState, preparing, prepared, committing,
  committed, rolling_back, rolled_back,
}

pub record TransactionLimits : Type 0 where
  pub record_bytes : ℕ
  pub targets : ℕ
  pub state_records : ℕ
  pub state_bytes : ℕ
  pub transaction_directories : ℕ
  pub recovery_bytes : ℕ
  pub projected_disk_bytes : ℕ

pub record StateSnapshot : Type 0 where
  pub transaction_version : ℕ
  pub sequence : ℕ
  pub manifest_checksum : Bytes
  pub prior_state_checksum : Option Bytes
  pub global_state : GlobalState
  pub targets : List TargetState

-- `corrupt(None, reason)`.
abbrev pub corrupt : CorruptReason → FsError
corrupt reason = transaction_record_corrupt none reason

-- Derived `PartialEq` of the parts of a target state.
abbrev pub identity_eq : PersistedIdentity → PersistedIdentity → Bool
identity_eq a b = (a.device == b.device) && (a.inode == b.inode)

abbrev pub option_eq {ℓ} : {A : Type ℓ} → (A → A → Bool) → Option A → Option A → Bool
option_eq eq none none = true
option_eq eq (some a) (some b) = eq a b
option_eq eq _ _ = false

abbrev pub candidate_kind_eq : CandidateKind → CandidateKind → Bool
candidate_kind_eq missing missing = true
candidate_kind_eq ready ready = true
candidate_kind_eq _ _ = false

abbrev pub commit_kind_eq : CommitKind → CommitKind → Bool
commit_kind_eq untouched untouched = true
commit_kind_eq backed_up backed_up = true
commit_kind_eq installed installed = true
commit_kind_eq _ _ = false

abbrev pub rollback_kind_eq : RollbackKind → RollbackKind → Bool
rollback_kind_eq not_restored not_restored = true
rollback_kind_eq original_restored original_restored = true
rollback_kind_eq absence_restored absence_restored = true
rollback_kind_eq _ _ = false

abbrev pub global_eq : GlobalState → GlobalState → Bool
global_eq preparing preparing = true
global_eq prepared prepared = true
global_eq committing committing = true
global_eq committed committed = true
global_eq rolling_back rolling_back = true
global_eq rolled_back rolled_back = true
global_eq _ _ = false

unfoldable pub candidate_eq : CandidateState → CandidateState → Bool
candidate_eq a b = candidate_kind_eq a.kind b.kind && option_eq identity_eq a.identity b.identity

unfoldable pub commit_eq : CommitState → CommitState → Bool
commit_eq a b =
    commit_kind_eq a.kind b.kind
    && option_eq identity_eq a.identity b.identity
    && option_eq ◌==◌ a.preserved_mode b.preserved_mode

unfoldable pub rollback_eq : RollbackState → RollbackState → Bool
rollback_eq a b = rollback_kind_eq a.kind b.kind && option_eq identity_eq a.identity b.identity

-- What the comparisons say.
identity_eq→eq : (a b : PersistedIdentity) → identity_eq a b ≡ true → a ≡ b
identity_eq→eq a b h = ground (arith, ==_iff a.device b.device, ==_iff a.inode b.inode)

option_eq→eq {ℓ} :
    {A : Type ℓ} (eq : A → A → Bool) (sound : (a b : A) → eq a b ≡ true → a ≡ b) (a b : Option A)
    → option_eq eq a b ≡ true
    → a ≡ b
option_eq→eq eq sound none none h = refl
option_eq→eq eq sound none (some b) h = cc
option_eq→eq eq sound (some a) none h = cc
option_eq→eq eq sound (some a) (some b) h = ap some (sound a b h)

pub candidate_kind_eq→eq : (a b : CandidateKind) → candidate_kind_eq a b ≡ true → a ≡ b
candidate_kind_eq→eq missing missing h = refl
candidate_kind_eq→eq ready ready h = refl
candidate_kind_eq→eq missing ready h = cc
candidate_kind_eq→eq ready missing h = cc

pub rollback_kind_eq→eq : (a b : RollbackKind) → rollback_kind_eq a b ≡ true → a ≡ b
rollback_kind_eq→eq not_restored not_restored h = refl
rollback_kind_eq→eq original_restored original_restored h = refl
rollback_kind_eq→eq absence_restored absence_restored h = refl
rollback_kind_eq→eq not_restored original_restored h = cc
rollback_kind_eq→eq not_restored absence_restored h = cc
rollback_kind_eq→eq original_restored not_restored h = cc
rollback_kind_eq→eq original_restored absence_restored h = cc
rollback_kind_eq→eq absence_restored not_restored h = cc
rollback_kind_eq→eq absence_restored original_restored h = cc

pub commit_kind_eq→eq : (a b : CommitKind) → commit_kind_eq a b ≡ true → a ≡ b
commit_kind_eq→eq untouched untouched h = refl
commit_kind_eq→eq backed_up backed_up h = refl
commit_kind_eq→eq installed installed h = refl
commit_kind_eq→eq untouched backed_up h = cc
commit_kind_eq→eq untouched installed h = cc
commit_kind_eq→eq backed_up untouched h = cc
commit_kind_eq→eq backed_up installed h = cc
commit_kind_eq→eq installed untouched h = cc
commit_kind_eq→eq installed backed_up h = cc

pub candidate_eq→eq : (a b : CandidateState) → candidate_eq a b ≡ true → a ≡ b
unfolding candidate_eq
candidate_eq→eq a b h = ground (
  arith,
  candidate_kind_eq→eq a.kind b.kind,
  option_eq→eq identity_eq identity_eq→eq a.identity b.identity,
)

pub rollback_eq→eq : (a b : RollbackState) → rollback_eq a b ≡ true → a ≡ b
unfolding rollback_eq
rollback_eq→eq a b h = ground (
  arith,
  rollback_kind_eq→eq a.kind b.kind,
  option_eq→eq identity_eq identity_eq→eq a.identity b.identity,
)

pub commit_eq→eq : (a b : CommitState) → commit_eq a b ≡ true → a ≡ b
unfolding commit_eq
commit_eq→eq a b h = ground (
  arith,
  commit_kind_eq→eq a.kind b.kind,
  option_eq→eq identity_eq identity_eq→eq a.identity b.identity,
  option_eq→eq ◌==◌ (λ x y. (==_iff x y).0) a.preserved_mode b.preserved_mode,
)
