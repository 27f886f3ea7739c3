-- ===== src/Recovery/Safety.antt =====
-- What the classifier of interrupted transactions guarantees.
use srcmv.Base.{Bool-cases, ◌≡◌, refl, ◌⊎◌, inl, inr, Bool, true, false, ◌||◌, arith}
use srcmv.Recovery.State.{
  CommitKind, untouched, backed_up, installed, RollbackKind, not_restored, original_restored,
  absence_restored, TargetState, GlobalState, preparing, prepared, committing, committed,
  rolling_back, rolled_back, LocationObservation, original, candidate, absent, unexpected,
  SyntheticTargetObservation, RecoveryDisposition,
}
use srcmv.Recovery.Classify.{
  completion_and_rollback, rollback_only, cleanup_only, location_eq, classify_preparing,
  classify_prepared, is_committing, classify_committing, classify_committed,
  classify_restored_original, classify_restored_absence, is_rolling_back, rolling_back_as,
  classify_rolling_back, rolled_back_as, classify_rolled_back, classify_as, classify_recovery,
}
use srcmv.Fs.Errors.{ok}

location_eq→eq : (a b : LocationObservation) → location_eq a b ≡ true → a ≡ b
location_eq→eq original original h = refl
location_eq→eq candidate candidate h = refl
location_eq→eq absent absent h = refl
location_eq→eq unexpected unexpected h = refl
location_eq→eq original candidate h = cc
location_eq→eq original absent h = cc
location_eq→eq original unexpected h = cc
location_eq→eq candidate original h = cc
location_eq→eq candidate absent h = cc
location_eq→eq candidate unexpected h = cc
location_eq→eq absent original h = cc
location_eq→eq absent candidate h = cc
location_eq→eq absent unexpected h = cc
location_eq→eq unexpected original h = cc
location_eq→eq unexpected candidate h = cc
location_eq→eq unexpected absent h = cc

-- Whether one of the two locations is at this state.
abbrev pub holds_at : LocationObservation → LocationObservation → LocationObservation → Bool
holds_at state a b = location_eq a state || location_eq b state

holds_at-cases :
    (state a b : LocationObservation) → holds_at state a b ≡ true → (a ≡ state) ⊎ (b ≡ state)
holds_at-cases state a b h = elim (Bool-cases (location_eq a state)) [
  | inl here ↦ inl (location_eq→eq a state here)
  | inr elsewhere ↦ inr (location_eq→eq b state (ground arith))
]

is_committing-original :
    (kind : CommitKind) (observed : SyntheticTargetObservation)
    → is_committing true kind observed ≡ true
    → holds_at original observed.target observed.backup ≡ true
unfolding is_committing
is_committing-original untouched observed h = ground arith
is_committing-original backed_up observed h = ground arith
is_committing-original installed observed h = ground arith

is_committing-candidate :
    (existed : Bool) (kind : CommitKind) (observed : SyntheticTargetObservation)
    → is_committing existed kind observed ≡ true
    → holds_at candidate observed.target observed.candidate ≡ true
unfolding is_committing
is_committing-candidate true untouched observed h = ground arith
is_committing-candidate true backed_up observed h = ground arith
is_committing-candidate true installed observed h = ground arith
is_committing-candidate false untouched observed h = ground arith
is_committing-candidate false backed_up observed h = ground arith
is_committing-candidate false installed observed h = ground arith

rolling_back_as-original :
    (kind : RollbackKind) (observed : SyntheticTargetObservation)
    (disposition : RecoveryDisposition)
    → rolling_back_as kind true observed ≡ ok disposition
    → holds_at original observed.target observed.backup ≡ true
unfolding rolling_back_as is_rolling_back classify_restored_original classify_restored_absence
rolling_back_as-original not_restored observed disposition h = ground arith
rolling_back_as-original original_restored observed disposition h = ground arith
rolling_back_as-original absence_restored observed disposition h = ground arith

rolled_back_as-original :
    (kind : RollbackKind) (observed : SyntheticTargetObservation)
    (disposition : RecoveryDisposition)
    → rolled_back_as kind true observed ≡ ok disposition
    → holds_at original observed.target observed.backup ≡ true
unfolding rolled_back_as classify_restored_original classify_restored_absence
rolled_back_as-original not_restored observed disposition h = ground arith
rolled_back_as-original original_restored observed disposition h = ground arith
rolled_back_as-original absence_restored observed disposition h = ground arith

classify_as-original :
    (global : GlobalState) (recorded : TargetState) (observed : SyntheticTargetObservation)
    (disposition : RecoveryDisposition)
    → classify_as global true recorded observed ≡ ok disposition
    → holds_at original observed.target observed.backup ≡ true
unfolding classify_as classify_preparing classify_prepared classify_committing classify_committed
    classify_rolling_back classify_rolled_back
classify_as-original preparing recorded observed disposition h = ground arith
classify_as-original prepared recorded observed disposition h = ground arith
classify_as-original committing recorded observed disposition h =
    ground (arith, is_committing-original recorded.commit.kind observed)
classify_as-original committed recorded observed disposition h = ground arith
classify_as-original rolling_back recorded observed disposition h =
    rolling_back_as-original recorded.rollback.kind observed disposition h
classify_as-original rolled_back recorded observed disposition h =
    rolled_back_as-original recorded.rollback.kind observed disposition h

-- What each global state may allow.
abbrev pub disposition_of : GlobalState → RecoveryDisposition
disposition_of preparing = rollback_only
disposition_of prepared = completion_and_rollback
disposition_of committing = completion_and_rollback
disposition_of committed = cleanup_only
disposition_of rolling_back = rollback_only
disposition_of rolled_back = cleanup_only

rolling_back_as-disposition :
    (kind : RollbackKind) (existed : Bool) (observed : SyntheticTargetObservation)
    (disposition : RecoveryDisposition)
    → rolling_back_as kind existed observed ≡ ok disposition
    → disposition ≡ rollback_only
unfolding rolling_back_as is_rolling_back classify_restored_original classify_restored_absence
rolling_back_as-disposition not_restored existed observed disposition h = ground arith
rolling_back_as-disposition original_restored true observed disposition h = ground arith
rolling_back_as-disposition original_restored false observed disposition h = ground arith
rolling_back_as-disposition absence_restored true observed disposition h = ground arith
rolling_back_as-disposition absence_restored false observed disposition h = ground arith

rolled_back_as-disposition :
    (kind : RollbackKind) (existed : Bool) (observed : SyntheticTargetObservation)
    (disposition : RecoveryDisposition)
    → rolled_back_as kind existed observed ≡ ok disposition
    → disposition ≡ cleanup_only
unfolding rolled_back_as classify_restored_original classify_restored_absence
rolled_back_as-disposition not_restored true observed disposition h = ground arith
rolled_back_as-disposition not_restored false observed disposition h = ground arith
rolled_back_as-disposition original_restored true observed disposition h = ground arith
rolled_back_as-disposition original_restored false observed disposition h = ground arith
rolled_back_as-disposition absence_restored true observed disposition h = ground arith
rolled_back_as-disposition absence_restored false observed disposition h = ground arith

classify_as-disposition :
    (global : GlobalState) (existed : Bool) (recorded : TargetState)
    (observed : SyntheticTargetObservation) (disposition : RecoveryDisposition)
    → classify_as global existed recorded observed ≡ ok disposition
    → disposition ≡ disposition_of global
unfolding classify_as classify_preparing classify_prepared classify_committing classify_committed
    classify_rolling_back classify_rolled_back
classify_as-disposition preparing existed recorded observed disposition h = ground arith
classify_as-disposition prepared existed recorded observed disposition h = ground arith
classify_as-disposition committing existed recorded observed disposition h = ground arith
classify_as-disposition committed existed recorded observed disposition h = ground arith
classify_as-disposition rolling_back existed recorded observed disposition h =
    rolling_back_as-disposition recorded.rollback.kind existed observed disposition h
classify_as-disposition rolled_back existed recorded observed disposition h =
    rolled_back_as-disposition recorded.rollback.kind existed observed disposition h

classify_as-candidate :
    (global : GlobalState) (existed : Bool) (recorded : TargetState)
    (observed : SyntheticTargetObservation) (disposition : RecoveryDisposition)
    → classify_as global existed recorded observed ≡ ok disposition
    → disposition.complete ≡ true
    → holds_at candidate observed.target observed.candidate ≡ true
unfolding classify_as classify_prepared classify_committing
classify_as-candidate preparing existed recorded observed disposition h k =
    ground (arith, classify_as-disposition preparing existed recorded observed disposition h)
classify_as-candidate prepared existed recorded observed disposition h k = ground arith
classify_as-candidate committing existed recorded observed disposition h k =
    ground (arith, is_committing-candidate existed recorded.commit.kind observed)
classify_as-candidate committed existed recorded observed disposition h k =
    ground (arith, classify_as-disposition committed existed recorded observed disposition h)
classify_as-candidate rolling_back existed recorded observed disposition h k =
    ground (arith, classify_as-disposition rolling_back existed recorded observed disposition h)
classify_as-candidate rolled_back existed recorded observed disposition h k =
    ground (arith, classify_as-disposition rolled_back existed recorded observed disposition h)

classify_recovery-classify_as :
    (global : GlobalState) (existed : Bool) (recorded : TargetState)
    (observed : SyntheticTargetObservation) (disposition : RecoveryDisposition)
    → classify_recovery global existed recorded observed ≡ ok disposition
    → classify_as global existed recorded observed ≡ ok disposition
unfolding classify_recovery
classify_recovery-classify_as global existed recorded observed disposition h = ground arith

-- If any recovery action is allowed for a target that existed before the transaction, then its
-- original is still at the target path or at the backup name.
pub classify_recovery-original :
    (global : GlobalState) (recorded : TargetState) (observed : SyntheticTargetObservation)
    (disposition : RecoveryDisposition)
    → classify_recovery global true recorded observed ≡ ok disposition
    → (observed.target ≡ original) ⊎ (observed.backup ≡ original)
classify_recovery-original global recorded observed disposition h =
    holds_at-cases original observed.target observed.backup (
      classify_as-original global recorded observed disposition
        (classify_recovery-classify_as global true recorded observed disposition h))

-- If completion is allowed, then the candidate is at the target path or at its own name.
pub classify_recovery-candidate :
    (global : GlobalState) (existed : Bool) (recorded : TargetState)
    (observed : SyntheticTargetObservation) (disposition : RecoveryDisposition)
    → classify_recovery global existed recorded observed ≡ ok disposition
    → disposition.complete ≡ true
    → (observed.target ≡ candidate) ⊎ (observed.candidate ≡ candidate)
classify_recovery-candidate global existed recorded observed disposition h k =
    holds_at-cases candidate observed.target observed.candidate (
      classify_as-candidate global existed recorded observed disposition
        (classify_recovery-classify_as global existed recorded observed disposition h) k)

-- The actions that are allowed depend only on the global state: completion only when prepared or
-- committing, rollback only before commitment and while rolling back, cleanup only once committed
-- or rolled back.
pub classify_recovery-disposition_of :
    (global : GlobalState) (existed : Bool) (recorded : TargetState)
    (observed : SyntheticTargetObservation) (disposition : RecoveryDisposition)
    → classify_recovery global existed recorded observed ≡ ok disposition
    → disposition ≡ disposition_of global
classify_recovery-disposition_of global existed recorded observed disposition h =
    classify_as-disposition global existed recorded observed disposition
      (classify_recovery-classify_as global existed recorded observed disposition h)
