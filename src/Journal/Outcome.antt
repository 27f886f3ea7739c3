-- ===== src/Journal/Outcome.antt =====
-- How histories go on and end: the order of the global states, and the bound on their length.
use srcmv.Base.{length, ℕ, ◌+◌, ◌<◌, ◌≡◌, refl, Bool, true, false, not, List, [], ◌∷◌, arith}
use srcmv.Fs.Errors.{ok}
use srcmv.Recovery.State.{
  original_restored, absence_restored, TargetState, GlobalState, preparing, prepared, committing,
  committed, rolling_back, rolled_back,
}
use srcmv.Journal.State.{TransactionLimits, StateSnapshot, rollback_kind_eq→eq}
use srcmv.Journal.Shape.{
  all_of, is_not_restored, global_constraints, validate_global_constraints, validate_state_shape,
}
use srcmv.Journal.Transition.{
  is_allowed, fits_original, fit_originals, validate_state_against_originals,
}
use srcmv.Journal.History.{History, here, extend, validate_state_transition-Succeeds}

-- The global states that can follow, in any number of steps.
abbrev pub may_reach : GlobalState → GlobalState → Bool
may_reach preparing later = true
may_reach prepared preparing = false
may_reach prepared later = true
may_reach committing preparing = false
may_reach committing prepared = false
may_reach committing later = true
may_reach committed committed = true
may_reach committed later = false
may_reach rolling_back rolling_back = true
may_reach rolling_back rolled_back = true
may_reach rolling_back later = false
may_reach rolled_back rolled_back = true
may_reach rolled_back later = false

may_reach_refl : (global : GlobalState) → may_reach global global ≡ true
may_reach_refl preparing = refl
may_reach_refl prepared = refl
may_reach_refl committing = refl
may_reach_refl committed = refl
may_reach_refl rolling_back = refl
may_reach_refl rolled_back = refl

may_reach-is_allowed :
    (a b c : GlobalState) → may_reach a b ≡ true → is_allowed b c ≡ true → may_reach a c ≡ true
unfolding is_allowed
may_reach-is_allowed a b c h k = ground arith

History-sequence :
    {limits : TransactionLimits} {start state : StateSnapshot} {n : ℕ}
    → History limits start state n
    → state.sequence ≡ start.sequence + n
History-sequence here = omega arith
History-sequence (extend {state} {later} {n} history step) = omega (
  arith,
  History-sequence history,
  (validate_state_transition-Succeeds _ state later step).contiguous,
)

shape-sequence :
    (state : StateSnapshot) (limits : TransactionLimits)
    → validate_state_shape state limits ≡ ok tt
    → state.sequence < limits.state_records
unfolding validate_state_shape
shape-sequence state limits h = ground arith

-- The tail of the checks of `validate_state_shape`.
shape-global_constraints :
    (state : StateSnapshot) (limits : TransactionLimits)
    → validate_state_shape state limits ≡ ok tt
    → global_constraints state.global_state state.targets ≡ true
unfolding validate_state_shape validate_global_constraints
shape-global_constraints state limits h = ground arith

-- Along a chain of valid transitions the global states keep their order: nothing follows on a
-- committed or rolled back transaction but itself, a rollback never turns back into a commit, and
-- no state returns to an earlier phase.
pub History-may_reach :
    {limits : TransactionLimits} {start state : StateSnapshot} {n : ℕ}
    → History limits start state n
    → may_reach start.global_state state.global_state ≡ true
History-may_reach {start = start} here = may_reach_refl start.global_state
History-may_reach (extend {state} {later} history step) =
    may_reach-is_allowed _ state.global_state later.global_state (History-may_reach history)
      (validate_state_transition-Succeeds _ state later step).allowed

-- A chain of valid transitions from a state whose sequence is below the limit of records never
-- publishes more states than the limit leaves: the sequence of its first state and the number of
-- its transitions are together below the limit.
pub History-bounded :
    {limits : TransactionLimits} {start state : StateSnapshot} {n : ℕ}
    → start.sequence < limits.state_records
    → History limits start state n
    → start.sequence + n < limits.state_records
History-bounded room here = omega arith
History-bounded room (extend {state} {later} {n} history step) =
    let one = validate_state_transition-Succeeds _ state later step in
    omega (arith, History-sequence history, one.contiguous, shape-sequence later _ one.well_shaped)

-- The restoration that a target's original asks for.
abbrev pub IsRestored : Bool → TargetState → Type 0
IsRestored true target = target.rollback.kind ≡ original_restored
IsRestored false target = target.rollback.kind ≡ absence_restored

-- Every target with the existence of its original.
abbrev pub AllWith : {A B : Type 0} → (A → B → Type 0) → List A → List B → Type 0
AllWith R [] [] = Unit
AllWith R (x ∷ xs) (y ∷ ys) = R x y × AllWith R xs ys
AllWith R _ _ = ⊥

IsRestored-kind :
    (original_existed : Bool) (target : TargetState)
    → not (is_not_restored target) ≡ true
    → fits_original original_existed target ≡ true
    → IsRestored original_existed target
IsRestored-kind true target h k =
    rollback_kind_eq→eq target.rollback.kind original_restored (ground arith)
IsRestored-kind false target h k =
    rollback_kind_eq→eq target.rollback.kind absence_restored (ground arith)

IsRestored-all :
    (targets : List TargetState) (existed : List Bool)
    → length targets ≡ length existed
    → all_of (λ t. not (is_not_restored t)) targets ≡ true
    → fit_originals targets existed ≡ ok tt
    → AllWith (λ o t. IsRestored o t) existed targets
unfolding fit_originals
IsRestored-all [] [] same h k = tt
IsRestored-all [] (o ∷ existed) same h k = omega arith
IsRestored-all (t ∷ targets) [] same h k = omega arith
IsRestored-all (t ∷ targets) (o ∷ existed) same h k = (
  IsRestored-kind o t (ground arith) (ground arith),
  IsRestored-all targets existed (omega arith) (ground arith) (ground arith),
)

-- A well formed state that fits its originals and is `RolledBack` records for each target that
-- existed that the original is restored, and for each other that its absence is.
pub rolled_back-IsRestored :
    (state : StateSnapshot) (limits : TransactionLimits) (original_existence : List Bool)
    → validate_state_shape state limits ≡ ok tt
    → validate_state_against_originals state original_existence ≡ ok tt
    → state.global_state ≡ rolled_back
    → AllWith (λ o t. IsRestored o t) original_existence state.targets
unfolding global_constraints validate_state_against_originals
rolled_back-IsRestored state limits existed h k r =
    IsRestored-all state.targets existed (ground arith)
      (rw r at (shape-global_constraints state limits h)) (ground arith)
