-- ===== src/Journal/History.antt =====
-- Histories of valid transitions: what every later state keeps of an earlier one.
use srcmv.Base.{
  leb, ◌==◌, if◌then◌else◌, ==_iff, Bool-cases, length, ℕ, suc, ◌+◌, ◌≤◌, ◌≡◌, refl, ◌∙◌, ◌⊎◌, inl,
  inr, true, List, [], ◌∷◌, arith,
}
use srcmv.Fs.Errors.{
  state_sequence_overflow, state_sequence_not_contiguous, invalid_global_state_transition,
  state_target_count_changed, state_target_order_changed, ok, err, >>=-eq-ok,
}
use srcmv.Recovery.State.{missing, ready, not_restored, TargetState, GlobalState}
use srcmv.Recovery.Lag.{commit_rank}
use srcmv.Journal.State.{
  TransactionLimits, StateSnapshot, corrupt, rollback_kind_eq, candidate_eq, candidate_kind_eq→eq,
  rollback_kind_eq→eq, candidate_eq→eq, rollback_eq→eq,
}
use srcmv.Journal.Shape.{validate_state_shape}
use srcmv.Journal.Transition.{
  is_allowed, validate_target_progress, validate_progress, validate_state_transition_with_limits,
}

-- What one target keeps: a ready candidate, its commit progress, and a restoration.
pub record Progressed (before after : TargetState) : Type 0 where
  pub same_index : before.target_index ≡ after.target_index
  pub candidate_kept :
      (before.candidate ≡ after.candidate)
      ⊎ ((before.candidate.kind ≡ missing) × (after.candidate.kind ≡ ready))
  pub commit_kept : commit_rank before.commit.kind ≤ commit_rank after.commit.kind
  pub rollback_kept : (before.rollback.kind ≡ not_restored) ⊎ (before.rollback ≡ after.rollback)

-- The targets of two states, in step.
abbrev pub AllProgressed : List TargetState → List TargetState → Type 0
AllProgressed [] [] = Unit
AllProgressed (b ∷ before) (a ∷ after) = Progressed b a × AllProgressed before after
AllProgressed _ _ = ⊥

-- A chain of transitions that each pass the validation, and its length.
pub data History (limits : TransactionLimits) (start : StateSnapshot)
    : StateSnapshot → ℕ → Type 0 where
  here : History limits start start 0
  extend :
      {state later : StateSnapshot} {n : ℕ}
      → History limits start state n
      → validate_state_transition_with_limits state later limits ≡ ok tt
      → History limits start later (suc n)

validate_target_progress-Progressed :
    (before after : TargetState) (global : GlobalState)
    → before.target_index ≡ after.target_index
    → validate_target_progress before after global ≡ ok tt
    → Progressed before after
unfolding validate_target_progress
validate_target_progress-Progressed before after global same h = record {
  same_index = same;
  candidate_kept = elim (Bool-cases (candidate_eq before.candidate after.candidate)) [
    | inl kept ↦ inl (candidate_eq→eq before.candidate after.candidate kept)
    | inr moved ↦ inr (
      candidate_kind_eq→eq before.candidate.kind missing (ground arith),
      candidate_kind_eq→eq after.candidate.kind ready (ground arith),
    )
  ];
  commit_kept = ground arith;
  rollback_kept = elim (Bool-cases (rollback_kind_eq before.rollback.kind not_restored)) [
    | inl fresh ↦ inl (rollback_kind_eq→eq before.rollback.kind not_restored fresh)
    | inr restored ↦ inr (rollback_eq→eq before.rollback after.rollback (ground arith))
  ];
}

Progressed-refl : (target : TargetState) → Progressed target target
Progressed-refl target = record {
  same_index = refl;
  candidate_kept = inl refl;
  commit_kept = omega arith;
  rollback_kept = inr refl;
}

Progressed-trans : (a b c : TargetState) → Progressed a b → Progressed b c → Progressed a c
Progressed-trans a b c p q = record {
  same_index = p.same_index ∙ q.same_index;
  candidate_kept = ground (arith, p.candidate_kept, q.candidate_kept);
  commit_kept = omega (arith, p.commit_kept, q.commit_kept);
  rollback_kept = ground (arith, p.rollback_kept, q.rollback_kept);
}

AllProgressed-refl : (targets : List TargetState) → AllProgressed targets targets
AllProgressed-refl [] = tt
AllProgressed-refl (t ∷ targets) = (Progressed-refl t, AllProgressed-refl targets)

AllProgressed-trans :
    (a b c : List TargetState) → AllProgressed a b → AllProgressed b c → AllProgressed a c
AllProgressed-trans [] [] [] p q = tt
AllProgressed-trans (x ∷ a) (y ∷ b) (z ∷ c) (p, ps) (q, qs) =
    (Progressed-trans x y z p q, AllProgressed-trans a b c ps qs)
AllProgressed-trans [] [] (z ∷ c) p q = absurd q
AllProgressed-trans [] (y ∷ b) c p q = absurd p
AllProgressed-trans (x ∷ a) [] c p q = absurd p
AllProgressed-trans (x ∷ a) (y ∷ b) [] p q = absurd q

validate_progress-AllProgressed :
    (before after : List TargetState) (global : GlobalState)
    → length before ≡ length after
    → validate_progress before after global ≡ ok tt
    → AllProgressed before after
unfolding validate_progress
validate_progress-AllProgressed [] [] global same h = tt
validate_progress-AllProgressed [] (a ∷ after) global same h = omega arith
validate_progress-AllProgressed (b ∷ before) [] global same h = omega arith
validate_progress-AllProgressed (b ∷ before) (a ∷ after) global same h =
    let (one, indexes, h1) =
      >>=-eq-ok
        (if b.target_index == a.target_index
          then ok tt
          else err (corrupt state_target_order_changed))
        _ h in
    let (two, progress, h2) = >>=-eq-ok (validate_target_progress b a global) _ h1 in
    (
      validate_target_progress-Progressed b a global
          (ground (arith, ==_iff b.target_index a.target_index)) progress,
      validate_progress-AllProgressed before after global (omega arith) h2,
    )

-- What one valid transition says.
pub record Succeeds (limits : TransactionLimits) (previous next : StateSnapshot) : Type 0 where
  pub well_shaped : validate_state_shape next limits ≡ ok tt
  pub contiguous : next.sequence ≡ previous.sequence + 1
  pub allowed : is_allowed previous.global_state next.global_state ≡ true
  pub progressed : AllProgressed previous.targets next.targets

pub validate_state_transition-Succeeds :
    (limits : TransactionLimits) (previous next : StateSnapshot)
    → validate_state_transition_with_limits previous next limits ≡ ok tt
    → Succeeds limits previous next
unfolding validate_state_transition_with_limits
validate_state_transition-Succeeds limits previous next h =
    let (a, shape, h1) = >>=-eq-ok (validate_state_shape previous limits) _ h in
    let (b, shape', h2) = >>=-eq-ok (validate_state_shape next limits) _ h1 in
    let (c, room, h3) =
      >>=-eq-ok
        (if leb 18446744073709551615 previous.sequence
          then err (corrupt state_sequence_overflow)
          else ok tt)
        _ h2 in
    let (d, step, h4) =
      >>=-eq-ok
        (if next.sequence == previous.sequence + 1
          then ok tt
          else err (corrupt state_sequence_not_contiguous))
        _ h3 in
    let (e, edge, h5) =
      >>=-eq-ok
        (if is_allowed previous.global_state next.global_state
          then ok tt
          else err (corrupt invalid_global_state_transition))
        _ h4 in
    let (f, count, h6) =
      >>=-eq-ok
        (if length previous.targets == length next.targets
          then ok tt
          else err (corrupt state_target_count_changed))
        _ h5 in
    record {
      well_shaped = shape';
      contiguous = ground arith;
      allowed = ground arith;
      progressed =
          validate_progress-AllProgressed previous.targets next.targets next.global_state
            (ground arith) h6;
    }

-- Along a chain of valid transitions each target keeps its index; its candidate stays as it is or
-- goes from missing to ready, its commit progress never goes back, and a restoration that is
-- recorded never changes.
pub History-AllProgressed :
    {limits : TransactionLimits} {start state : StateSnapshot} {n : ℕ}
    → History limits start state n
    → AllProgressed start.targets state.targets
History-AllProgressed here = AllProgressed-refl _
History-AllProgressed (extend {state} {later} history step) =
    AllProgressed-trans _ state.targets _ (History-AllProgressed history)
      (validate_state_transition-Succeeds _ state later step).progressed
