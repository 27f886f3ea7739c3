-- ===== src/Transaction/Classified.antt =====
-- `classify_all_targets`: targets that pass can be completed and rolled back, one by one.
use srcmv.Base.{
  if◌then◌else◌, get_elem?, ℕ, zero, suc, ◌+◌, ◌≡◌, sym, Bool, some, List, [], ◌∷◌, arith, subst,
}
use srcmv.Recovery.State.{TargetState, committing, SyntheticTargetObservation, RecoveryDisposition}
use srcmv.Recovery.Classify.{
  completion_and_rollback, classify_committing, classify_as, classify_recovery,
}
use srcmv.Fs.Errors.{
  manifest_and_state_target_counts_match, recovery_action_not_allowed, internal_invariant, ok, err,
  ok_or, >>=-eq-ok,
}
use srcmv.Transaction.Manifest.{ManifestTarget}
use srcmv.Transaction.Filesystem.{Filesystem, FilesystemLaws}
use srcmv.Transaction.Run.{World}
use srcmv.Transaction.Commit.{ok_or-some}
use srcmv.Transaction.Observe.{
  observe_target, RecoveryMode, mode_allows, mode_refusal, classify_all_targets,
}
use srcmv.Transaction.Assertions.{sight, Recoverable, observe_target-sight}

committing-disposition :
    (existed : Bool) (r : TargetState) (observed : SyntheticTargetObservation)
    (disposition : RecoveryDisposition)
    → classify_recovery committing existed r observed ≡ ok disposition
    → classify_recovery committing existed r observed ≡ ok completion_and_rollback
unfolding classify_recovery classify_as classify_committing
committing-disposition existed r observed disposition h = ground arith

module _ {W : Type 0} (fs : Filesystem W) (laws : FilesystemLaws W fs) where
  -- The target at one index is recorded, and its completion and rollback are allowed.
  abbrev Classified : List TargetState → ℕ → ManifestTarget → W → Type 0
  Classified states index target w =
      (r : TargetState) × (get_elem? states index ≡ some r)
      × (classify_recovery committing target.original_existed r (sight fs laws target index r w)
          ≡ ok completion_and_rollback)

  classify_all-cons :
      (mode : RecoveryMode) (states : List TargetState) (index : ℕ) (target : ManifestTarget)
      (targets : List ManifestTarget) (w : W)
      → classify_all_targets fs mode committing states index (target ∷ targets) w ≡ ok tt
      → Classified states index target w
        × (classify_all_targets fs mode committing states (index + 1) targets w ≡ ok tt)
  unfolding classify_all_targets
  classify_all-cons mode states index target targets w h =
      let (r, known, h1) =
        >>=-eq-ok
          (ok_or (internal_invariant manifest_and_state_target_counts_match)
            (get_elem? states index))
          _ h in
      let (a, paths, h2) = >>=-eq-ok (fs.target_paths index w) _ h1 in
      let (observed, seen, h3) = >>=-eq-ok (observe_target fs target index r committing w) _ h2 in
      let (disposition, classified, h4) =
        >>=-eq-ok (classify_recovery committing target.original_existed r observed) _ h3 in
      let (b, allowed, h5) =
        >>=-eq-ok
          (if mode_allows mode disposition
            then ok tt
            else err (recovery_action_not_allowed (mode_refusal mode)))
          _ h4 in
      let same = observe_target-sight fs laws target index r w observed seen in
      (
        (
          r,
          ok_or-some (internal_invariant manifest_and_state_target_counts_match)
              (get_elem? states index) known,
          committing-disposition target.original_existed r (sight fs laws target index r w)
              disposition
              (subst
                (λ o. classify_recovery committing target.original_existed r o ≡ ok disposition)
                same classified),
        ),
        h5,
      )

  classify_all-each :
      (mode : RecoveryMode) (states : List TargetState) (index : ℕ) (targets : List ManifestTarget)
      (w : W)
      → classify_all_targets fs mode committing states index targets w ≡ ok tt
      → (i : ℕ) (target : ManifestTarget) → get_elem? targets i ≡ some target
      → Classified states (index + i) target w
  classify_all-each mode states index [] w h i target found = cc
  classify_all-each mode states index (t ∷ targets) w h zero target found =
      let same : t ≡ target = cc in
      let here : index + 0 ≡ index = omega arith in
      rw (here, sym same) (classify_all-cons mode states index t targets w h).0
  classify_all-each mode states index (t ∷ targets) w h (suc i) target found =
      let next : index + suc i ≡ index + 1 + i = omega arith in
      rw next (
        classify_all-each mode states (index + 1) targets w
          (classify_all-cons mode states index t targets w h).1 i target found)

-- If the classification of all targets succeeds in the state `Committing`, for completion or for
-- rollback, then every target of the manifest is recorded, and recovery allows its completion and
-- its rollback with what is at its locations.
pub classify_all_targets-Recoverable :
    {W : Type 0} (fs : Filesystem W) (laws : FilesystemLaws W fs) (mode : RecoveryMode)
    (targets : List ManifestTarget) (w : World W) (index : ℕ) (target : ManifestTarget)
    → w.progress.state.global_state ≡ committing
    → classify_all_targets fs mode w.progress.state.global_state w.progress.state.targets 0 targets
        w.files
      ≡ ok tt
    → get_elem? targets index ≡ some target
    → Recoverable fs laws target index w
classify_all_targets-Recoverable fs laws mode targets w index target globals h found =
    let start : 0 + index ≡ index = omega arith in
    let each =
      classify_all-each fs laws mode w.progress.state.targets 0 targets w.files (rw globals at h)
        index target found in
    let (r, known, allowed) =
      subst (λ i. Classified fs laws w.progress.state.targets i target w.files) start each in
    record { recorded = r; found = known; is_committed_to = globals; allowed = allowed }
