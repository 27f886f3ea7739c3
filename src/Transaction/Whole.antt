-- ===== src/Transaction/Whole.antt =====
-- `complete_commit_steps`: the loops over the targets, and the commit.
use srcmv.Base.{
  ◌==◌, ==_iff, Bool-cases, length, get_elem?, All, ℕ, zero, suc, ◌+◌, ◌<◌, ◌≡◌, refl, sym, ap, ◌∙◌,
  ◌≢◌, ◌⊎◌, inl, inr, some, List, [], ◌∷◌, arith, subst,
}
use srcmv.Recovery.State.{installed, committing, committed}
use srcmv.Fs.Errors.{
  state_target_index_exists, internal_invariant, FsResult, ok, err, ok_or, ok_injective,
}
use srcmv.Journal.Publish.{Formats}
use srcmv.Transaction.Manifest.{ManifestTarget}
use srcmv.Transaction.Filesystem.{at_target, Filesystem, FilesystemLaws}
use srcmv.Transaction.Run.{World, ask}
use srcmv.Transaction.Observe.{verify_candidate_location, complete_mode, classify_all_targets}
use srcmv.Transaction.Steps.{
  publish_global_transition, recorded_at, verified_candidate, complete_target,
}
use srcmv.Transaction.Assertions.{Recoverable, Reached-Recoverable}
use srcmv.Transaction.Hoare.{Post, Keeps, >>=-Keeps, ask-Keeps}
use srcmv.Transaction.Facts.{publish-Keeps}
use srcmv.Transaction.Commit.{installed-Stage}
use srcmv.Transaction.Classified.{classify_all_targets-Recoverable}
use srcmv.Transaction.CommitSteps.{complete_targets, verify_targets, complete_commit_steps}
use srcmv.Transaction.Frame.{Untouched, complete_target_leaves}
use srcmv.Transaction.Complete.{complete_target-Recoverable}
use srcmv.Transaction.Targets.{
  Each, All-Each, All-imply, Installed, CommittedTarget, Installed-CommittedTarget,
  Untouched-Recoverable, Untouched-Installed,
}

module _ {W : Type 0} (fs : Filesystem W) (laws : FilesystemLaws W fs) (formats : Formats)
    (targets : List ManifestTarget) where
  -- Recovery allows completion and rollback of every target, or all are committed.
  abbrev pub CanRecover : World W → Type 0
  CanRecover w = Each (Recoverable fs laws) targets w ⊎ Each (CommittedTarget fs laws) targets w

  -- The targets before `k` are installed.
  abbrev Before : ℕ → World W → Type 0
  Before k = Each (λ t i w. Recoverable fs laws t i w × (i < k → Installed fs laws t i w)) targets

  Installed-Recoverable :
      (target : ManifestTarget) (i : ℕ) (w : World W)
      → Installed fs laws target i w
      → Recoverable fs laws target i w
  Installed-Recoverable target i w held =
      Reached-Recoverable fs laws target i w
        (installed, held, installed-Stage fs laws formats target i target.original_existed)

  -- What a run on the target `k` returns for it, and what it leaves of the others.
  one-Post :
      (k : ℕ) (target : ManifestTarget) (before : World W)
      → get_elem? targets k ≡ some target
      → Before k before
      → (value : FsResult (Unit {0})) (w : World W) → Post (λ _. Installed fs laws target k) value w
      → ((j : ℕ) → j ≢ k → Post (λ _. Untouched fs laws formats j before) value w)
      → Post (λ _. Before (k + 1)) value w
  one-Post k target before found earlier (err e) w own others = tt
  one-Post k target before found earlier (ok a) w own others = λ i t found_i.
      elim (Bool-cases (i == k)) [
        | inl same ↦
            let at_k : i ≡ k = ground (arith, ==_iff i k) in
            let it : target ≡ t = cc in
            let held : Installed fs laws t i w = rw (at_k, sym it) own in
            (Installed-Recoverable t i w held, λ _. held)
        | inr other ↦
            let away : i ≢ k = ground (arith, ==_iff i k) in
            let kept = others i away in
            let (safe, done) = earlier i t found_i in
            (
              Untouched-Recoverable fs laws formats t i before w kept safe,
              λ below.
                  Untouched-Installed fs laws formats t i before w kept
                    (done (omega (arith, below, away))),
            )
      ]

  one-Keeps :
      (k : ℕ) (target : ManifestTarget)
      → get_elem? targets k ≡ some target
      → Keeps CanRecover (Before k) (complete_target fs formats target k) (λ _. Before (k + 1))
  one-Keeps k target found w earlier =
      let ran = complete_target fs formats target k w in
      let safe = (earlier k target found).0 in
      let (trace, own) = complete_target-Recoverable fs laws formats target k w safe in
      let globals = safe.is_committed_to in
      let frame : (j : ℕ)
          → j ≢ k
          → All (Untouched fs laws formats j w) ran.trace
            × Post (λ _. Untouched fs laws formats j w) ran.value ran.world =
        λ j away.
          complete_target_leaves fs laws formats target k j away w w
            (record { same_record = refl; stays = globals; same_contents = λ p. refl }) in
      let each : (i : ℕ) (t : ManifestTarget)
          → get_elem? targets i ≡ some t
          → All (Recoverable fs laws t i) ran.trace =
        λ i t found_i. elim (Bool-cases (i == k)) [
          | inl same ↦
              let at_k : i ≡ k = ground (arith, ==_iff i k) in
              let it : target ≡ t = cc in rw (at_k, sym it) trace
          | inr other ↦
              let away : i ≢ k = ground (arith, ==_iff i k) in
              All-imply (Untouched fs laws formats i w) (Recoverable fs laws t i) ran.trace
                (λ v kept.
                  Untouched-Recoverable fs laws formats t i w v kept (earlier i t found_i).0)
                (frame i away).0
        ] in
      (
        All-imply (Each (Recoverable fs laws) targets) CanRecover ran.trace
            (λ v each_safe. inl each_safe) (All-Each (Recoverable fs laws) targets ran.trace each),
        one-Post k target w found earlier ran.value ran.world own (λ j away. (frame j away).1),
      )

  abbrev IsSuffix : ℕ → List ManifestTarget → Type 0
  IsSuffix k rest = (i : ℕ) → get_elem? rest i ≡ get_elem? targets (k + i)

  suffix-next :
      (k : ℕ) (target : ManifestTarget) (rest : List ManifestTarget)
      → IsSuffix k (target ∷ rest)
      → IsSuffix (k + 1) rest
  suffix-next k target rest h i =
      let next : k + suc i ≡ k + 1 + i = omega arith in h (suc i) ∙ ap (get_elem? targets) next

  complete_targets-Keeps :
      (k : ℕ) (rest : List ManifestTarget)
      → IsSuffix k rest
      → Keeps CanRecover
          (Before k)
          (complete_targets fs formats k rest)
          (λ _. Before (k + length rest))
  unfolding complete_targets
  complete_targets-Keeps k [] h = λ w p. (tt, (let e : k + 0 ≡ k = omega arith in rw e p))
  complete_targets-Keeps k (target ∷ rest) h =
      let here : k + 0 ≡ k = omega arith in
      let found : get_elem? targets k ≡ some target = sym (h 0 ∙ ap (get_elem? targets) here) in
      let later = complete_targets-Keeps (k + 1) rest (suffix-next k target rest h) in
      let ends : k + 1 + length rest ≡ k + suc (length rest) = omega arith in
      >>=-Keeps CanRecover (Before k) (λ _. Before (k + 1)) (λ _. Before (k + suc (length rest)))
        (complete_target fs formats target k) (λ _. complete_targets fs formats (k + 1) rest)
        (one-Keeps k target found)
        (λ _.
          subst
            (λ n.
              Keeps CanRecover (Before (k + 1)) (complete_targets fs formats (k + 1) rest)
                (λ _. Before n))
            ends later)

  quiet :
      {T : Type 0} (P : World W → Type 0) (question : World W → FsResult T)
      → Keeps CanRecover P (ask question) (λ _. P)
  quiet P question = ask-Keeps CanRecover P (λ _. P) question λ w a p h. p

  verify_targets-Keeps :
      (P : World W → Type 0) (k : ℕ) (rest : List ManifestTarget)
      → Keeps CanRecover P (verify_targets fs formats k rest) (λ _. P)
  unfolding verify_targets
  verify_targets-Keeps P k [] = λ w p. (tt, p)
  verify_targets-Keeps P k (target ∷ rest) =
      let later = verify_targets-Keeps P (k + 1) rest in
      >>=-Keeps CanRecover P (λ _. P) (λ _. P) (ask (λ w. fs.target_paths k w.files)) _
        (quiet P (λ w. fs.target_paths k w.files))
        λ _.
          >>=-Keeps CanRecover P (λ _. P) (λ _. P)
            (verified_candidate fs formats (k, at_target) target k)
            (λ _. verify_targets fs formats (k + 1) rest)
            (>>=-Keeps CanRecover P (λ _. P) (λ _. P) (recorded_at fs formats k)
              (λ r. ask (λ w. verify_candidate_location fs (k, at_target) target r w.files))
              (quiet P (λ w.
                ok_or (internal_invariant state_target_index_exists)
                  (get_elem? w.progress.state.targets k)))
              (λ r. quiet P (λ w. verify_candidate_location fs (k, at_target) target r w.files)))
            (λ _. later)

  -- The publication of `Committed`.
  commit-Keeps :
      (n : ℕ)
      → ((i : ℕ) (t : ManifestTarget) → get_elem? targets i ≡ some t → i < n)
      → Keeps CanRecover
          (Before n)
          (publish_global_transition fs formats committed)
          (λ _. Each (CommittedTarget fs laws) targets)
  commit-Keeps n below =
      publish-Keeps fs formats CanRecover committed ok (Before n)
        (Each (CommittedTarget fs laws) targets)
        λ w after p same globals written.
          let targets_same =
            sym (ok_injective w.progress.state.targets after.progress.state.targets same) in
          let kept = laws.publish_keeps after.progress.state.sequence w.files after.files written in
          let all : Each (CommittedTarget fs laws) targets after = λ i t found.
            Installed-CommittedTarget fs laws t i w after ((p i t found).1 (below i t found))
              targets_same globals kept in
          (inr all, all)

  index_below :
      (rest : List ManifestTarget) (i : ℕ) (t : ManifestTarget)
      → get_elem? rest i ≡ some t
      → i < length rest
  index_below [] i t found = cc
  index_below (x ∷ rest) zero t found = omega arith
  index_below (x ∷ rest) (suc i) t found = omega (arith, index_below rest i t found)

  complete_commit_steps-Keeps :
      Keeps CanRecover
        (λ w. w.progress.state.global_state ≡ committing)
        (complete_commit_steps fs formats targets)
        (λ _. Each (CommittedTarget fs laws) targets)
  unfolding complete_commit_steps
  complete_commit_steps-Keeps =
      >>=-Keeps CanRecover (λ w. w.progress.state.global_state ≡ committing) (λ _. Before 0)
        (λ _. End)
        (ask (λ w.
          classify_all_targets fs complete_mode w.progress.state.global_state
            w.progress.state.targets 0 targets w.files))
        _
        (ask-Keeps CanRecover (λ w. w.progress.state.global_state ≡ committing) (λ _. Before 0)
          (λ w.
            classify_all_targets fs complete_mode w.progress.state.global_state
              w.progress.state.targets 0 targets w.files)
          (λ w a globals h i t found. (
            classify_all_targets-Recoverable fs laws complete_mode targets w i t globals h found,
            λ below. absurd (omega (arith, below)),
          )))
        λ _.
          >>=-Keeps CanRecover (Before 0) (λ _. Before 0) (λ _. End)
            (ask (λ w. fs.revalidate_control w.files)) _
            (quiet (Before 0) (λ w. fs.revalidate_control w.files))
            λ _.
              >>=-Keeps CanRecover (Before 0) (λ _. Before (0 + length targets)) (λ _. End)
                (complete_targets fs formats 0 targets) _ (complete_targets-Keeps 0 targets whole)
                λ _.
                  >>=-Keeps CanRecover (Before (0 + length targets))
                    (λ _. Before (0 + length targets)) (λ _. End)
                    (verify_targets fs formats 0 targets)
                    (λ _. publish_global_transition fs formats committed)
                    (verify_targets-Keeps (Before (0 + length targets)) 0 targets)
                    λ _.
                      commit-Keeps (0 + length targets)
                        (λ i t found. omega (arith, index_below targets i t found))
    where
      End : World W → Type 0
      End = Each (CommittedTarget fs laws) targets

      whole : IsSuffix 0 targets
      whole i = let e : 0 + i ≡ i = omega arith in rw e

-- Started in the state `Committing`, whatever is on the disk, `complete_commit_steps` passes,
-- after each rename, mode change and publication and whichever call fails, only worlds in which
-- either recovery allows completion and rollback of every target of the manifest, or every target
-- is committed; and if it returns without an error, then the state is `Committed`, and each target
-- is recorded as installed, its candidate is at the target path, its own name is free, the backup
-- name has the original, if there was one, and is free otherwise, and recovery allows only the
-- cleanup. The calls that change files are assumed to do what they document.
pub complete_commit_steps-CanRecover :
    {W : Type 0} (fs : Filesystem W) (laws : FilesystemLaws W fs) (formats : Formats)
    (targets : List ManifestTarget) (w : World W)
    → w.progress.state.global_state ≡ committing
    → let ran = complete_commit_steps fs formats targets w in
      All (CanRecover fs laws formats targets) ran.trace
      × Post (λ _. Each (CommittedTarget fs laws) targets) ran.value ran.world
complete_commit_steps-CanRecover fs laws formats targets =
    complete_commit_steps-Keeps fs laws formats targets
