-- ===== src/Transaction/CommitSteps.antt =====
-- crates/srcmv-fs/src/transaction.rs: `complete_commit_steps`, over all targets of a manifest.
use srcmv.Base.{ℕ, ◌+◌, List, [], ◌∷◌}
use srcmv.Recovery.State.{committed}
use srcmv.Journal.Publish.{Formats}
use srcmv.Transaction.Manifest.{ManifestTarget}
use srcmv.Transaction.Filesystem.{at_target, Filesystem}
use srcmv.Transaction.Run.{Run, ◌>>=◌, ◌>>◌, pure, ask}
use srcmv.Transaction.Observe.{complete_mode, classify_all_targets}
use srcmv.Transaction.Steps.{publish_global_transition, verified_candidate, complete_target}

module _ {W : Type 0} (fs : Filesystem W) (formats : Formats) where
  -- The loop that completes the targets.
  unfoldable pub complete_targets : ℕ → List ManifestTarget → Run W (Unit {0})
  complete_targets index [] = pure tt
  complete_targets index (target ∷ targets) = do
    complete_target fs formats target index
    complete_targets (index + 1) targets

  -- The loop of the final verification.
  unfoldable pub verify_targets : ℕ → List ManifestTarget → Run W (Unit {0})
  verify_targets index [] = pure tt
  verify_targets index (target ∷ targets) = do
    ask (λ world. fs.target_paths index world.files)
    _ ← verified_candidate fs formats (index, at_target) target index
    verify_targets (index + 1) targets

  -- `complete_commit_steps`.
  unfoldable pub complete_commit_steps : List ManifestTarget → Run W (Unit {0})
  unfolding complete_targets verify_targets
  complete_commit_steps targets = do
    ask (λ world.
        classify_all_targets fs complete_mode world.progress.state.global_state
          world.progress.state.targets 0 targets world.files)
    ask (λ world. fs.revalidate_control world.files)
    complete_targets 0 targets
    verify_targets 0 targets
    publish_global_transition fs formats committed
