-- ===== src/Transaction/Steps.antt =====
-- crates/srcmv-fs/src/transaction.rs: publishing a state, completing and rolling back one target.
use srcmv.Base.{leb, if◌then◌else◌, get_elem?, Bytes, ℕ, zero, suc, ◌+◌, some, List, [], ◌∷◌}
use srcmv.Fs.Errors.{
  state_target_index_exists, state_sequence_checked, new_target_has_recorded_mode,
  internal_invariant, FsResult, ok, err, ok_or,
}
use srcmv.Recovery.State.{
  PersistedIdentity, untouched, backed_up, installed, TargetState, GlobalState, committing,
  original, candidate, SyntheticTargetObservation,
}
use srcmv.Recovery.Classify.{location_eq}
use srcmv.Journal.State.{StateSnapshot, commit_kind_eq}
use srcmv.Journal.Publish.{TransactionJournal, Formats, publish_state}
use srcmv.Transaction.Manifest.{ManifestTarget, Fingerprint}
use srcmv.Transaction.Filesystem.{at_target, at_candidate, at_backup, Location, Filesystem}
use srcmv.Transaction.Run.{Progress, World, Ran, Run, ◌>>=◌, ◌>>◌, pure, ask, effect}
use srcmv.Transaction.Observe.{observe_target, verify_original_location, verify_candidate_location}

-- `publish_transition` up to the call of the journal.
abbrev pub next_state :
    GlobalState
    → (List TargetState → FsResult (List TargetState))
    → Progress
    → FsResult StateSnapshot
next_state global update progress =
    if leb 18446744073709551615 progress.state.sequence
    then err (internal_invariant state_sequence_checked)
    else elim (update progress.state.targets) [
      | err e ↦ err e
      | ok targets ↦ ok (record progress.state {
        sequence = progress.state.sequence + 1;
        prior_state_checksum = some progress.checksum;
        global_state = global;
        targets = targets;
      })
    ]

-- `targets.get_mut(target_index)`, and the update through it.
unfoldable pub update_at :
    ℕ → (TargetState → TargetState) → List TargetState → FsResult (List TargetState)
update_at index update [] = err (internal_invariant state_target_index_exists)
update_at zero update (target ∷ targets) = ok (update target ∷ targets)
update_at (suc index) update (target ∷ targets) = elim (update_at index update targets) [
  | err e ↦ err e
  | ok rest ↦ ok (target ∷ rest)
]

abbrev pub outcome : {W : Type 0} → FsResult W → FsResult (Unit {0})
outcome (err e) = err e
outcome (ok w) = ok tt

abbrev pub files_after : {W : Type 0} → W → FsResult W → W
files_after w (err e) = w
files_after w (ok after) = after

module _ {W : Type 0} (fs : Filesystem W) (formats : Formats) where
  abbrev pub published_as :
      StateSnapshot → W → World W → FsResult (TransactionJournal × Bytes) → Ran W (Unit {0})
  published_as next files world (err e) = record { trace = []; value = err e; world = world }
  published_as next files world (ok (journal, checksum)) =
      let after : World W = record {
        files = files;
        journal = journal;
        progress = record { state = next; checksum = checksum };
      } in
      record { trace = after ∷ []; value = ok tt; world = after }

  abbrev pub published_next : World W → FsResult StateSnapshot → Ran W (Unit {0})
  published_next world (err e) = record { trace = []; value = err e; world = world }
  published_next world (ok next) =
      let written = fs.publish_record next.sequence world.files in
      published_as next (files_after world.files written) world
        (publish_state formats (outcome written) world.journal next)

  -- `publish_transition`.
  unfoldable pub publish_transition :
      GlobalState → (List TargetState → FsResult (List TargetState)) → Run W (Unit {0})
  publish_transition global update world =
      published_next world (next_state global update world.progress)

  -- `publish_global_transition` and `publish_target_transition`.
  abbrev pub publish_global_transition : GlobalState → Run W (Unit {0})
  publish_global_transition global = publish_transition global ok

  abbrev pub publish_target_transition :
      GlobalState → ℕ → (TargetState → TargetState) → Run W (Unit {0})
  publish_target_transition global index update = publish_transition global (update_at index update)

  abbrev pub recorded_at : ℕ → Run W TargetState
  recorded_at index = ask λ world.
      ok_or (internal_invariant state_target_index_exists)
        (get_elem? world.progress.state.targets index)

  abbrev pub observed_at : ManifestTarget → ℕ → TargetState → Run W SyntheticTargetObservation
  observed_at target index recorded =
      ask λ world.
        observe_target fs target index recorded world.progress.state.global_state world.files

  abbrev pub verified_candidate : Location → ManifestTarget → ℕ → Run W Fingerprint
  verified_candidate location target index = do
    recorded ← recorded_at index
    ask (λ world. verify_candidate_location fs location target recorded world.files)

  abbrev pub verified_original : Location → ManifestTarget → Run W Fingerprint
  verified_original location target =
      ask (λ world. verify_original_location fs location target world.files)

  abbrev pub set_installed : PersistedIdentity → TargetState → TargetState
  set_installed identity state = record state {
    commit = record state.commit { kind = installed; identity = some identity };
  }

  abbrev pub set_backed_up : PersistedIdentity → ℕ → TargetState → TargetState
  set_backed_up identity mode state = record state {
    commit = record { kind = backed_up; identity = some identity; preserved_mode = some mode };
  }

  -- `publish_installed`.
  unfoldable pub publish_installed : ℕ → PersistedIdentity → Run W (Unit {0})
  publish_installed index identity = do
    recorded ← recorded_at index
    if commit_kind_eq recorded.commit.kind installed
        then pure tt
        else publish_target_transition committing index (set_installed identity)

  -- The backup of an original, and its record.
  unfoldable pub back_up : ManifestTarget → ℕ → SyntheticTargetObservation → Run W (Unit {0})
  back_up target index observed = do
    (if location_eq observed.backup original then pure tt else do
      effect (fs.rename (index, at_target) (index, at_backup))
      ask (λ world. fs.sync world.files)
      ask (λ world. fs.sync world.files)
      _ ← verified_original (index, at_backup) target
      pure tt)
    preserved_mode ← ask (λ world. fs.mode_of (index, at_backup) world.files)
    effect (fs.set_mode (index, at_candidate) preserved_mode)
    recorded ← recorded_at index
    if commit_kind_eq recorded.commit.kind untouched
        then (do
          backup ← verified_original (index, at_backup) target
          publish_target_transition committing index (set_backed_up backup.identity preserved_mode))
        else pure tt

  -- The mode of a file that is created.
  unfoldable pub prepare_new : ManifestTarget → ℕ → Run W (Unit {0})
  prepare_new target index = do
    mode ←
        ask (λ world. ok_or (internal_invariant new_target_has_recorded_mode) target.new_file_mode)
    effect (fs.set_mode (index, at_candidate) mode)

  -- The installation of the candidate.
  unfoldable pub install : ManifestTarget → ℕ → Run W (Unit {0})
  install target index = do
    effect (fs.rename (index, at_candidate) (index, at_target))
    ask (λ world. fs.sync world.files)
    ask (λ world. fs.sync world.files)
    final_file ← verified_candidate (index, at_target) target index
    publish_installed index final_file.identity

  -- `complete_target`.
  unfoldable pub complete_target : ManifestTarget → ℕ → Run W (Unit {0})
  unfolding publish_installed back_up prepare_new install
  complete_target target index = do
    ask (λ world. fs.target_paths index world.files)
    recorded ← recorded_at index
    observed ← observed_at target index recorded
    if location_eq observed.target candidate
        then (do
          final_file ← verified_candidate (index, at_target) target index
          publish_installed index final_file.identity)
        else do
          (if target.original_existed
              then back_up target index observed
              else prepare_new target index)
          install target index
