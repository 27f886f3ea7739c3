-- ===== src/Transaction/Complete.antt =====
-- `complete_target` of transaction.rs: its branches, and the whole.
use srcmv.Base.{
  if◌then◌else◌, get_elem?, All, ℕ, ◌≡◌, refl, sym, ap, ◌⊎◌, inl, inr, Bool, true, false, some,
  subst,
}
use srcmv.Recovery.State.{
  installed, TargetState, LocationObservation, original, candidate, absent,
  SyntheticTargetObservation,
}
use srcmv.Recovery.Classify.{location_eq, original_or_absent}
use srcmv.Fs.Errors.{
  state_target_index_exists, new_target_has_recorded_mode, internal_invariant, ok, ok_or,
}
use srcmv.Journal.Publish.{Formats}
use srcmv.Transaction.Manifest.{ManifestTarget}
use srcmv.Transaction.Filesystem.{at_target, at_candidate, Filesystem, FilesystemLaws}
use srcmv.Transaction.Run.{World, ◌>>=◌, ◌>>◌}
use srcmv.Transaction.Observe.{observe_target}
use srcmv.Transaction.Stages.{observed_as}
use srcmv.Transaction.Steps.{
  recorded_at, observed_at, verified_candidate, publish_installed, back_up, prepare_new, install,
  complete_target,
}
use srcmv.Transaction.Assertions.{
  sight, Recoverable, Holds, Recoverable-Reached, observe_target-sight,
}
use srcmv.Transaction.Hoare.{Post, Keeps, >>=-Keeps, ask-Keeps}
use srcmv.Transaction.Commit.{ok_or-some}
use srcmv.Transaction.Branches.{started_existing, started_new, standing_candidate}
use srcmv.Transaction.Install.{
  IsSafe, Stands, Done, asked-Keeps, set_mode-Keeps, verified-Keeps, install-Keeps,
}
use srcmv.Transaction.BackUp.{Sighted, back_up-Keeps}

module _ {W : Type 0} (fs : Filesystem W) (laws : FilesystemLaws W fs) (formats : Formats)
    (target : ManifestTarget) (index : ℕ) where
  -- `prepare_new`: only the mode of the candidate is set.
  prepare_new-Keeps :
      Keeps
        (IsSafe fs laws formats target index)
        (Stands fs laws formats target index absent candidate absent)
        (prepare_new fs formats target index)
        (λ _. Stands fs laws formats target index absent candidate absent)
  unfolding prepare_new
  prepare_new-Keeps =
      asked-Keeps fs laws formats target index
        (Stands fs laws formats target index absent candidate absent)
        (λ _. Stands fs laws formats target index absent candidate absent)
        (λ world. ok_or (internal_invariant new_target_has_recorded_mode) target.new_file_mode) _
        λ mode.
          set_mode-Keeps fs laws formats target index absent candidate absent (index, at_candidate)
            mode

  -- What `complete_target` has read when it chooses its branch.
  abbrev Chosen : SyntheticTargetObservation → World W → Type 0
  Chosen observed w =
      (t : LocationObservation) × (c : LocationObservation) × (b : LocationObservation) × Stands fs
        laws formats target index t c b w
      × (observed ≡ observed_as t c b)

  installed-Keeps :
      (observed : SyntheticTargetObservation)
      → location_eq observed.target candidate ≡ false
      → (existed : Bool) → target.original_existed ≡ existed
      → Keeps
          (IsSafe fs laws formats target index)
          (Chosen observed)
          (do
            (if existed
                then back_up fs formats target index observed
                else prepare_new fs formats target index)
            install fs formats target index)
          (λ _. (Done fs laws formats target index))
  installed-Keeps observed away true existed w (t, c, b, (kind, held, stage), seen) =
      >>=-Keeps (IsSafe fs laws formats target index)
        (Sighted fs laws formats target index observed)
        (λ _. Stands fs laws formats target index absent candidate original)
        (λ _. (Done fs laws formats target index)) (back_up fs formats target index observed)
        (λ _. install fs formats target index)
        (back_up-Keeps fs laws formats target index observed existed)
        (λ _. install-Keeps fs laws formats target index original) w
        (sighted (
          started_existing
            (λ t' c' b'.
              Stands fs laws formats target index t' c' b' w × (observed ≡ observed_as t' c' b'))
            stage existed (rw (sym (ap (λ o. o.target) seen)) away) ((kind, held, stage), seen)))
    where
      sighted :
          (Stands fs laws formats target index original candidate absent w
              × (observed ≡ observed_as original candidate absent))
            ⊎ (Stands fs laws formats target index absent candidate original w
                × (observed ≡ observed_as absent candidate original))
          → Sighted fs laws formats target index observed w
      sighted (inl (here, seen)) = inl (here, ap (λ o. o.backup) seen)
      sighted (inr (here, seen)) = inr (here, ap (λ o. o.backup) seen)
  installed-Keeps observed away false existed w (t, c, b, (kind, held, stage), seen) =
      >>=-Keeps (IsSafe fs laws formats target index)
        (Stands fs laws formats target index absent candidate absent)
        (λ _. Stands fs laws formats target index absent candidate absent)
        (λ _. (Done fs laws formats target index)) (prepare_new fs formats target index)
        (λ _. install fs formats target index) prepare_new-Keeps
        (λ _. install-Keeps fs laws formats target index absent) w
        (started_new (λ t' c' b'. Stands fs laws formats target index t' c' b' w) stage existed
          (rw (sym (ap (λ o. o.target) seen)) away) (kind, held, stage))

  Chosen-at :
      (r : TargetState) (w : World W) (observed : SyntheticTargetObservation)
      → (IsSafe fs laws formats target index) w
      → get_elem? w.progress.state.targets index ≡ some r
      → observe_target fs target index r w.progress.state.global_state w.files ≡ ok observed
      → Chosen observed w
  Chosen-at r w observed safe found h =
      let place = sight fs laws target index safe.recorded w.files in
      let known = safe.found in
      let same : r ≡ safe.recorded = cc in
      let globals = safe.is_committed_to in
      let seen =
        observe_target-sight fs laws target index r w.files observed
          (subst (λ g. observe_target fs target index r g w.files ≡ ok observed) globals h) in
      (
        place.target,
        place.candidate,
        place.backup,
        Recoverable-Reached fs laws target index w safe,
        rw (sym same) seen,
      )

  -- The branch in which the candidate is at the target already.
  placed-Keeps :
      (observed : SyntheticTargetObservation)
      → location_eq observed.target candidate ≡ true
      → Keeps
          (IsSafe fs laws formats target index)
          (Chosen observed)
          (do
            final_file ← verified_candidate fs formats (index, at_target) target index
            publish_installed fs formats index final_file.identity)
          (λ _. (Done fs laws formats target index))
  placed-Keeps observed there w (t, c, b, (kind, held, stage), seen) =
      verified-Keeps fs laws formats target index b w (
        standing_candidate (λ t' c' b'. Stands fs laws formats target index t' c' b' w) stage
          (rw (sym (ap (λ o. o.target) seen)) there) (kind, held, stage))

  -- `complete_target`.
  pub complete_target-Keeps :
      Keeps
        (IsSafe fs laws formats target index)
        (IsSafe fs laws formats target index)
        (complete_target fs formats target index)
        (λ _. (Done fs laws formats target index))
  unfolding complete_target
  complete_target-Keeps =
      asked-Keeps fs laws formats target index (IsSafe fs laws formats target index)
        (λ _. (Done fs laws formats target index)) (λ world. fs.target_paths index world.files) _
        λ _.
          >>=-Keeps (IsSafe fs laws formats target index) (IsSafe fs laws formats target index)
            FoundAt (λ _. (Done fs laws formats target index)) (recorded_at fs formats index) _
            (ask-Keeps (IsSafe fs laws formats target index) (IsSafe fs laws formats target index)
              FoundAt
              (λ world.
                ok_or (internal_invariant state_target_index_exists)
                  (get_elem? world.progress.state.targets index))
              λ w r safe found. (
                safe,
                ok_or-some (internal_invariant state_target_index_exists)
                    (get_elem? w.progress.state.targets index) found,
              ))
            λ r.
              >>=-Keeps (IsSafe fs laws formats target index) (FoundAt r) Chosen
                (λ _. (Done fs laws formats target index)) (observed_at fs formats target index r) _
                (ask-Keeps (IsSafe fs laws formats target index) (FoundAt r) Chosen
                  (λ world.
                    observe_target fs target index r world.progress.state.global_state world.files)
                  (λ w observed (safe, found) h. Chosen-at r w observed safe found h))
                λ observed. branch observed (location_eq observed.target candidate) refl
    where
      FoundAt : TargetState → World W → Type 0
      FoundAt r w =
          (IsSafe fs laws formats target index) w
          × (get_elem? w.progress.state.targets index ≡ some r)

      branch :
          (observed : SyntheticTargetObservation) (b : Bool)
          → location_eq observed.target candidate ≡ b
          → Keeps
              (IsSafe fs laws formats target index)
              (Chosen observed)
              (if b
                then (do
                  final_file ← verified_candidate fs formats (index, at_target) target index
                  publish_installed fs formats index final_file.identity)
                else do
                  (if target.original_existed
                      then back_up fs formats target index observed
                      else prepare_new fs formats target index)
                  install fs formats target index)
              (λ _. (Done fs laws formats target index))
      branch observed true same = placed-Keeps observed same
      branch observed false same = installed-Keeps observed same target.original_existed refl

-- From a world in which a target is recorded in the state `Committing` and recovery allows its
-- completion and its rollback, `complete_target` passes, after each of its renames, mode changes
-- and publications and whichever call fails, only worlds in which recovery still allows both; and
-- if it returns without an error, then the target is recorded as installed, the candidate is at
-- the target path, its own name is free, and the backup name has the original, if there was one,
-- and is free otherwise. The calls that change files are assumed to do what they document.
pub complete_target-Recoverable :
    {W : Type 0} (fs : Filesystem W) (laws : FilesystemLaws W fs) (formats : Formats)
    (target : ManifestTarget) (index : ℕ) (w : World W)
    → Recoverable fs laws target index w
    → let ran = complete_target fs formats target index w in
      All (Recoverable fs laws target index) ran.trace
      × Post
          (λ _.
            Holds fs laws target index installed candidate absent
              (original_or_absent target.original_existed))
          ran.value
          ran.world
complete_target-Recoverable fs laws formats target index =
    complete_target-Keeps fs laws formats target index
