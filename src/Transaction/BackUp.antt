-- ===== src/Transaction/BackUp.antt =====
-- `back_up` of transaction.rs: an existing file is moved aside and recorded.
use srcmv.Base.{if◌then◌else◌, get_elem?, ℕ, ◌≡◌, refl, ◌⊎◌, inl, inr, Bool, true, false}
use srcmv.Recovery.State.{
  untouched, backed_up, TargetState, committing, original, candidate, absent,
  SyntheticTargetObservation,
}
use srcmv.Recovery.Classify.{location_eq}
use srcmv.Fs.Errors.{state_target_index_exists, internal_invariant, FsResult, ok_or}
use srcmv.Journal.State.{commit_kind_eq}
use srcmv.Journal.Publish.{Formats}
use srcmv.Transaction.Manifest.{ManifestTarget}
use srcmv.Transaction.Filesystem.{at_target, at_candidate, at_backup, Filesystem, FilesystemLaws}
use srcmv.Transaction.Run.{World, Run, ◌>>=◌, ◌>>◌, pure, ask, effect}
use srcmv.Transaction.Observe.{verify_original_location}
use srcmv.Transaction.Stages.{Stage, backed_up_existing}
use srcmv.Transaction.Steps.{publish_target_transition, verified_original, set_backed_up, back_up}
use srcmv.Transaction.Assertions.{Holds}
use srcmv.Transaction.Hoare.{Keeps, >>=-Keeps, weaken-Keeps}
use srcmv.Transaction.Commit.{publish-Reached}
use srcmv.Transaction.Moves.{target_moved}
use srcmv.Transaction.Branches.{moved-Stage}
use srcmv.Transaction.Install.{IsSafe, Stands, asked-Keeps, moved-Keeps, set_mode-Keeps}

module _ {W : Type 0} (fs : Filesystem W) (laws : FilesystemLaws W fs) (formats : Formats)
    (target : ManifestTarget) (index : ℕ) where
  backed_up-Stage :
      (existed : Bool) → existed ≡ true → Stage existed backed_up absent candidate original
  backed_up-Stage true h = backed_up_existing
  backed_up-Stage false h = cc

  -- An original that stands at the target or at the backup, as it was observed.
  abbrev pub Sighted : SyntheticTargetObservation → World W → Type 0
  Sighted observed w =
      (Stands fs laws formats target index original candidate absent w × (observed.backup ≡ absent))
      ⊎ (Stands fs laws formats target index absent candidate original w
          × (observed.backup ≡ original))

  -- The first part of `back_up`: the original is moved unless it has been.
  moved_aside-Keeps :
      (observed : SyntheticTargetObservation) (b : Bool)
      → location_eq observed.backup original ≡ b
      → Keeps
          (IsSafe fs laws formats target index)
          (Sighted observed)
          (if b then pure tt else do
            effect (fs.rename (index, at_target) (index, at_backup))
            ask (λ world. fs.sync world.files)
            ask (λ world. fs.sync world.files)
            _ ← verified_original fs formats (index, at_backup) target
            pure tt)
          (λ _. Stands fs laws formats target index absent candidate original)
  moved_aside-Keeps observed true same w (inl (here, backup)) = cc
  moved_aside-Keeps observed true same w (inr (here, backup)) = (tt, here)
  moved_aside-Keeps observed false same w (inr (here, backup)) = cc
  moved_aside-Keeps observed false same w (inl (here, backup)) =
      >>=-Keeps (IsSafe fs laws formats target index)
        (Stands fs laws formats target index original candidate absent)
        (λ _. Stands fs laws formats target index absent candidate original)
        (λ _. Stands fs laws formats target index absent candidate original)
        (effect (fs.rename (index, at_target) (index, at_backup))) _
        (moved-Keeps fs laws formats target index original candidate absent absent candidate
          original (fs.rename (index, at_target) (index, at_backup))
          (λ r w after called seen.
            target_moved fs laws target index r w after candidate absent called seen)
          (λ kind stage. moved-Stage target.original_existed kind stage))
        (λ _.
          quietly (λ world. fs.sync world.files) _
            λ _.
              quietly (λ world. fs.sync world.files) _
                λ _.
                  quietly
                    (λ world. verify_original_location fs (index, at_backup) target world.files)
                    (λ _. pure tt) λ _ after there. (tt, there))
        w here
    where
      quietly :
          {T : Type 0} (question : World W → FsResult T) (next : T → Run W (Unit {0}))
          → ((a : T)
              → Keeps
                  (IsSafe fs laws formats target index)
                  (Stands fs laws formats target index absent candidate original)
                  (next a)
                  (λ _. Stands fs laws formats target index absent candidate original))
          → Keeps
              (IsSafe fs laws formats target index)
              (Stands fs laws formats target index absent candidate original)
              (ask question >>= next)
              (λ _. Stands fs laws formats target index absent candidate original)
      quietly =
          asked-Keeps fs laws formats target index
            (Stands fs laws formats target index absent candidate original)
            (λ _. Stands fs laws formats target index absent candidate original)

  pub back_up-Keeps :
      (observed : SyntheticTargetObservation)
      → target.original_existed ≡ true
      → Keeps
          (IsSafe fs laws formats target index)
          (Sighted observed)
          (back_up fs formats target index observed)
          (λ _. Stands fs laws formats target index absent candidate original)
  unfolding back_up
  back_up-Keeps observed existed =
      >>=-Keeps (IsSafe fs laws formats target index) (Sighted observed) (λ _. Aside) (λ _. Aside) _
        _ (moved_aside-Keeps observed (location_eq observed.backup original) refl)
        λ _.
          asked-Keeps fs laws formats target index Aside (λ _. Aside)
            (λ world. fs.mode_of (index, at_backup) world.files) _
            λ mode.
              >>=-Keeps (IsSafe fs laws formats target index) Aside (λ _. Aside) (λ _. Aside)
                (effect (fs.set_mode (index, at_candidate) mode)) _
                (set_mode-Keeps fs laws formats target index absent candidate original
                  (index, at_candidate) mode)
                λ _.
                  asked-Keeps fs laws formats target index Aside (λ _. Aside)
                    (λ world.
                      ok_or (internal_invariant state_target_index_exists)
                        (get_elem? world.progress.state.targets index))
                    _ λ r. recorded r mode (commit_kind_eq r.commit.kind untouched)
    where
      Aside : World W → Type 0
      Aside = Stands fs laws formats target index absent candidate original

      recorded :
          (r : TargetState) (mode : ℕ) (b : Bool)
          → Keeps
              (IsSafe fs laws formats target index)
              Aside
              (if b
                then (do
                  backup ← verified_original fs formats (index, at_backup) target
                  publish_target_transition fs formats committing index
                      (set_backed_up fs formats backup.identity mode))
                else pure tt)
              (λ _. Aside)
      recorded r mode false = λ w there. (tt, there)
      recorded r mode true =
          asked-Keeps fs laws formats target index Aside (λ _. Aside)
            (λ world. verify_original_location fs (index, at_backup) target world.files) _
            λ backup.
              weaken-Keeps (IsSafe fs laws formats target index) Aside
                (λ _. Holds fs laws target index backed_up absent candidate original) (λ _. Aside) _
                (λ _ w held. (backed_up, held, backed_up-Stage target.original_existed existed))
                (publish-Reached fs laws formats target index absent candidate original backed_up
                  (set_backed_up fs formats backup.identity mode) (λ s. refl) (λ s. refl)
                  (backed_up-Stage target.original_existed existed))
