-- ===== src/Transaction/Install.antt =====
-- `install` of transaction.rs, and the steps that the branches of a commit share.
use srcmv.Base.{get_elem?, ℕ, ◌≡◌, ◌∙◌}
use srcmv.Recovery.State.{CommitKind, TargetState, LocationObservation, candidate, absent}
use srcmv.Fs.Errors.{state_target_index_exists, internal_invariant, FsResult, ok, ok_or}
use srcmv.Journal.Publish.{Formats}
use srcmv.Transaction.Manifest.{ManifestTarget}
use srcmv.Transaction.Filesystem.{at_target, at_candidate, Location, Filesystem, FilesystemLaws}
use srcmv.Transaction.Run.{World, Run, ◌>>=◌, ask, effect}
use srcmv.Transaction.Observe.{verify_candidate_location}
use srcmv.Transaction.Stages.{Stage, observed_as}
use srcmv.Transaction.Steps.{verified_candidate, publish_installed, install}
use srcmv.Transaction.Assertions.{sight, Reached-Recoverable, sight-frame}
use srcmv.Transaction.Hoare.{Keeps, >>=-Keeps, effect-Keeps}
use srcmv.Transaction.Commit.{Safe, At, quiet-Keeps, Complete, publish_installed-Keeps}
use srcmv.Transaction.Moves.{candidate_moved}
use srcmv.Transaction.Branches.{placed-Stage, placed-backup}

module _ {W : Type 0} (fs : Filesystem W) (laws : FilesystemLaws W fs) (formats : Formats)
    (target : ManifestTarget) (index : ℕ) where
  abbrev pub IsSafe : World W → Type 0
  IsSafe = Safe fs laws formats target index

  abbrev pub Stands :
      LocationObservation → LocationObservation → LocationObservation → World W → Type 0
  Stands = At fs laws formats target index

  abbrev pub Done : World W → Type 0
  Done = Complete fs laws formats target index

  -- A question, and then the run.
  pub asked-Keeps :
      {T U : Type 0} (P : World W → Type 0) (Q : U → World W → Type 0)
      (question : World W → FsResult T) (next : T → Run W U)
      → ((a : T) → Keeps IsSafe P (next a) Q)
      → Keeps IsSafe P (ask question >>= next) Q
  asked-Keeps P Q question next step =
      >>=-Keeps IsSafe P (λ _. P) Q (ask question) next
        (quiet-Keeps fs laws formats target index P question) step

  -- A call of the disk that moves what is seen from one stage to the next.
  pub moved-Keeps :
      (t c b t' c' b' : LocationObservation) (call : W → FsResult W)
      → ((r : TargetState) (w after : W)
          → call w ≡ ok after
          → sight fs laws target index r w ≡ observed_as t c b
          → sight fs laws target index r after ≡ observed_as t' c' b')
      → ((kind : CommitKind)
          → Stage target.original_existed kind t c b
          → Stage target.original_existed kind t' c' b')
      → Keeps IsSafe (Stands t c b) (effect call) (λ _. Stands t' c' b')
  moved-Keeps t c b t' c' b' call moves steps =
      effect-Keeps IsSafe (Stands t c b) (Stands t' c' b') call
        λ w after (kind, held, stage) called.
          let there : Stands t' c' b' (record w { files = after }) = (
            kind,
            record {
              recorded = held.recorded;
              found = held.found;
              is_committed_to = held.is_committed_to;
              has_kind = held.has_kind;
              at_place = moves held.recorded w.files after called held.at_place;
            },
            steps kind stage,
          ) in
          (Reached-Recoverable fs laws target index (record w { files = after }) there, there)

  -- The mode of the candidate changes nothing that is seen.
  pub set_mode-Keeps :
      (t c b : LocationObservation) (location : Location) (mode : ℕ)
      → Keeps IsSafe (Stands t c b) (effect (fs.set_mode location mode)) (λ _. Stands t c b)
  set_mode-Keeps t c b location mode =
      moved-Keeps t c b t c b (fs.set_mode location mode)
        (λ r w after called seen.
          sight-frame fs laws target index r w after
            (laws.set_mode_keeps location mode w after called)
          ∙ seen)
        (λ kind stage. stage)

  -- A target at which the candidate stands is verified and recorded.
  pub verified-Keeps :
      (b : LocationObservation)
      → Keeps IsSafe
          (Stands candidate absent b)
          (do
            final_file ← verified_candidate fs formats (index, at_target) target index
            publish_installed fs formats index final_file.identity)
          (λ _. Done)
  verified-Keeps b =
      >>=-Keeps IsSafe (Stands candidate absent b) (λ _. Stands candidate absent b) (λ _. Done)
        (verified_candidate fs formats (index, at_target) target index) _
        (asked-Keeps (Stands candidate absent b) (λ _. Stands candidate absent b)
          (λ world.
            ok_or (internal_invariant state_target_index_exists)
              (get_elem? world.progress.state.targets index))
          _
          λ r.
            quiet-Keeps fs laws formats target index (Stands candidate absent b)
              (λ world. verify_candidate_location fs (index, at_target) target r world.files))
        (λ final_file w (kind, held, stage).
          publish_installed-Keeps fs laws formats target index final_file.identity w
            (placed-backup (λ b'. Stands candidate absent b' w) stage (kind, held, stage)))

  -- `install`: the candidate is renamed, verified and recorded.
  pub install-Keeps :
      (b : LocationObservation)
      → Keeps IsSafe (Stands absent candidate b) (install fs formats target index) (λ _. Done)
  unfolding install
  install-Keeps b =
      >>=-Keeps IsSafe (Stands absent candidate b) (λ _. Stands candidate absent b) (λ _. Done)
        (effect (fs.rename (index, at_candidate) (index, at_target))) _
        (moved-Keeps absent candidate b candidate absent b
          (fs.rename (index, at_candidate) (index, at_target))
          (λ r w after called seen.
            candidate_moved fs laws target index r w after absent b called seen)
          (λ kind stage. placed-Stage target.original_existed kind b stage))
        (λ _.
          asked-Keeps (Stands candidate absent b) (λ _. Done) (λ world. fs.sync world.files) _
            λ _.
              asked-Keeps (Stands candidate absent b) (λ _. Done) (λ world. fs.sync world.files) _
                λ _. verified-Keeps b)
