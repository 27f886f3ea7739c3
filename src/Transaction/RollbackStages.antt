-- ===== src/Transaction/RollbackStages.antt =====
-- The stages of one target during a rollback, and what holds of it in a world.
use srcmv.Base.{get_elem?, ℕ, ◌≡◌, refl, Bool, true, false, Option, none, some, arith}
use srcmv.Recovery.State.{
  CandidateState, RollbackKind, not_restored, original_restored, absence_restored, TargetState,
  committing, rolling_back, LocationObservation, original, candidate, absent,
  SyntheticTargetObservation,
}
use srcmv.Recovery.Classify.{
  rollback_only, classify_restored_original, classify_restored_absence, is_rolling_back,
  rolling_back_as, classify_rolling_back, classify_as, classify_recovery,
}
use srcmv.Fs.Errors.{ok, >>=-eq-ok, ok_injective}
use srcmv.Transaction.Manifest.{ManifestTarget, Fingerprint}
use srcmv.Transaction.Filesystem.{at_target, at_candidate, at_backup, Filesystem, FilesystemLaws}
use srcmv.Transaction.Run.{World}
use srcmv.Transaction.Observe.{location_of, backup_of, observe_target}
use srcmv.Transaction.Stages.{observed_as}
use srcmv.Transaction.Assertions.{sight}

-- What the record says of the restoration, and what is at the three locations.
pub data RollbackStage
    : Bool
      → RollbackKind
      → LocationObservation
      → LocationObservation
      → LocationObservation
      → Type 0 where
  back_existing : RollbackStage true not_restored original absent absent
  back_staged : RollbackStage true not_restored original candidate absent
  aside_existing : RollbackStage true not_restored absent absent original
  aside_staged : RollbackStage true not_restored absent candidate original
  replaced_existing : RollbackStage true not_restored candidate absent original
  restored_existing : RollbackStage true original_restored original absent absent
  gone_new : RollbackStage false not_restored absent absent absent
  staged_new : RollbackStage false not_restored absent candidate absent
  created_new : RollbackStage false not_restored candidate absent absent
  restored_new : RollbackStage false absence_restored absent absent absent

pub RollbackStage-classify_recovery :
    {existed : Bool} {t c b : LocationObservation} (r : TargetState) (kind : RollbackKind)
    → RollbackStage existed kind t c b
    → r.rollback.kind ≡ kind
    → classify_recovery rolling_back existed r (observed_as t c b) ≡ ok rollback_only
unfolding classify_recovery classify_as classify_rolling_back rolling_back_as is_rolling_back
    classify_restored_original classify_restored_absence
RollbackStage-classify_recovery r _ back_existing h = rw h
RollbackStage-classify_recovery r _ back_staged h = rw h
RollbackStage-classify_recovery r _ aside_existing h = rw h
RollbackStage-classify_recovery r _ aside_staged h = rw h
RollbackStage-classify_recovery r _ replaced_existing h = rw h
RollbackStage-classify_recovery r _ restored_existing h = rw h
RollbackStage-classify_recovery r _ gone_new h = rw h
RollbackStage-classify_recovery r _ staged_new h = rw h
RollbackStage-classify_recovery r _ created_new h = rw h
RollbackStage-classify_recovery r _ restored_new h = rw h

rolling_back_as-RollbackStage :
    (existed : Bool) (kind : RollbackKind) (t c b : LocationObservation)
    → rolling_back_as kind existed (observed_as t c b) ≡ ok rollback_only
    → RollbackStage existed kind t c b
unfolding rolling_back_as is_rolling_back classify_restored_original classify_restored_absence
rolling_back_as-RollbackStage true not_restored original absent absent h = back_existing
rolling_back_as-RollbackStage true not_restored original candidate absent h = back_staged
rolling_back_as-RollbackStage true not_restored absent absent original h = aside_existing
rolling_back_as-RollbackStage true not_restored absent candidate original h = aside_staged
rolling_back_as-RollbackStage true not_restored candidate absent original h = replaced_existing
rolling_back_as-RollbackStage true original_restored original absent absent h = restored_existing
rolling_back_as-RollbackStage false not_restored absent absent absent h = gone_new
rolling_back_as-RollbackStage false not_restored absent candidate absent h = staged_new
rolling_back_as-RollbackStage false not_restored candidate absent absent h = created_new
rolling_back_as-RollbackStage false absence_restored absent absent absent h = restored_new
rolling_back_as-RollbackStage _ _ _ _ _ h = cc

pub classify_recovery-RollbackStage :
    (existed : Bool) (r : TargetState) (t c b : LocationObservation)
    → classify_recovery rolling_back existed r (observed_as t c b) ≡ ok rollback_only
    → RollbackStage existed r.rollback.kind t c b
unfolding classify_recovery classify_as classify_rolling_back
classify_recovery-RollbackStage existed r t c b h =
    rolling_back_as-RollbackStage existed r.rollback.kind t c b (ground arith)

location_of-rolling_back :
    (seen : Option Fingerprint) (target : ManifestTarget) (c : CandidateState) (staged : Bool)
    → location_of seen target c staged rolling_back ≡ location_of seen target c staged committing
unfolding location_of
location_of-rolling_back none target c staged = refl
location_of-rolling_back (some actual) target c staged = refl

module _ {W : Type 0} (fs : Filesystem W) (laws : FilesystemLaws W fs) (target : ManifestTarget)
    (index : ℕ) where
  -- What is observed of the target while rolling back.
  abbrev pub rolling_sight : TargetState → W → SyntheticTargetObservation
  rolling_sight r w =
      observed_as
        (location_of (laws.contents (index, at_target) w) target r.candidate false rolling_back)
        (location_of (laws.contents (index, at_candidate) w) target r.candidate true rolling_back)
        (backup_of (laws.contents (index, at_backup) w) target)

  pub rolling_sight-sight :
      (r : TargetState) (w : W) → rolling_sight r w ≡ sight fs laws target index r w
  rolling_sight-sight r w = rw (
    location_of-rolling_back (laws.contents (index, at_target) w) target r.candidate false,
    location_of-rolling_back (laws.contents (index, at_candidate) w) target r.candidate true,
  )

  -- The target is recorded, and recovery allows its rollback.
  pub record Revertible (w : World W) : Type 0 where
    pub recorded : TargetState
    pub found : get_elem? w.progress.state.targets index ≡ some recorded
    pub is_rolling : w.progress.state.global_state ≡ rolling_back
    pub allowed :
        classify_recovery rolling_back target.original_existed recorded
          (rolling_sight recorded w.files)
        ≡ ok rollback_only

  pub record Rests (kind : RollbackKind) (t c b : LocationObservation) (w : World W) : Type 0 where
    pub recorded : TargetState
    pub found : get_elem? w.progress.state.targets index ≡ some recorded
    pub is_rolling : w.progress.state.global_state ≡ rolling_back
    pub has_kind : recorded.rollback.kind ≡ kind
    pub at_place : rolling_sight recorded w.files ≡ observed_as t c b

  abbrev pub RestsAt :
      LocationObservation → LocationObservation → LocationObservation → World W → Type 0
  RestsAt t c b w =
      (kind : RollbackKind) × Rests kind t c b w × RollbackStage target.original_existed kind t c b

  pub RestsAt-Revertible :
      {t c b : LocationObservation} (w : World W) → RestsAt t c b w → Revertible w
  RestsAt-Revertible w (kind, rests, stage) = record {
    recorded = rests.recorded;
    found = rests.found;
    is_rolling = rests.is_rolling;
    allowed =
        rw rests.at_place
          (RollbackStage-classify_recovery rests.recorded kind stage rests.has_kind);
  }

  pub Revertible-RestsAt :
      (w : World W) (safe : Revertible w)
      → let seen = rolling_sight safe.recorded w.files in
        RestsAt seen.target seen.candidate seen.backup w
  Revertible-RestsAt w safe =
      let seen = rolling_sight safe.recorded w.files in
      (
        safe.recorded.rollback.kind,
        record {
          recorded = safe.recorded;
          found = safe.found;
          is_rolling = safe.is_rolling;
          has_kind = refl;
          at_place = refl;
        },
        classify_recovery-RollbackStage target.original_existed safe.recorded seen.target
            seen.candidate seen.backup safe.allowed,
      )

  -- An observation that succeeds while rolling back is what the contents show.
  pub observe_target-rolling_sight :
      (r : TargetState) (w : W) (observed : SyntheticTargetObservation)
      → observe_target fs target index r rolling_back w ≡ ok observed
      → observed ≡ rolling_sight r w
  unfolding observe_target
  observe_target-rolling_sight r w observed h =
      let (t, t_is, h1) = >>=-eq-ok (fs.fingerprint (index, at_target) w) _ h in
      let (c, c_is, h2) = >>=-eq-ok (fs.fingerprint (index, at_candidate) w) _ h1 in
      let (b, b_is, h3) = >>=-eq-ok (fs.fingerprint (index, at_backup) w) _ h2 in
      let t_reads = laws.fingerprint_reads (index, at_target) w t t_is in
      let c_reads = laws.fingerprint_reads (index, at_candidate) w c c_is in
      let b_reads = laws.fingerprint_reads (index, at_backup) w b b_is in
      let e = ok_injective _ observed h3 in cc
