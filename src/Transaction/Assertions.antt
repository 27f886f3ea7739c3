-- ===== src/Transaction/Assertions.antt =====
-- What holds of one target in a world: its record, and what is at its three locations.
use srcmv.Base.{get_elem?, ℕ, zero, suc, ◌≡◌, refl, sym, true, false, some, List, [], ◌∷◌}
use srcmv.Recovery.State.{
  CommitKind, TargetState, committing, LocationObservation, SyntheticTargetObservation,
}
use srcmv.Recovery.Classify.{completion_and_rollback, classify_recovery}
use srcmv.Fs.Errors.{FsResult, ok, err, >>=-eq-ok, ok_injective}
use srcmv.Transaction.Manifest.{ManifestTarget}
use srcmv.Transaction.Filesystem.{
  at_target, at_candidate, at_backup, Location, Filesystem, FilesystemLaws,
}
use srcmv.Transaction.Run.{World}
use srcmv.Transaction.Observe.{location_of, backup_of, observe_target}
use srcmv.Transaction.Stages.{Stage, observed_as, Stage-classify_recovery, classify_recovery-Stage}
use srcmv.Transaction.Steps.{update_at}

pub get_elem?-update_at :
    (index : ℕ) (update : TargetState → TargetState) (states after : List TargetState)
    {r : TargetState}
    → update_at index update states ≡ ok after
    → get_elem? states index ≡ some r
    → get_elem? after index ≡ some (update r)
unfolding update_at
get_elem?-update_at index update [] after h found = cc
get_elem?-update_at zero update (s ∷ states) after {r = r} h found =
    let made : ok (update s ∷ states) ≡ ok after = h in let same : some s ≡ some r = found in cc
get_elem?-update_at (suc index) update (s ∷ states) after {r = r} h found =
    go (λ rest same. get_elem?-update_at index update states rest same found)
      (update_at index update states) refl h
  where
    go :
        ((rest : List TargetState)
          → update_at index update states ≡ ok rest
          → get_elem? rest index ≡ some (update r))
        → (value : FsResult (List TargetState)) → update_at index update states ≡ value
        → elim value [ err e ↦ err e | ok rest ↦ ok (s ∷ rest) ] ≡ ok after
        → get_elem? after (suc index) ≡ some (update r)
    go updated (err e) same made = cc
    go updated (ok rest) same made =
        rw (sym (ok_injective (s ∷ rest) after made)) (updated rest same)

module _ {W : Type 0} (fs : Filesystem W) (laws : FilesystemLaws W fs) (target : ManifestTarget)
    (index : ℕ) where
  -- `observe_target` in the state committing, on the contents of the disk.
  abbrev pub sight : TargetState → W → SyntheticTargetObservation
  sight r w =
      observed_as
        (location_of (laws.contents (index, at_target) w) target r.candidate false committing)
        (location_of (laws.contents (index, at_candidate) w) target r.candidate true committing)
        (backup_of (laws.contents (index, at_backup) w) target)

  -- The target is recorded, and recovery allows its completion and its rollback.
  pub record Recoverable (w : World W) : Type 0 where
    pub recorded : TargetState
    pub found : get_elem? w.progress.state.targets index ≡ some recorded
    pub is_committed_to : w.progress.state.global_state ≡ committing
    pub allowed :
        classify_recovery committing target.original_existed recorded (sight recorded w.files)
        ≡ ok completion_and_rollback

  -- The target is recorded with `kind`, and `t`, `c` and `b` are at its locations.
  pub record Holds (kind : CommitKind) (t c b : LocationObservation) (w : World W) : Type 0 where
    pub recorded : TargetState
    pub found : get_elem? w.progress.state.targets index ≡ some recorded
    pub is_committed_to : w.progress.state.global_state ≡ committing
    pub has_kind : recorded.commit.kind ≡ kind
    pub at_place : sight recorded w.files ≡ observed_as t c b

  -- It is at one of the stages with these locations.
  abbrev pub Reached :
      LocationObservation → LocationObservation → LocationObservation → World W → Type 0
  Reached t c b w =
      (kind : CommitKind) × Holds kind t c b w × Stage target.original_existed kind t c b

  pub Reached-Recoverable :
      {t c b : LocationObservation} (w : World W) → Reached t c b w → Recoverable w
  Reached-Recoverable w (kind, holds, stage) = record {
    recorded = holds.recorded;
    found = holds.found;
    is_committed_to = holds.is_committed_to;
    allowed = rw holds.at_place (Stage-classify_recovery holds.recorded kind stage holds.has_kind);
  }

  pub Recoverable-Reached :
      (w : World W) (safe : Recoverable w)
      → let seen = sight safe.recorded w.files in Reached seen.target seen.candidate seen.backup w
  Recoverable-Reached w safe =
      let seen = sight safe.recorded w.files in
      (
        safe.recorded.commit.kind,
        record {
          recorded = safe.recorded;
          found = safe.found;
          is_committed_to = safe.is_committed_to;
          has_kind = refl;
          at_place = refl;
        },
        classify_recovery-Stage target.original_existed safe.recorded seen.target seen.candidate
            seen.backup safe.allowed,
      )

  -- What a call that keeps the contents keeps.
  pub sight-frame :
      (r : TargetState) (w after : W)
      → ((l : Location) → laws.contents l after ≡ laws.contents l w)
      → sight r after ≡ sight r w
  sight-frame r w after same =
      let t = same (index, at_target) in
      let c = same (index, at_candidate) in let b = same (index, at_backup) in cc

  -- An observation that succeeds is what the contents show.
  pub observe_target-sight :
      (r : TargetState) (w : W) (observed : SyntheticTargetObservation)
      → observe_target fs target index r committing w ≡ ok observed
      → observed ≡ sight r w
  unfolding observe_target
  observe_target-sight r w observed h =
      let (t, t_is, h1) = >>=-eq-ok (fs.fingerprint (index, at_target) w) _ h in
      let (c, c_is, h2) = >>=-eq-ok (fs.fingerprint (index, at_candidate) w) _ h1 in
      let (b, b_is, h3) = >>=-eq-ok (fs.fingerprint (index, at_backup) w) _ h2 in
      let t_reads = laws.fingerprint_reads (index, at_target) w t t_is in
      let c_reads = laws.fingerprint_reads (index, at_candidate) w c c_is in
      let b_reads = laws.fingerprint_reads (index, at_backup) w b b_is in
      let e = ok_injective _ observed h3 in cc
