-- ===== src/Transaction/RollbackMoves.antt =====
-- What the removals and the restoration of a rollback do to the locations of a target.
use srcmv.Base.{is_some, ℕ, ◌≡◌, refl, ap, Bool, true, false, not, Option, none, some, arith}
use srcmv.Recovery.State.{
  CandidateState, TargetState, rolling_back, LocationObservation, original, absent,
}
use srcmv.Recovery.Classify.{location_eq}
use srcmv.Fs.Errors.{ok}
use srcmv.Transaction.Manifest.{ManifestTarget, Fingerprint}
use srcmv.Transaction.Filesystem.{at_target, at_candidate, at_backup, Filesystem, FilesystemLaws}
use srcmv.Transaction.Observe.{location_of, backup_of}
use srcmv.Transaction.Stages.{observed_as}
use srcmv.Transaction.Moves.{distinct_at}
use srcmv.Transaction.RollbackStages.{rolling_sight}

absent_at :
    (seen : Option Fingerprint) (target : ManifestTarget) (c : CandidateState) (staged : Bool)
    → seen ≡ none
    → location_of seen target c staged rolling_back ≡ absent
unfolding location_of
absent_at seen target c staged h = rw h

backup_of-original :
    (seen : Option Fingerprint) (target : ManifestTarget) (c : CandidateState)
    → backup_of seen target ≡ original
    → location_of seen target c false rolling_back ≡ original
unfolding location_of backup_of
backup_of-original none target c h = cc
backup_of-original (some actual) target c h = ground arith

no_backup :
    (seen : Option Fingerprint) (target : ManifestTarget)
    → seen ≡ none
    → backup_of seen target ≡ absent
unfolding backup_of
no_backup seen target h = rw h

pub backup_of-is_some :
    (seen : Option Fingerprint) (target : ManifestTarget)
    → is_some seen ≡ not (location_eq (backup_of seen target) absent)
unfolding backup_of
backup_of-is_some none target = refl
backup_of-is_some (some actual) target = ground arith

pub location_of-is_some :
    (seen : Option Fingerprint) (target : ManifestTarget) (c : CandidateState) (staged : Bool)
    → is_some seen ≡ not (location_eq (location_of seen target c staged rolling_back) absent)
unfolding location_of
location_of-is_some none target c staged = refl
location_of-is_some (some actual) target c staged = ground arith

module _ {W : Type 0} (fs : Filesystem W) (laws : FilesystemLaws W fs) (target : ManifestTarget)
    (index : ℕ) where
  pub installed_removed :
      (r : TargetState) (w after : W) (t c b : LocationObservation)
      → fs.remove_file (index, at_target) w ≡ ok after
      → rolling_sight fs laws target index r w ≡ observed_as t c b
      → rolling_sight fs laws target index r after ≡ observed_as absent c b
  installed_removed r w after t c b removed seen =
      let (gone, others) = laws.remove_removes (index, at_target) w after removed in
      let staged = others (index, at_candidate) (distinct_at fs laws target index λ h. cc) in
      let kept = others (index, at_backup) (distinct_at fs laws target index λ h. cc) in
      let t_now =
        absent_at (laws.contents (index, at_target) after) target r.candidate false gone in
      let c_was = ap (λ o. o.candidate) seen in let b_was = ap (λ o. o.backup) seen in cc

  pub staged_removed :
      (r : TargetState) (w after : W) (t c b : LocationObservation)
      → fs.remove_file (index, at_candidate) w ≡ ok after
      → rolling_sight fs laws target index r w ≡ observed_as t c b
      → rolling_sight fs laws target index r after ≡ observed_as t absent b
  staged_removed r w after t c b removed seen =
      let (gone, others) = laws.remove_removes (index, at_candidate) w after removed in
      let there = others (index, at_target) (distinct_at fs laws target index λ h. cc) in
      let kept = others (index, at_backup) (distinct_at fs laws target index λ h. cc) in
      let c_now =
        absent_at (laws.contents (index, at_candidate) after) target r.candidate true gone in
      let t_was = ap (λ o. o.target) seen in let b_was = ap (λ o. o.backup) seen in cc

  pub backup_restored :
      (r : TargetState) (w after : W) (t c : LocationObservation)
      → fs.rename (index, at_backup) (index, at_target) w ≡ ok after
      → rolling_sight fs laws target index r w ≡ observed_as t c original
      → rolling_sight fs laws target index r after ≡ observed_as original c absent
  backup_restored r w after t c renamed seen =
      let (free, moved, gone, others) =
        laws.rename_moves (index, at_backup) (index, at_target) w after renamed in
      let staged =
        others (index, at_candidate) (distinct_at fs laws target index λ h. cc)
          (distinct_at fs laws target index λ h. cc) in
      let t_now =
        backup_of-original (laws.contents (index, at_backup) w) target r.candidate
          (ap (λ o. o.backup) seen) in
      let b_now = no_backup (laws.contents (index, at_backup) after) target gone in
      let c_was = ap (λ o. o.candidate) seen in cc
