-- ===== src/Transaction/Partial.antt =====
-- A candidate that was created and not yet recorded, when a rollback is interrupted.
use srcmv.Base.{◌≡◌, refl, Bool, true, false, ◌&&◌, some}
use srcmv.Recovery.State.{
  missing, CandidateState, TargetState, preparing, rolling_back, LocationObservation, original,
  candidate, absent, unexpected,
}
use srcmv.Recovery.Classify.{classify_recovery}
use srcmv.Fs.Errors.{unexpected_location_or_parent, recovery_conflict, err}
use srcmv.Transaction.Manifest.{ManifestTarget, Fingerprint, matches_original}
use srcmv.Transaction.Observe.{location_of}
use srcmv.Transaction.Stages.{observed_as}

unexpected_candidate :
    (existed : Bool) (r : TargetState) (t b : LocationObservation)
    → classify_recovery rolling_back existed r (observed_as t unexpected b)
      ≡ err (recovery_conflict unexpected_location_or_parent)
unfolding classify_recovery
unexpected_candidate existed r original b = refl
unexpected_candidate existed r candidate b = refl
unexpected_candidate existed r absent b = refl
unexpected_candidate existed r unexpected b = refl

-- What is at the name of a candidate that is not recorded.
partial_location :
    (actual : Fingerprint) (target : ManifestTarget) (c : CandidateState)
    → c.kind ≡ missing
    → (target.original_existed && matches_original actual target) ≡ false
    → (location_of (some actual) target c true preparing ≡ candidate)
      × (location_of (some actual) target c true rolling_back ≡ unexpected)
unfolding location_of
partial_location actual target c none_recorded other =
    (rw (other, none_recorded) refl, rw (other, none_recorded) refl)

-- For a target whose candidate is not recorded and whose candidate name has a file other than the
-- original, the file is observed as the candidate in the state `Preparing`, and in the state
-- `RollingBack` the classification of the target is the conflict of an unexpected location,
-- wherever the target and the backup are.
pub location_of-classify_recovery :
    (actual : Fingerprint) (target : ManifestTarget) (r : TargetState) (t b : LocationObservation)
    → r.candidate.kind ≡ missing
    → (target.original_existed && matches_original actual target) ≡ false
    → (location_of (some actual) target r.candidate true preparing ≡ candidate)
      × (classify_recovery rolling_back target.original_existed r
            (observed_as t (location_of (some actual) target r.candidate true rolling_back) b)
          ≡ err (recovery_conflict unexpected_location_or_parent))
location_of-classify_recovery actual target r t b none_recorded other =
    let (staged, seen) = partial_location actual target r.candidate none_recorded other in
    (staged, rw seen (unexpected_candidate target.original_existed r t b))
