-- ===== src/Transaction/Stages.antt =====
-- The stages of one target during a commit, in which recovery allows completion and rollback.
use srcmv.Base.{◌≡◌, refl, Bool, true, false, Option, none, some, arith}
use srcmv.Recovery.State.{
  CandidateState, CommitKind, untouched, backed_up, installed, TargetState, committing,
  LocationObservation, original, candidate, absent, SyntheticTargetObservation,
}
use srcmv.Recovery.Classify.{
  completion_and_rollback, is_committing, classify_committing, classify_as, classify_recovery,
}
use srcmv.Fs.Errors.{ok}
use srcmv.Transaction.Manifest.{ManifestTarget, Fingerprint}
use srcmv.Transaction.Observe.{location_of, backup_of}

-- What the record says of a target, and what is at the target, the candidate and the backup.
pub data Stage
    : Bool
      → CommitKind
      → LocationObservation
      → LocationObservation
      → LocationObservation
      → Type 0 where
  fresh_existing : Stage true untouched original candidate absent
  moved_existing : Stage true untouched absent candidate original
  placed_existing : Stage true untouched candidate absent original
  backed_up_existing : Stage true backed_up absent candidate original
  placed_backed_up : Stage true backed_up candidate absent original
  installed_existing : Stage true installed candidate absent original
  fresh_new : Stage false untouched absent candidate absent
  placed_new : Stage false untouched candidate absent absent
  installed_new : Stage false installed candidate absent absent

abbrev pub observed_as :
    LocationObservation → LocationObservation → LocationObservation → SyntheticTargetObservation
observed_as t c b = record { parent_matches = true; target = t; candidate = c; backup = b }

pub Stage-classify_recovery :
    {existed : Bool} {t c b : LocationObservation} (r : TargetState) (kind : CommitKind)
    → Stage existed kind t c b
    → r.commit.kind ≡ kind
    → classify_recovery committing existed r (observed_as t c b) ≡ ok completion_and_rollback
unfolding classify_recovery classify_as classify_committing is_committing
Stage-classify_recovery r _ fresh_existing h = rw h
Stage-classify_recovery r _ moved_existing h = rw h
Stage-classify_recovery r _ placed_existing h = rw h
Stage-classify_recovery r _ backed_up_existing h = rw h
Stage-classify_recovery r _ placed_backed_up h = rw h
Stage-classify_recovery r _ installed_existing h = rw h
Stage-classify_recovery r _ fresh_new h = rw h
Stage-classify_recovery r _ placed_new h = rw h
Stage-classify_recovery r _ installed_new h = rw h

is_committing-Stage :
    (existed : Bool) (kind : CommitKind) (t c b : LocationObservation)
    → is_committing existed kind (observed_as t c b) ≡ true
    → Stage existed kind t c b
unfolding is_committing
is_committing-Stage true untouched original candidate absent h = fresh_existing
is_committing-Stage true untouched absent candidate original h = moved_existing
is_committing-Stage true untouched candidate absent original h = placed_existing
is_committing-Stage true backed_up absent candidate original h = backed_up_existing
is_committing-Stage true backed_up candidate absent original h = placed_backed_up
is_committing-Stage true installed candidate absent original h = installed_existing
is_committing-Stage false untouched absent candidate absent h = fresh_new
is_committing-Stage false untouched candidate absent absent h = placed_new
is_committing-Stage false installed candidate absent absent h = installed_new
is_committing-Stage _ _ _ _ _ h = cc

pub classify_recovery-Stage :
    (existed : Bool) (r : TargetState) (t c b : LocationObservation)
    → classify_recovery committing existed r (observed_as t c b) ≡ ok completion_and_rollback
    → Stage existed r.commit.kind t c b
unfolding classify_recovery classify_as classify_committing
classify_recovery-Stage existed r t c b h =
    is_committing-Stage existed r.commit.kind t c b (ground arith)

pub location_of-committing :
    (seen : Option Fingerprint) (target : ManifestTarget) (c : CandidateState)
    → location_of seen target c true committing ≡ location_of seen target c false committing
unfolding location_of
location_of-committing none target c = refl
location_of-committing (some actual) target c = refl

pub original-backup_of :
    (seen : Option Fingerprint) (target : ManifestTarget) (c : CandidateState)
    → location_of seen target c false committing ≡ original
    → backup_of seen target ≡ original
unfolding location_of backup_of
original-backup_of none target c h = cc
original-backup_of (some actual) target c h = ground arith
