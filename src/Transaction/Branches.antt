-- ===== src/Transaction/Branches.antt =====
-- How the renames of a commit lead from stage to stage.
use srcmv.Base.{◌≡◌, ◌⊎◌, inl, inr, Bool, true, false}
use srcmv.Recovery.State.{CommitKind, LocationObservation, original, candidate, absent}
use srcmv.Recovery.Classify.{location_eq, original_or_absent}
use srcmv.Transaction.Stages.{
  Stage, fresh_existing, moved_existing, placed_existing, backed_up_existing, placed_backed_up,
  installed_existing, fresh_new, placed_new, installed_new,
}

-- The stages that a run can start an installation from, and the stages after its renames.
pub started_existing :
    {existed : Bool} {kind : CommitKind} {t c b : LocationObservation}
    (P : LocationObservation → LocationObservation → LocationObservation → Type 0)
    → Stage existed kind t c b
    → existed ≡ true
    → location_eq t candidate ≡ false
    → P t c b
    → P original candidate absent ⊎ P absent candidate original
started_existing P fresh_existing e h p = inl p
started_existing P moved_existing e h p = inr p
started_existing P backed_up_existing e h p = inr p
started_existing P placed_existing e h p = cc
started_existing P placed_backed_up e h p = cc
started_existing P installed_existing e h p = cc
started_existing P fresh_new e h p = cc
started_existing P placed_new e h p = cc
started_existing P installed_new e h p = cc

pub started_new :
    {existed : Bool} {kind : CommitKind} {t c b : LocationObservation}
    (P : LocationObservation → LocationObservation → LocationObservation → Type 0)
    → Stage existed kind t c b
    → existed ≡ false
    → location_eq t candidate ≡ false
    → P t c b
    → P absent candidate absent
started_new P fresh_new e h p = p
started_new P placed_new e h p = cc
started_new P installed_new e h p = cc
started_new P fresh_existing e h p = cc
started_new P moved_existing e h p = cc
started_new P backed_up_existing e h p = cc
started_new P placed_existing e h p = cc
started_new P placed_backed_up e h p = cc
started_new P installed_existing e h p = cc

pub standing_candidate :
    {existed : Bool} {kind : CommitKind} {t c b : LocationObservation}
    (P : LocationObservation → LocationObservation → LocationObservation → Type 0)
    → Stage existed kind t c b
    → location_eq t candidate ≡ true
    → P t c b
    → P candidate absent b
standing_candidate P placed_existing h p = p
standing_candidate P placed_backed_up h p = p
standing_candidate P installed_existing h p = p
standing_candidate P placed_new h p = p
standing_candidate P installed_new h p = p
standing_candidate P fresh_new h p = cc
standing_candidate P fresh_existing h p = cc
standing_candidate P moved_existing h p = cc
standing_candidate P backed_up_existing h p = cc

pub moved-Stage :
    (existed : Bool) (kind : CommitKind)
    → Stage existed kind original candidate absent
    → Stage existed kind absent candidate original
moved-Stage _ _ fresh_existing = moved_existing

pub placed-Stage :
    (existed : Bool) (kind : CommitKind) (b : LocationObservation)
    → Stage existed kind absent candidate b
    → Stage existed kind candidate absent b
placed-Stage _ _ _ moved_existing = placed_existing
placed-Stage _ _ _ backed_up_existing = placed_backed_up
placed-Stage _ _ _ fresh_new = placed_new

pub placed-backup :
    {existed : Bool} {kind : CommitKind} {b : LocationObservation}
    (P : LocationObservation → Type 0)
    → Stage existed kind candidate absent b
    → P b
    → P (original_or_absent existed)
placed-backup P placed_existing p = p
placed-backup P placed_backed_up p = p
placed-backup P installed_existing p = p
placed-backup P placed_new p = p
placed-backup P installed_new p = p
