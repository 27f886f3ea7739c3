-- ===== src/Transaction/Moves.antt =====
-- What the renames do to the locations of a target.
use srcmv.Base.{ℕ, ◌≡◌, ap, ◌≢◌, Bool, true, false, Option, none}
use srcmv.Recovery.State.{TargetState, committing, LocationObservation, original, candidate, absent}
use srcmv.Fs.Errors.{ok}
use srcmv.Transaction.Manifest.{ManifestTarget, Fingerprint}
use srcmv.Transaction.Filesystem.{
  Place, at_target, at_candidate, at_backup, Location, Filesystem, FilesystemLaws,
}
use srcmv.Transaction.Observe.{location_of, backup_of}
use srcmv.Transaction.Stages.{observed_as, location_of-committing, original-backup_of}
use srcmv.Transaction.Assertions.{sight}

module _ {W : Type 0} (fs : Filesystem W) (laws : FilesystemLaws W fs) (target : ManifestTarget)
    (index : ℕ) where
  -- The moves that the renames make.
  absent_location :
      (r : TargetState) (seen : Option Fingerprint) (staged : Bool)
      → seen ≡ none
      → location_of seen target r.candidate staged committing ≡ absent
  unfolding location_of
  absent_location r seen staged h = rw h

  absent_backup : (seen : Option Fingerprint) → seen ≡ none → backup_of seen target ≡ absent
  unfolding backup_of
  absent_backup seen h = rw h

  sight_parts :
      (r : TargetState) (w : W) {t c b : LocationObservation}
      → sight fs laws target index r w ≡ observed_as t c b
      → (location_of (laws.contents (index, at_target) w) target r.candidate false committing ≡ t)
        × (location_of (laws.contents (index, at_candidate) w) target r.candidate true committing
            ≡ c)
        × (backup_of (laws.contents (index, at_backup) w) target ≡ b)
  sight_parts r w h = (ap (λ o. o.target) h, ap (λ o. o.candidate) h, ap (λ o. o.backup) h)

  pub distinct_at : {a b : Place} → a ≢ b → ◌≢◌ {A = Location} (index, a) (index, b)
  distinct_at distinct same = distinct (ap (λ l. l.1) same)

  pub target_moved :
      (r : TargetState) (w after : W) (c b : LocationObservation)
      → fs.rename (index, at_target) (index, at_backup) w ≡ ok after
      → sight fs laws target index r w ≡ observed_as original c b
      → sight fs laws target index r after ≡ observed_as absent c original
  target_moved r w after c b renamed seen =
      let (free, moved, gone, others) =
        laws.rename_moves (index, at_target) (index, at_backup) w after renamed in
      let (t_is, c_is, b_is) = sight_parts r w seen in
      let staged = others (index, at_candidate) (distinct_at λ h. cc) (distinct_at λ h. cc) in
      let t_now = absent_location r (laws.contents (index, at_target) after) false gone in
      let b_now = original-backup_of (laws.contents (index, at_target) w) target r.candidate t_is in
      cc

  pub candidate_moved :
      (r : TargetState) (w after : W) (t b : LocationObservation)
      → fs.rename (index, at_candidate) (index, at_target) w ≡ ok after
      → sight fs laws target index r w ≡ observed_as t candidate b
      → sight fs laws target index r after ≡ observed_as candidate absent b
  candidate_moved r w after t b renamed seen =
      let (free, moved, gone, others) =
        laws.rename_moves (index, at_candidate) (index, at_target) w after renamed in
      let (t_is, c_is, b_is) = sight_parts r w seen in
      let kept = others (index, at_backup) (distinct_at λ h. cc) (distinct_at λ h. cc) in
      let c_now = absent_location r (laws.contents (index, at_candidate) after) true gone in
      let flag =
        location_of-committing (laws.contents (index, at_candidate) w) target r.candidate in
      cc
