-- ===== src/Transaction/Rollback.antt =====
-- `rollback_target`: each effect leaves a target that recovery can roll back.
use srcmv.Base.{
  if◌then◌else◌, is_some, ℕ, ◌≡◌, refl, sym, ap, ◌∙◌, Bool, true, false, not, ◌&&◌, arith, subst,
}
use srcmv.Recovery.State.{
  ready, RollbackKind, TargetState, LocationObservation, original, candidate, absent, unexpected,
  SyntheticTargetObservation,
}
use srcmv.Recovery.Classify.{location_eq, original_or_absent}
use srcmv.Fs.Errors.{FsResult, ok, ok_injective}
use srcmv.Journal.State.{candidate_kind_eq}
use srcmv.Journal.Publish.{Formats}
use srcmv.Transaction.Manifest.{ManifestTarget}
use srcmv.Transaction.Filesystem.{
  Place, at_target, at_candidate, at_backup, Location, Filesystem, FilesystemLaws,
}
use srcmv.Transaction.Run.{World, Run, ◌>>=◌, ◌>>◌, pure, ask, effect}
use srcmv.Transaction.Observe.{verify_original_location, verify_candidate_location}
use srcmv.Transaction.Stages.{observed_as}
use srcmv.Transaction.Hoare.{Keeps, >>=-Keeps, ask-Keeps, effect-Keeps}
use srcmv.Transaction.Steps.{verified_original}
use srcmv.Transaction.RollbackSteps.{path_exists, exists_at, restore_backup, remove_staged}
use srcmv.Transaction.RollbackStages.{
  RollbackStage, back_existing, back_staged, aside_existing, aside_staged, replaced_existing,
  restored_existing, gone_new, staged_new, created_new, restored_new, rolling_sight, Revertible,
  RestsAt, RestsAt-Revertible,
}
use srcmv.Transaction.RollbackMoves.{
  backup_of-is_some, location_of-is_some, installed_removed, staged_removed, backup_restored,
}

removed-Stage :
    {existed : Bool} {kind : RollbackKind} {t c b : LocationObservation}
    → RollbackStage existed kind t c b
    → location_eq t candidate ≡ true
    → RollbackStage existed kind absent c b
removed-Stage replaced_existing h = aside_existing
removed-Stage created_new h = gone_new
removed-Stage back_existing h = cc
removed-Stage back_staged h = cc
removed-Stage aside_existing h = cc
removed-Stage aside_staged h = cc
removed-Stage restored_existing h = cc
removed-Stage gone_new h = cc
removed-Stage staged_new h = cc
removed-Stage restored_new h = cc

-- A backup at a stage is that of an original, and it goes back.
moved_back-Stage :
    {existed : Bool} {kind : RollbackKind} {t c b : LocationObservation}
    → RollbackStage existed kind t c b
    → location_eq t candidate ≡ false
    → location_eq b absent ≡ false
    → (b ≡ original) × RollbackStage existed kind original c absent
moved_back-Stage aside_existing g h = (refl, back_existing)
moved_back-Stage aside_staged g h = (refl, back_staged)
moved_back-Stage replaced_existing g h = cc
moved_back-Stage back_existing g h = cc
moved_back-Stage back_staged g h = cc
moved_back-Stage restored_existing g h = cc
moved_back-Stage gone_new g h = cc
moved_back-Stage staged_new g h = cc
moved_back-Stage created_new g h = cc
moved_back-Stage restored_new g h = cc

-- A stage without a backup, the target being no candidate, has the target restored.
settled-Stage :
    {existed : Bool} {kind : RollbackKind} {t c b : LocationObservation}
    → RollbackStage existed kind t c b
    → location_eq t candidate ≡ false
    → (existed && not (location_eq b absent)) ≡ false
    → (t ≡ original_or_absent existed) × (b ≡ absent)
settled-Stage back_existing g h = (refl, refl)
settled-Stage back_staged g h = (refl, refl)
settled-Stage restored_existing g h = (refl, refl)
settled-Stage gone_new g h = (refl, refl)
settled-Stage staged_new g h = (refl, refl)
settled-Stage restored_new g h = (refl, refl)
settled-Stage aside_existing g h = cc
settled-Stage aside_staged g h = cc
settled-Stage replaced_existing g h = cc
settled-Stage created_new g h = cc

cleared-Stage :
    {existed : Bool} {kind : RollbackKind} {t c : LocationObservation}
    → RollbackStage existed kind t c absent
    → location_eq t candidate ≡ false
    → RollbackStage existed kind t absent absent
cleared-Stage back_existing h = back_existing
cleared-Stage back_staged h = back_existing
cleared-Stage restored_existing h = restored_existing
cleared-Stage gone_new h = gone_new
cleared-Stage staged_new h = gone_new
cleared-Stage restored_new h = restored_new
cleared-Stage created_new h = cc

module _ {W : Type 0} (fs : Filesystem W) (laws : FilesystemLaws W fs) (formats : Formats)
    (target : ManifestTarget) (index : ℕ) where
  abbrev pub Reverts : World W → Type 0
  Reverts = Revertible fs laws target index

  abbrev pub Rest :
      LocationObservation → LocationObservation → LocationObservation → World W → Type 0
  Rest = RestsAt fs laws target index

  pub Rest-moved :
      (w : World W) (after : W) (t c b t' c' b' : LocationObservation)
      → ((r : TargetState)
          → rolling_sight fs laws target index r w.files ≡ observed_as t c b
          → rolling_sight fs laws target index r after ≡ observed_as t' c' b')
      → ((kind : RollbackKind)
          → RollbackStage target.original_existed kind t c b
          → RollbackStage target.original_existed kind t' c' b')
      → Rest t c b w
      → Rest t' c' b' (record w { files = after })
  Rest-moved w after t c b t' c' b' moves steps (kind, rests, stage) = (
    kind,
    record {
      recorded = rests.recorded;
      found = rests.found;
      is_rolling = rests.is_rolling;
      has_kind = rests.has_kind;
      at_place = moves rests.recorded rests.at_place;
    },
    steps kind stage,
  )

  -- What `rollback_target` has read first.
  abbrev pub Looked : SyntheticTargetObservation → World W → Type 0
  Looked observed w =
      (t : LocationObservation) × (c : LocationObservation) × (b : LocationObservation) × Rest t c b
        w
      × (observed ≡ observed_as t c b)

  -- No candidate is at the target.
  abbrev pub Away : World W → Type 0
  Away w =
      (t : LocationObservation) × (c : LocationObservation) × (b : LocationObservation) × Rest t c b
        w
      × (location_eq t candidate ≡ false)

  -- The target is restored.
  abbrev pub Settled : World W → Type 0
  Settled w =
      (c : LocationObservation) × Rest (original_or_absent target.original_existed) c absent w

  abbrev pub Cleared : World W → Type 0
  Cleared = Rest (original_or_absent target.original_existed) absent absent

  pub asked :
      {T U : Type 0} (P : World W → Type 0) (Q : U → World W → Type 0)
      (question : World W → FsResult T) (next : T → Run W U)
      → ((a : T) → Keeps Reverts P (next a) Q)
      → Keeps Reverts P (ask question >>= next) Q
  asked P Q question next step =
      >>=-Keeps Reverts P (λ _. P) Q (ask question) next
        (ask-Keeps Reverts P (λ _. P) question λ w a p h. p) step

  pub remove_installed-Keeps :
      (state : TargetState) (observed : SyntheticTargetObservation) (there : Bool)
      → location_eq observed.target candidate ≡ there
      → Keeps Reverts
          (Looked observed)
          (if there
            then (do
              _ ← ask (λ world.
                  verify_candidate_location fs (index, at_target) target state world.files)
              effect (fs.remove_file (index, at_target))
              ask (λ world. fs.sync world.files))
            else pure tt)
          (λ _. Away)
  remove_installed-Keeps state observed false same =
      λ w (t, c, b, rest, seen). (tt, (t, c, b, rest, rw (sym (ap (λ o. o.target) seen)) same))
  remove_installed-Keeps state observed true same =
      asked (Looked observed) (λ _. Away)
        (λ world. verify_candidate_location fs (index, at_target) target state world.files) _
        λ _.
          >>=-Keeps Reverts (Looked observed) (λ _. Away) (λ _. Away)
            (effect (fs.remove_file (index, at_target))) (λ _. ask (λ world. fs.sync world.files))
            (effect-Keeps Reverts (Looked observed) Away (fs.remove_file (index, at_target))
              λ w after (t, c, b, rest, seen) removed.
                let next =
                  Rest-moved w after t c b absent c b
                    (λ r. installed_removed fs laws target index r w.files after t c b removed)
                    (λ kind stage. removed-Stage stage (rw (sym (ap (λ o. o.target) seen)) same))
                    rest in
                (
                  RestsAt-Revertible fs laws target index (record w { files = after }) next,
                  (absent, c, b, next, refl),
                ))
            λ _. ask-Keeps Reverts Away (λ _. Away) (λ world. fs.sync world.files) λ w a p h. p

  backup_seen :
      (w : World W) {t c b : LocationObservation}
      → Rest t c b w
      → is_some (laws.contents (index, at_backup) w.files) ≡ not (location_eq b absent)
  backup_seen w (kind, rests, stage) =
      let seen = backup_of-is_some (laws.contents (index, at_backup) w.files) target in
      let place = ap (λ o. o.backup) rests.at_place in cc

  candidate_seen :
      (w : World W) {t c b : LocationObservation}
      → Rest t c b w
      → is_some (laws.contents (index, at_candidate) w.files) ≡ not (location_eq c absent)
  candidate_seen w (kind, rests, stage) =
      let seen =
        location_of-is_some (laws.contents (index, at_candidate) w.files) target
          rests.recorded.candidate true in
      let place = ap (λ o. o.candidate) rests.at_place in cc

  -- What is asked of the backup, in front of the restoration.
  abbrev pub Asked : Location → (World W → Type 0) → Bool → World W → Type 0
  Asked l P answer w = P w × (is_some (laws.contents l w.files) ≡ answer)

  exists-Keeps :
      (p : Place) (P : World W → Type 0)
      → ((w : W) → (found : Bool) × (fs.metadata (index, p) w ≡ ok found))
      → Keeps Reverts P (exists_at fs formats (index, p)) (Asked (index, p) P)
  exists-Keeps p P answers =
      let l : Location = (index, p) in
      ask-Keeps Reverts P (Asked l P) (λ w. ok (path_exists (fs.metadata l w.files)))
        λ w a held h.
          let (found, answer) = answers w.files in
          let seen : path_exists (fs.metadata l w.files) ≡ found = rw answer refl in
          (
            held,
            sym (laws.metadata_reads l w.files found answer)
                ∙ sym seen
                ∙ ok_injective (path_exists (fs.metadata l w.files)) a h,
          )

  restored-Keeps :
      (answer both : Bool)
      → (target.original_existed && answer) ≡ both
      → Keeps Reverts
          (Asked (index, at_backup) Away answer)
          (if both
            then (do
              _ ← verified_original fs formats (index, at_backup) target
              effect (fs.rename (index, at_backup) (index, at_target))
              ask (λ world. fs.sync world.files)
              ask (λ world. fs.sync world.files))
            else pure tt)
          (λ _. Settled)
  restored-Keeps answer false both = λ w ((t, c, b, (kind, rests, stage), away), seen).
      let there = backup_seen w (kind, rests, stage) in
      let (t_is, b_is) = settled-Stage stage away (rw (sym there, seen) both) in
      (
        tt,
        (
          c,
          subst (λ x. Rest x c absent w) t_is (subst (λ y. Rest t c y w) b_is (kind, rests, stage)),
        ),
      )
  restored-Keeps answer true both =
      asked (Asked (index, at_backup) Away answer) (λ _. Settled)
        (λ world. verify_original_location fs (index, at_backup) target world.files) _
        λ _.
          >>=-Keeps Reverts (Asked (index, at_backup) Away answer) (λ _. Settled) (λ _. Settled)
            (effect (fs.rename (index, at_backup) (index, at_target))) _
            (effect-Keeps Reverts (Asked (index, at_backup) Away answer) Settled
              (fs.rename (index, at_backup) (index, at_target))
              λ w after ((t, c, b, (kind, rests, stage), away), seen) renamed.
                let there = backup_seen w (kind, rests, stage) in
                let b_there : location_eq b absent ≡ false = ground arith in
                let existed : target.original_existed ≡ true = ground arith in
                let orig = (moved_back-Stage stage away b_there).0 in
                let next =
                  Rest-moved w after t c b original c absent
                    (λ r at_b. backup_restored fs laws target index r w.files after t c renamed (
                      subst (λ x. rolling_sight fs laws target index r w.files ≡ observed_as t c x)
                        orig at_b))
                    (λ k other. (moved_back-Stage other away b_there).1) (kind, rests, stage) in
                let settled : Rest (original_or_absent target.original_existed) c absent
                    (record w { files = after }) =
                  subst (λ e. Rest (original_or_absent e) c absent (record w { files = after }))
                    (sym existed) next in
                (
                  RestsAt-Revertible fs laws target index (record w { files = after }) next,
                  (c, settled),
                ))
            λ _.
              asked Settled (λ _. Settled) (λ world. fs.sync world.files)
                (λ _. ask (λ world. fs.sync world.files))
                λ _.
                  ask-Keeps Reverts Settled (λ _. Settled) (λ world. fs.sync world.files)
                    λ w a p h. p

  pub restore_backup-Keeps :
      ((w : W) → (found : Bool) × (fs.metadata (index, at_backup) w ≡ ok found))
      → Keeps Reverts Away (restore_backup fs formats target index) (λ _. Settled)
  unfolding restore_backup
  restore_backup-Keeps answers =
      >>=-Keeps Reverts Away (Asked (index, at_backup) Away) (λ _. Settled)
        (exists_at fs formats (index, at_backup)) _ (exists-Keeps at_backup Away answers)
        λ answer. restored-Keeps answer (target.original_existed && answer) refl

  settled_away : (existed : Bool) → location_eq (original_or_absent existed) candidate ≡ false
  settled_away true = refl
  settled_away false = refl

  is_absent : (c : LocationObservation) → not (location_eq c absent) ≡ false → c ≡ absent
  is_absent absent h = refl
  is_absent original h = cc
  is_absent candidate h = cc
  is_absent unexpected h = cc

  unstaged-Keeps :
      (state : TargetState) (answer is_ready : Bool)
      → Keeps Reverts
          (Asked (index, at_candidate) Settled answer)
          (if answer
            then (do
              (if is_ready
                  then (do
                    _ ← ask (λ world.
                        verify_candidate_location fs (index, at_candidate) target state world.files)
                    pure tt)
                  else ask (λ world. fs.validate_partial (index, at_candidate) world.files))
              effect (fs.remove_file (index, at_candidate))
              ask (λ world. fs.sync world.files))
            else pure tt)
          (λ _. Cleared)
  unstaged-Keeps state false is_ready = λ w ((c, rest), seen).
      let there = candidate_seen w rest in
      let c_is = is_absent c (sym there ∙ seen) in
      (tt, subst (λ x. Rest (original_or_absent target.original_existed) x absent w) c_is rest)
  unstaged-Keeps state true is_ready =
      >>=-Keeps Reverts (Asked (index, at_candidate) Settled true) (λ _. Settled) (λ _. Cleared) _ _
        (checked is_ready)
        λ _.
          >>=-Keeps Reverts Settled (λ _. Cleared) (λ _. Cleared)
            (effect (fs.remove_file (index, at_candidate)))
            (λ _. ask (λ world. fs.sync world.files))
            (effect-Keeps Reverts Settled Cleared (fs.remove_file (index, at_candidate))
              λ w after (c, rest) removed.
                let next =
                  Rest-moved w after (original_or_absent target.original_existed) c absent
                    (original_or_absent target.original_existed) absent absent
                    (λ r.
                      staged_removed fs laws target index r w.files after
                        (original_or_absent target.original_existed) c absent removed)
                    (λ kind stage. cleared-Stage stage (settled_away target.original_existed))
                    rest in
                (RestsAt-Revertible fs laws target index (record w { files = after }) next, next))
            λ _.
              ask-Keeps Reverts Cleared (λ _. Cleared) (λ world. fs.sync world.files) λ w a p h. p
    where
      checked :
          (b : Bool)
          → Keeps Reverts
              (Asked (index, at_candidate) Settled true)
              (if b
                then (do
                  _ ← ask (λ world.
                      verify_candidate_location fs (index, at_candidate) target state world.files)
                  pure tt)
                else ask (λ world. fs.validate_partial (index, at_candidate) world.files))
              (λ _. Settled)
      checked true =
          asked (Asked (index, at_candidate) Settled true) (λ _. Settled)
            (λ world. verify_candidate_location fs (index, at_candidate) target state world.files)
            (λ _. pure tt) λ _ w p. (tt, p.0)
      checked false =
          ask-Keeps Reverts (Asked (index, at_candidate) Settled true) (λ _. Settled)
            (λ world. fs.validate_partial (index, at_candidate) world.files) λ w a p h. p.0

  pub remove_staged-Keeps :
      (state : TargetState)
      → ((w : W) → (found : Bool) × (fs.metadata (index, at_candidate) w ≡ ok found))
      → Keeps Reverts Settled (remove_staged fs formats target index state) (λ _. Cleared)
  unfolding remove_staged
  remove_staged-Keeps state answers =
      >>=-Keeps Reverts Settled (Asked (index, at_candidate) Settled) (λ _. Cleared)
        (exists_at fs formats (index, at_candidate)) _ (exists-Keeps at_candidate Settled answers)
        λ answer. unstaged-Keeps state answer (candidate_kind_eq state.candidate.kind ready)
