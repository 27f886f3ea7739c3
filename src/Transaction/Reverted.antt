-- ===== src/Transaction/Reverted.antt =====
-- `rollback_target`: the record of the restoration, and the whole.
use srcmv.Base.{
  if◌then◌else◌, get_elem?, All, ℕ, ◌≡◌, refl, sym, ap, ◌∙◌, Bool, true, false, ◌||◌, none, some,
  subst,
}
use srcmv.Recovery.State.{
  RollbackKind, not_restored, original_restored, absence_restored, RollbackState, TargetState,
  rolling_back, LocationObservation, candidate, absent, SyntheticTargetObservation,
}
use srcmv.Recovery.Classify.{location_eq, original_or_absent}
use srcmv.Fs.Errors.{
  ConflictReason, backup_remains_after_original_restore, absence_not_restored,
  state_target_index_exists, internal_invariant, ok, ok_or,
}
use srcmv.Journal.State.{rollback_kind_eq}
use srcmv.Journal.Publish.{Formats}
use srcmv.Transaction.Manifest.{ManifestTarget}
use srcmv.Transaction.Filesystem.{
  Place, at_target, at_candidate, at_backup, Filesystem, FilesystemLaws,
}
use srcmv.Transaction.Run.{World, ◌>>=◌, pure}
use srcmv.Transaction.Observe.{observe_target, verify_original_location}
use srcmv.Transaction.Assertions.{get_elem?-update_at, sight-frame}
use srcmv.Transaction.Hoare.{Post, Keeps, >>=-Keeps, ask-Keeps}
use srcmv.Transaction.Facts.{publish-Keeps}
use srcmv.Transaction.Commit.{ok_or-some}
use srcmv.Transaction.Steps.{
  update_at, publish_target_transition, recorded_at, observed_at, verified_original,
}
use srcmv.Transaction.RollbackSteps.{
  path_exists, exists_at, refuse, set_rollback, remove_installed, restore_backup, remove_staged,
  restored_state, publish_restored, rollback_target,
}
use srcmv.Transaction.RollbackStages.{
  RollbackStage, back_existing, back_staged, aside_existing, aside_staged, replaced_existing,
  restored_existing, gone_new, staged_new, created_new, restored_new, rolling_sight,
  rolling_sight-sight, Revertible, Rests, RestsAt-Revertible, Revertible-RestsAt,
  observe_target-rolling_sight,
}
use srcmv.Transaction.Rollback.{
  Reverts, Looked, Away, Settled, Cleared, asked, remove_installed-Keeps, restore_backup-Keeps,
  remove_staged-Keeps,
}

-- The restoration that an original asks for.
abbrev pub restored_kind : Bool → RollbackKind
restored_kind true = original_restored
restored_kind false = absence_restored

restored-Stage :
    (existed : Bool)
    → RollbackStage existed (restored_kind existed) (original_or_absent existed) absent absent
restored-Stage true = restored_existing
restored-Stage false = restored_new

recorded_kind :
    {existed : Bool} {kind : RollbackKind} {t c b : LocationObservation}
    → RollbackStage existed kind t c b
    → rollback_kind_eq kind not_restored ≡ false
    → kind ≡ restored_kind existed
recorded_kind restored_existing h = refl
recorded_kind restored_new h = refl
recorded_kind back_existing h = cc
recorded_kind back_staged h = cc
recorded_kind aside_existing h = cc
recorded_kind aside_staged h = cc
recorded_kind replaced_existing h = cc
recorded_kind gone_new h = cc
recorded_kind staged_new h = cc
recorded_kind created_new h = cc

module _ {W : Type 0} (fs : Filesystem W) (laws : FilesystemLaws W fs) (formats : Formats)
    (target : ManifestTarget) (index : ℕ) where
  abbrev IsSafe : World W → Type 0
  IsSafe = Reverts fs laws formats target index

  abbrev IsCleared : World W → Type 0
  IsCleared = Cleared fs laws formats target index

  -- The restoration is recorded.
  abbrev pub Reverted : World W → Type 0
  Reverted =
      Rests fs laws target index (restored_kind target.original_existed)
        (original_or_absent target.original_existed) absent absent

  -- A restoration of the right kind is at hand.
  abbrev AtHand : RollbackState → World W → Type 0
  AtHand restored w = IsCleared w × (restored.kind ≡ restored_kind target.original_existed)

  refused :
      {T : Type 0} (Q : T → World W → Type 0) (reason : ConflictReason)
      → Keeps IsSafe IsCleared (refuse fs formats reason) Q
  refused Q reason w p = (tt, tt)

  restored_state-Keeps :
      (existed : Bool)
      → target.original_existed ≡ existed
      → Keeps IsSafe IsCleared
          (if existed
            then (do
              found ← verified_original fs formats (index, at_target) target
              backup_exists ← exists_at fs formats (index, at_backup)
              if backup_exists
                  then refuse fs formats backup_remains_after_original_restore
                  else pure (record { kind = original_restored; identity = some found.identity }))
            else do
              target_exists ← exists_at fs formats (index, at_target)
              backup_exists ← exists_at fs formats (index, at_backup)
              if target_exists || backup_exists
                  then refuse fs formats absence_not_restored
                  else pure (record { kind = absence_restored; identity = none }))
          AtHand
  restored_state-Keeps true existed =
      asked fs laws formats target index IsCleared AtHand
        (λ world. verify_original_location fs (index, at_target) target world.files) _
        λ found.
          asked fs laws formats target index IsCleared AtHand
            (λ w. ok (path_exists (fs.metadata (index, at_backup) w.files))) _
            λ b.
              returns b (record { kind = original_restored; identity = some found.identity })
                backup_remains_after_original_restore (rw existed refl)
    where
      returns :
          (b : Bool) (restored : RollbackState) (reason : ConflictReason)
          → restored.kind ≡ restored_kind target.original_existed
          → Keeps IsSafe IsCleared (if b then refuse fs formats reason else pure restored) AtHand
      returns true restored reason kind = refused AtHand reason
      returns false restored reason kind = λ w p. (tt, (p, kind))
  restored_state-Keeps false existed =
      asked fs laws formats target index IsCleared AtHand
        (λ w. ok (path_exists (fs.metadata (index, at_target) w.files))) _
        λ t.
          asked fs laws formats target index IsCleared AtHand
            (λ w. ok (path_exists (fs.metadata (index, at_backup) w.files))) _
            λ b.
              returns (t || b) (record { kind = absence_restored; identity = none })
                absence_not_restored (rw existed refl)
    where
      returns :
          (b : Bool) (restored : RollbackState) (reason : ConflictReason)
          → restored.kind ≡ restored_kind target.original_existed
          → Keeps IsSafe IsCleared (if b then refuse fs formats reason else pure restored) AtHand
      returns true restored reason kind = refused AtHand reason
      returns false restored reason kind = λ w p. (tt, (p, kind))

  publish_restored-Keeps :
      (restored : RollbackState)
      → Keeps IsSafe (AtHand restored) (publish_restored fs formats index restored) (λ _. Reverted)
  unfolding publish_restored
  publish_restored-Keeps restored =
      >>=-Keeps IsSafe (AtHand restored) Found (λ _. Reverted) (recorded_at fs formats index) _
        (ask-Keeps IsSafe (AtHand restored) Found
          (λ w.
            ok_or (internal_invariant state_target_index_exists)
              (get_elem? w.progress.state.targets index))
          λ w r p h. (
            p,
            ok_or-some (internal_invariant state_target_index_exists)
                (get_elem? w.progress.state.targets index) h,
          ))
        λ r. branch r (rollback_kind_eq r.rollback.kind not_restored) refl
    where
      Found : TargetState → World W → Type 0
      Found r w = AtHand restored w × (get_elem? w.progress.state.targets index ≡ some r)

      branch :
          (r : TargetState) (b : Bool)
          → rollback_kind_eq r.rollback.kind not_restored ≡ b
          → Keeps IsSafe
              (Found r)
              (if b
                then publish_target_transition fs formats rolling_back index
                    (set_rollback fs formats restored)
                else pure tt)
              (λ _. Reverted)
      branch r true fresh =
          publish-Keeps fs formats IsSafe rolling_back
            (update_at index (set_rollback fs formats restored)) (Found r) Reverted
            λ w after (((kind, rests, stage), restored_is), found) same globals written.
              let kept =
                laws.publish_keeps after.progress.state.sequence w.files after.files written in
              let done : Reverted after = record {
                recorded = set_rollback fs formats restored rests.recorded;
                found =
                    get_elem?-update_at index (set_rollback fs formats restored)
                      w.progress.state.targets after.progress.state.targets same rests.found;
                is_rolling = globals;
                has_kind = restored_is;
                at_place =
                    rolling_sight-sight fs laws target index rests.recorded after.files
                    ∙ sight-frame fs laws target index rests.recorded w.files after.files kept
                    ∙ sym (rolling_sight-sight fs laws target index rests.recorded w.files)
                    ∙ rests.at_place;
              } in
              (
                RestsAt-Revertible fs laws target index after (
                  restored_kind target.original_existed,
                  done,
                  restored-Stage target.original_existed,
                ),
                done,
              )
      branch r false stale = λ w (((kind, rests, stage), restored_is), found).
          let known = rests.found in
          let it : r ≡ rests.recorded = cc in
          let has = rests.has_kind in
          let kinds : r.rollback.kind ≡ kind = ap (λ s. s.rollback.kind) it ∙ has in
          let same = recorded_kind stage (rw (sym kinds) stale) in
          (
            tt,
            subst
                (λ k.
                  Rests fs laws target index k (original_or_absent target.original_existed) absent
                    absent w)
                same rests,
          )

  rollback_target-Keeps :
      ((p : Place) (w : W) → (found : Bool) × (fs.metadata (index, p) w ≡ ok found))
      → Keeps IsSafe IsSafe (rollback_target fs formats target index) (λ _. Reverted)
  unfolding rollback_target remove_installed restored_state
  rollback_target-Keeps answers =
      asked fs laws formats target index IsSafe (λ _. Reverted) (λ w. fs.target_paths index w.files)
        _
        λ _.
          >>=-Keeps IsSafe IsSafe Known (λ _. Reverted) (recorded_at fs formats index) _
            (ask-Keeps IsSafe IsSafe Known
              (λ w.
                ok_or (internal_invariant state_target_index_exists)
                  (get_elem? w.progress.state.targets index))
              λ w r p h. (
                p,
                ok_or-some (internal_invariant state_target_index_exists)
                    (get_elem? w.progress.state.targets index) h,
              ))
            λ r.
              >>=-Keeps IsSafe (Known r) (Looked fs laws formats target index) (λ _. Reverted)
                (observed_at fs formats target index r) _
                (ask-Keeps IsSafe (Known r) (Looked fs laws formats target index)
                  (λ w. observe_target fs target index r w.progress.state.global_state w.files)
                  λ w observed p h. looked r w observed p.0 p.1 h)
                λ observed.
                  >>=-Keeps IsSafe (Looked fs laws formats target index observed)
                    (λ _. Away fs laws formats target index) (λ _. Reverted) _ _
                    (remove_installed-Keeps fs laws formats target index r observed
                      (location_eq observed.target candidate) refl)
                    λ _.
                      >>=-Keeps IsSafe (Away fs laws formats target index)
                        (λ _. Settled fs laws formats target index) (λ _. Reverted)
                        (restore_backup fs formats target index) _
                        (restore_backup-Keeps fs laws formats target index (answers at_backup))
                        λ _.
                          >>=-Keeps IsSafe (Settled fs laws formats target index) (λ _. IsCleared)
                            (λ _. Reverted) (remove_staged fs formats target index r) _
                            (remove_staged-Keeps fs laws formats target index r
                              (answers at_candidate))
                            λ _.
                              >>=-Keeps IsSafe IsCleared AtHand (λ _. Reverted)
                                (restored_state fs formats target index)
                                (λ restored. publish_restored fs formats index restored)
                                (restored_state-Keeps target.original_existed refl)
                                publish_restored-Keeps
    where
      Known : TargetState → World W → Type 0
      Known r w = IsSafe w × (get_elem? w.progress.state.targets index ≡ some r)

      looked :
          (r : TargetState) (w : World W) (observed : SyntheticTargetObservation)
          → IsSafe w
          → get_elem? w.progress.state.targets index ≡ some r
          → observe_target fs target index r w.progress.state.global_state w.files ≡ ok observed
          → Looked fs laws formats target index observed w
      looked r w observed safe found h =
          let place = rolling_sight fs laws target index safe.recorded w.files in
          let known = safe.found in
          let same : r ≡ safe.recorded = cc in
          let globals = safe.is_rolling in
          let seen =
            observe_target-rolling_sight fs laws target index r w.files observed
              (subst (λ g. observe_target fs target index r g w.files ≡ ok observed) globals h) in
          (
            place.target,
            place.candidate,
            place.backup,
            Revertible-RestsAt fs laws target index w safe,
            rw (sym same) seen,
          )

-- From a world in which a target is recorded in the state `RollingBack` and recovery allows its
-- rollback, and if the metadata calls behind `Path::exists`, whose failure would read as absence,
-- answer for the three locations of the target, `rollback_target` passes, after each removal,
-- rename and publication and whichever other call fails, only worlds in which recovery still
-- allows the rollback; and if it returns without an error, then the restoration is recorded, the
-- original is at the target path, if there was one, and nothing otherwise, and the candidate and
-- the backup name are free. The calls that change files are assumed to do what they document.
pub rollback_target-Revertible :
    {W : Type 0} (fs : Filesystem W) (laws : FilesystemLaws W fs) (formats : Formats)
    (target : ManifestTarget) (index : ℕ) (w : World W)
    → ((p : Place) (v : W) → (found : Bool) × (fs.metadata (index, p) v ≡ ok found))
    → Revertible fs laws target index w
    → let ran = rollback_target fs formats target index w in
      All (Revertible fs laws target index) ran.trace
      × Post (λ _. Reverted fs laws formats target index) ran.value ran.world
rollback_target-Revertible fs laws formats target index w answers =
    rollback_target-Keeps fs laws formats target index answers w
