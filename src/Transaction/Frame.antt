-- ===== src/Transaction/Frame.antt =====
-- `complete_target` leaves the other targets alone.
use srcmv.Base.{
  if◌then◌else◌, get_elem?, ℕ, zero, suc, ◌≡◌, refl, sym, ap, ◌∙◌, ◌≢◌, Bool, true, false, List, [],
  ◌∷◌,
}
use srcmv.Recovery.State.{
  PersistedIdentity, untouched, installed, TargetState, committing, original, candidate,
  SyntheticTargetObservation,
}
use srcmv.Recovery.Classify.{location_eq}
use srcmv.Fs.Errors.{
  state_target_index_exists, new_target_has_recorded_mode, internal_invariant, FsResult, ok, err,
  ok_or, ok_injective,
}
use srcmv.Journal.State.{commit_kind_eq}
use srcmv.Journal.Publish.{Formats}
use srcmv.Transaction.Manifest.{ManifestTarget}
use srcmv.Transaction.Filesystem.{
  Place, at_target, at_candidate, at_backup, Location, Filesystem, FilesystemLaws,
}
use srcmv.Transaction.Run.{World, Run, ◌>>=◌, pure, ask, effect}
use srcmv.Transaction.Observe.{observe_target, verify_original_location, verify_candidate_location}
use srcmv.Transaction.Steps.{
  update_at, publish_target_transition, recorded_at, observed_at, verified_candidate,
  verified_original, set_installed, set_backed_up, publish_installed, back_up, prepare_new, install,
  complete_target,
}
use srcmv.Transaction.Hoare.{Keeps, >>=-Keeps, ask-Keeps, effect-Keeps}
use srcmv.Transaction.Facts.{publish-Keeps}

get_elem?-other :
    (index j : ℕ) (update : TargetState → TargetState) (states after : List TargetState)
    → update_at index update states ≡ ok after
    → j ≢ index
    → get_elem? after j ≡ get_elem? states j
unfolding update_at
get_elem?-other index j update [] after h away = cc
get_elem?-other zero zero update (s ∷ states) after h away = absurd (away refl)
get_elem?-other zero (suc j) update (s ∷ states) after h away =
    sym (ap (λ a. get_elem? a (suc j)) (ok_injective (update s ∷ states) after h))
get_elem?-other (suc index) j update (s ∷ states) after h away =
    go (λ k rest same. get_elem?-other index k update states rest same)
      (update_at index update states) refl h j away
  where
    go :
        ((k : ℕ) (rest : List TargetState)
          → update_at index update states ≡ ok rest
          → k ≢ index
          → get_elem? rest k ≡ get_elem? states k)
        → (value : FsResult (List TargetState)) → update_at index update states ≡ value
        → elim value [ err e ↦ err e | ok rest ↦ ok (s ∷ rest) ] ≡ ok after
        → (k : ℕ) → k ≢ suc index
        → get_elem? after k ≡ get_elem? (s ∷ states) k
    go updated (err e) same made k away = cc
    go updated (ok rest) same made zero away =
        sym (ap (λ a. get_elem? a zero) (ok_injective (s ∷ rest) after made))
    go updated (ok rest) same made (suc k) away =
        sym (ap (λ a. get_elem? a (suc k)) (ok_injective (s ∷ rest) after made))
        ∙ updated k rest same (λ e. away (ap suc e))

module _ {W : Type 0} (fs : Filesystem W) (laws : FilesystemLaws W fs) (formats : Formats) where
  -- One target is recorded and placed as in an earlier world, in the state committing.
  pub record Untouched (j : ℕ) (before w : World W) : Type 0 where
    pub same_record :
        get_elem? w.progress.state.targets j ≡ get_elem? before.progress.state.targets j
    pub stays : w.progress.state.global_state ≡ committing
    pub same_contents :
        (p : Place) → laws.contents (j, p) w.files ≡ laws.contents (j, p) before.files

  module _ (target : ManifestTarget) (index j : ℕ) (away : j ≢ index) (before : World W) where
    abbrev Kept : World W → Type 0
    Kept = Untouched j before

    -- A run that keeps it throughout.
    abbrev Leaves : {T : Type 0} → Run W T → Type 0
    Leaves run = Keeps Kept Kept run (λ _. Kept)

    asks : {T : Type 0} (question : World W → FsResult T) → Leaves (ask question)
    asks question = ask-Keeps Kept Kept (λ _. Kept) question λ w a p h. p

    after :
        {T U : Type 0} (first : Run W T) (next : T → Run W U)
        → Leaves first
        → ((a : T) → Leaves (next a))
        → Leaves (first >>= next)
    after first next start step = >>=-Keeps Kept Kept (λ _. Kept) (λ _. Kept) first next start step

    chooses :
        {T : Type 0} (b : Bool) (x y : Run W T) → Leaves x → Leaves y → Leaves (if b then x else y)
    chooses true x y p q = p
    chooses false x y p q = q

    calls :
        (call : W → FsResult W)
        → ((w later : W)
            → call w ≡ ok later
            → (p : Place) → laws.contents (j, p) later ≡ laws.contents (j, p) w)
        → Leaves (effect call)
    calls call keeps = effect-Keeps Kept Kept Kept call λ w later kept called.
        let next : Kept (record w { files = later }) = record {
          same_record = kept.same_record;
          stays = kept.stays;
          same_contents = λ p. keeps w.files later called p ∙ kept.same_contents p;
        } in
        (next, next)

    renames : (p q : Place) → Leaves (effect (fs.rename (index, p) (index, q)))
    renames p q = calls (fs.rename (index, p) (index, q)) λ w later called r.
        (laws.rename_moves (index, p) (index, q) w later called).3 (j, r)
          (λ same. away (ap (λ l. l.0) same)) (λ same. away (ap (λ l. l.0) same))

    sets_mode : (l : Location) (mode : ℕ) → Leaves (effect (fs.set_mode l mode))
    sets_mode l mode =
        calls (fs.set_mode l mode)
          λ w later called r. laws.set_mode_keeps l mode w later called (j, r)

    publishes :
        (update : TargetState → TargetState)
        → Leaves (publish_target_transition fs formats committing index update)
    publishes update =
        publish-Keeps fs formats Kept committing (update_at index update) Kept Kept
          λ w later kept same globals written.
            let next : Kept later = record {
              same_record =
                  get_elem?-other index j update w.progress.state.targets
                    later.progress.state.targets same away
                  ∙ kept.same_record;
              stays = globals;
              same_contents = λ p.
                  laws.publish_keeps later.progress.state.sequence w.files later.files written
                    (j, p)
                  ∙ kept.same_contents p;
            } in
            (next, next)

    nothing : Leaves (pure {W = W} {T = Unit {0}} tt)
    nothing w kept = (tt, kept)

    reads : Leaves (recorded_at fs formats index)
    reads = asks (λ w.
        ok_or (internal_invariant state_target_index_exists)
          (get_elem? w.progress.state.targets index))

    verifies : (l : Location) → Leaves (verified_candidate fs formats l target index)
    verifies l =
        after (recorded_at fs formats index)
          (λ r. ask (λ w. verify_candidate_location fs l target r w.files)) reads
          (λ r. asks (λ w. verify_candidate_location fs l target r w.files))

    publish_installed_leaves :
        (identity : PersistedIdentity) → Leaves (publish_installed fs formats index identity)
    unfolding publish_installed
    publish_installed_leaves identity =
        after (recorded_at fs formats index)
          (λ recorded.
            if commit_kind_eq recorded.commit.kind installed
            then pure tt
            else publish_target_transition fs formats committing index
                (set_installed fs formats identity))
          reads
          (λ r.
            chooses (commit_kind_eq r.commit.kind installed) (pure tt) _ nothing
              (publishes (set_installed fs formats identity)))

    verified_leaves : Leaves (do
      final_file ← verified_candidate fs formats (index, at_target) target index
      publish_installed fs formats index final_file.identity)
    verified_leaves =
        after (verified_candidate fs formats (index, at_target) target index)
          (λ final_file. publish_installed fs formats index final_file.identity)
          (verifies (index, at_target)) (λ final_file. publish_installed_leaves final_file.identity)

    synced :
        {T : Type 0} (next : Run W T)
        → Leaves next
        → Leaves (
            ask (λ w. fs.sync w.files) >>= λ (_ : Unit {0}).
            (ask (λ w. fs.sync w.files) >>= λ (_ : Unit {0}). next))
    synced next step =
        after (ask (λ w. fs.sync w.files)) _ (asks (λ w. fs.sync w.files)) λ _.
          after (ask (λ w. fs.sync w.files)) (λ _. next) (asks (λ w. fs.sync w.files)) λ _. step

    install_leaves : Leaves (install fs formats target index)
    unfolding install
    install_leaves =
        after (effect (fs.rename (index, at_candidate) (index, at_target))) _
          (renames at_candidate at_target) λ _. synced _ verified_leaves

    prepare_new_leaves : Leaves (prepare_new fs formats target index)
    unfolding prepare_new
    prepare_new_leaves =
        after
          (ask (λ w. ok_or (internal_invariant new_target_has_recorded_mode) target.new_file_mode))
          _
          (asks (λ w. ok_or (internal_invariant new_target_has_recorded_mode) target.new_file_mode))
          λ mode. sets_mode (index, at_candidate) mode

    back_up_leaves :
        (observed : SyntheticTargetObservation) → Leaves (back_up fs formats target index observed)
    unfolding back_up
    back_up_leaves observed =
        after _ _
          (chooses (location_eq observed.backup original) (pure tt) _ nothing (
            after (effect (fs.rename (index, at_target) (index, at_backup))) _
              (renames at_target at_backup)
              λ _. synced _ (
                after (verified_original fs formats (index, at_backup) target) (λ _. pure tt)
                  (asks (λ w. verify_original_location fs (index, at_backup) target w.files))
                  λ _. nothing)))
          λ _.
            after (ask (λ w. fs.mode_of (index, at_backup) w.files)) _
              (asks (λ w. fs.mode_of (index, at_backup) w.files))
              λ mode.
                after (effect (fs.set_mode (index, at_candidate) mode)) _
                  (sets_mode (index, at_candidate) mode)
                  λ _. after (recorded_at fs formats index) _ reads λ r.
                    chooses (commit_kind_eq r.commit.kind untouched) _ (pure tt)
                      (after (verified_original fs formats (index, at_backup) target) _
                        (asks (λ w. verify_original_location fs (index, at_backup) target w.files))
                        λ backup. publishes (set_backed_up fs formats backup.identity mode))
                      nothing

    pub complete_target_leaves : Leaves (complete_target fs formats target index)
    unfolding complete_target
    complete_target_leaves =
        after (ask (λ w. fs.target_paths index w.files)) _
          (asks (λ w. fs.target_paths index w.files))
          λ _. after (recorded_at fs formats index) _ reads λ r.
            after (observed_at fs formats target index r) _
              (asks (λ w. observe_target fs target index r w.progress.state.global_state w.files))
              λ observed. chooses (location_eq observed.target candidate) _ _ verified_leaves (
                after
                  (if target.original_existed
                    then back_up fs formats target index observed
                    else prepare_new fs formats target index)
                  (λ _. install fs formats target index)
                  (chooses target.original_existed _ _ (back_up_leaves observed) prepare_new_leaves)
                  λ _. install_leaves)
