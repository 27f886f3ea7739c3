-- ===== src/Transaction/Commit.antt =====
-- `complete_target`: each effect of a commit leaves a target that recovery can complete or roll back.
use srcmv.Base.{
  if◌then◌else◌, get_elem?, ℕ, ◌≡◌, refl, sym, ap, ◌∙◌, Bool, true, false, Option, none, some,
}
use srcmv.Recovery.State.{
  PersistedIdentity, CommitKind, installed, TargetState, committing, LocationObservation, candidate,
  absent,
}
use srcmv.Recovery.Classify.{original_or_absent}
use srcmv.Fs.Errors.{state_target_index_exists, FsError, internal_invariant, FsResult, ok, ok_or}
use srcmv.Journal.State.{commit_kind_eq, commit_kind_eq→eq}
use srcmv.Journal.Publish.{Formats}
use srcmv.Transaction.Manifest.{ManifestTarget}
use srcmv.Transaction.Filesystem.{Filesystem, FilesystemLaws}
use srcmv.Transaction.Run.{World, pure, ask}
use srcmv.Transaction.Stages.{Stage, installed_existing, installed_new}
use srcmv.Transaction.Steps.{
  update_at, publish_target_transition, recorded_at, set_installed, publish_installed,
}
use srcmv.Transaction.Assertions.{
  get_elem?-update_at, Recoverable, Holds, Reached, Reached-Recoverable, sight-frame,
}
use srcmv.Transaction.Hoare.{Keeps, >>=-Keeps, ask-Keeps}
use srcmv.Transaction.Facts.{publish-Keeps}

pub ok_or-some : {T : Type 0} {a : T} (e : FsError) (o : Option T) → ok_or e o ≡ ok a → o ≡ some a
ok_or-some e none h = cc
ok_or-some e (some a) h = cc

module _ {W : Type 0} (fs : Filesystem W) (laws : FilesystemLaws W fs) (formats : Formats)
    (target : ManifestTarget) (index : ℕ) where
  abbrev pub Safe : World W → Type 0
  Safe = Recoverable fs laws target index

  abbrev pub At : LocationObservation → LocationObservation → LocationObservation → World W → Type 0
  At = Reached fs laws target index

  -- A target that is at a stage, as the record that was read says.
  abbrev pub Read :
      LocationObservation
      → LocationObservation
      → LocationObservation
      → TargetState
      → World W
      → Type 0
  Read t c b r w = At t c b w × (get_elem? w.progress.state.targets index ≡ some r)

  -- The record that was read is the one that holds.
  pub read_kind :
      {kind : CommitKind} {t c b : LocationObservation} (r : TargetState) (w : World W)
      (held : Holds fs laws target index kind t c b w)
      → get_elem? w.progress.state.targets index ≡ some r
      → r ≡ held.recorded
  read_kind r w held found = let f = held.found in cc

  pub quiet-Keeps :
      {T : Type 0} (P : World W → Type 0) (question : World W → FsResult T)
      → Keeps Safe P (ask question) (λ _. P)
  quiet-Keeps P question = ask-Keeps Safe P (λ _. P) question λ w a p h. p

  pub recorded-Keeps :
      (t c b : LocationObservation)
      → Keeps Safe (At t c b) (recorded_at fs formats index) (Read t c b)
  recorded-Keeps t c b =
      ask-Keeps Safe (At t c b) (Read t c b)
        (λ w.
          ok_or (internal_invariant state_target_index_exists)
            (get_elem? w.progress.state.targets index))
        λ w r p h. (
          p,
          ok_or-some (internal_invariant state_target_index_exists)
              (get_elem? w.progress.state.targets index) h,
        )

  -- A publication that changes the kind moves the target to the stage with that kind.
  pub publish-Reached :
      (t c b : LocationObservation) (kind : CommitKind) (update : TargetState → TargetState)
      → ((r : TargetState) → (update r).candidate ≡ r.candidate)
      → ((r : TargetState) → (update r).commit.kind ≡ kind)
      → Stage target.original_existed kind t c b
      → Keeps Safe
          (At t c b)
          (publish_target_transition fs formats committing index update)
          (λ _. Holds fs laws target index kind t c b)
  publish-Reached t c b kind update keeps_candidate sets_kind stage =
      publish-Keeps fs formats Safe committing (update_at index update) (At t c b)
        (Holds fs laws target index kind t c b)
        λ w after p same globals written.
          let held = updated w after p same globals written in
          (Reached-Recoverable fs laws target index after (kind, held, stage), held)
    where
      updated :
          (w after : World W)
          → At t c b w
          → update_at index update w.progress.state.targets ≡ ok after.progress.state.targets
          → after.progress.state.global_state ≡ committing
          → fs.publish_record after.progress.state.sequence w.files ≡ ok after.files
          → Holds fs laws target index kind t c b after
      updated w after (before, held, _) same globals written =
          let kept = laws.publish_keeps after.progress.state.sequence w.files after.files written in
          record {
            recorded = update held.recorded;
            found =
                get_elem?-update_at index update w.progress.state.targets
                  after.progress.state.targets same held.found;
            is_committed_to = globals;
            has_kind = sets_kind held.recorded;
            at_place = rw (keeps_candidate held.recorded) (
                sight-frame fs laws target index held.recorded w.files after.files kept
                ∙ held.at_place);
          }

  pub installed-Stage :
      (existed : Bool) → Stage existed installed candidate absent (original_or_absent existed)
  installed-Stage true = installed_existing
  installed-Stage false = installed_new

  abbrev pub Backup : LocationObservation
  Backup = original_or_absent target.original_existed

  abbrev pub Complete : World W → Type 0
  Complete = Holds fs laws target index installed candidate absent Backup

  pub publish_installed-Keeps :
      (identity : PersistedIdentity)
      → Keeps Safe
          (At candidate absent Backup)
          (publish_installed fs formats index identity)
          (λ _. Complete)
  unfolding publish_installed
  publish_installed-Keeps identity =
      >>=-Keeps Safe (At candidate absent Backup) (Read candidate absent Backup) (λ _. Complete)
        (recorded_at fs formats index)
        (λ recorded.
          if commit_kind_eq recorded.commit.kind installed
          then pure tt
          else publish_target_transition fs formats committing index
              (set_installed fs formats identity))
        (recorded-Keeps candidate absent Backup)
        (λ r. go r (commit_kind_eq r.commit.kind installed) refl)
    where
      go :
          (r : TargetState) (b : Bool)
          → commit_kind_eq r.commit.kind installed ≡ b
          → Keeps Safe
              (Read candidate absent Backup r)
              (if b
                then pure tt
                else publish_target_transition fs formats committing index
                    (set_installed fs formats identity))
              (λ _. Complete)
      go r true same w ((kind, held, stage), found) =
          let read = read_kind r w held found in
          let kinds = commit_kind_eq→eq r.commit.kind installed same in
          (
            tt,
            record {
              recorded = held.recorded;
              found = held.found;
              is_committed_to = held.is_committed_to;
              has_kind = sym (ap (λ s. s.commit.kind) read) ∙ kinds;
              at_place = held.at_place;
            },
          )
      go r false same w (at, found) =
          publish-Reached candidate absent Backup installed (set_installed fs formats identity)
            (λ s. refl) (λ s. refl) (installed-Stage target.original_existed) w at
