-- ===== src/Transaction/Targets.antt =====
-- What holds of all targets of a manifest, and what a run on one of them leaves of the others.
use srcmv.Base.{
  get_elem?, All, ℕ, ◌≡◌, refl, ◌∙◌, Bool, true, false, Option, none, some, List, [], ◌∷◌,
}
use srcmv.Recovery.State.{
  CandidateState, installed, TargetState, committing, committed, candidate, absent,
  SyntheticTargetObservation,
}
use srcmv.Recovery.Classify.{
  cleanup_only, original_or_absent, classify_committed, classify_as, classify_recovery,
}
use srcmv.Fs.Errors.{ok}
use srcmv.Journal.Publish.{Formats}
use srcmv.Transaction.Manifest.{ManifestTarget, Fingerprint}
use srcmv.Transaction.Filesystem.{
  at_target, at_candidate, at_backup, Location, Filesystem, FilesystemLaws,
}
use srcmv.Transaction.Run.{World}
use srcmv.Transaction.Observe.{location_of, backup_of}
use srcmv.Transaction.Stages.{observed_as}
use srcmv.Transaction.Assertions.{sight, Recoverable, Holds, sight-frame}
use srcmv.Transaction.Frame.{Untouched}

-- Every target of a manifest, with its index.
abbrev pub Each :
    {W : Type 0} → (ManifestTarget → ℕ → World W → Type 0) → List ManifestTarget → World W → Type 0
Each R targets w =
    (i : ℕ) (target : ManifestTarget) → get_elem? targets i ≡ some target → R target i w

pub All-Each :
    {W : Type 0} (R : ManifestTarget → ℕ → World W → Type 0) (targets : List ManifestTarget)
    (trace : List (World W))
    → ((i : ℕ) (target : ManifestTarget)
        → get_elem? targets i ≡ some target
        → All (R target i) trace)
    → All (Each R targets) trace
All-Each R targets [] h = tt
All-Each R targets (w ∷ trace) h = (
  (λ i target found. (h i target found).0),
  All-Each R targets trace (λ i target found. (h i target found).1),
)

pub All-imply :
    {A : Type 0} (P Q : A → Type 0) (xs : List A) → ((x : A) → P x → Q x) → All P xs → All Q xs
All-imply P Q [] f h = tt
All-imply P Q (x ∷ xs) f (p, h) = (f x p, All-imply P Q xs f h)

location_of-committed :
    (seen : Option Fingerprint) (target : ManifestTarget) (c : CandidateState) (staged : Bool)
    → location_of seen target c staged committed ≡ location_of seen target c staged committing
unfolding location_of
location_of-committed none target c staged = refl
location_of-committed (some actual) target c staged = refl

module _ {W : Type 0} (fs : Filesystem W) (laws : FilesystemLaws W fs) where
  abbrev pub Installed : ManifestTarget → ℕ → World W → Type 0
  Installed target index =
      Holds fs laws target index installed candidate absent
        (original_or_absent target.original_existed)

  -- What is observed of a target once the transaction is committed.
  abbrev pub committed_sight : ManifestTarget → ℕ → TargetState → W → SyntheticTargetObservation
  committed_sight target index r w =
      observed_as
        (location_of (laws.contents (index, at_target) w) target r.candidate false committed)
        (location_of (laws.contents (index, at_candidate) w) target r.candidate true committed)
        (backup_of (laws.contents (index, at_backup) w) target)

  committed_sight-sight :
      (target : ManifestTarget) (index : ℕ) (r : TargetState) (w : W)
      → committed_sight target index r w ≡ sight fs laws target index r w
  committed_sight-sight target index r w = rw (
    location_of-committed (laws.contents (index, at_target) w) target r.candidate false,
    location_of-committed (laws.contents (index, at_candidate) w) target r.candidate true,
  )

  -- A committed target: its candidate is in place, and only the cleanup is left.
  pub record CommittedTarget (target : ManifestTarget) (index : ℕ) (w : World W) : Type 0 where
    pub recorded : TargetState
    pub found : get_elem? w.progress.state.targets index ≡ some recorded
    pub is_committed : w.progress.state.global_state ≡ committed
    pub has_kind : recorded.commit.kind ≡ installed
    pub at_place :
        committed_sight target index recorded w.files
        ≡ observed_as candidate absent (original_or_absent target.original_existed)
    pub allowed :
        classify_recovery committed target.original_existed recorded
          (committed_sight target index recorded w.files)
        ≡ ok cleanup_only

  committed-allowed :
      (existed : Bool) (r : TargetState)
      → classify_recovery committed existed r
          (observed_as candidate absent (original_or_absent existed))
        ≡ ok cleanup_only
  unfolding classify_recovery classify_as classify_committed
  committed-allowed true r = refl
  committed-allowed false r = refl

  -- Publishing the global state alone commits an installed target.
  pub Installed-CommittedTarget :
      (target : ManifestTarget) (index : ℕ) (w after : World W)
      → Installed target index w
      → after.progress.state.targets ≡ w.progress.state.targets
      → after.progress.state.global_state ≡ committed
      → ((l : Location) → laws.contents l after.files ≡ laws.contents l w.files)
      → CommittedTarget target index after
  Installed-CommittedTarget target index w after held same globals kept =
      let r = held.recorded in
      let place =
        committed_sight-sight target index r after.files
        ∙ sight-frame fs laws target index r w.files after.files kept
        ∙ held.at_place in
      record {
        recorded = r;
        found = rw same held.found;
        is_committed = globals;
        has_kind = held.has_kind;
        at_place = place;
        allowed = rw place (committed-allowed target.original_existed r);
      }

  sight-Untouched :
      (formats : Formats) (target : ManifestTarget) (j : ℕ) (r : TargetState) (before w : World W)
      → Untouched fs laws formats j before w
      → sight fs laws target j r w.files ≡ sight fs laws target j r before.files
  sight-Untouched formats target j r before w kept =
      let t = kept.same_contents at_target in
      let c = kept.same_contents at_candidate in let b = kept.same_contents at_backup in cc

  pub Untouched-Recoverable :
      (formats : Formats) (target : ManifestTarget) (j : ℕ) (before w : World W)
      → Untouched fs laws formats j before w
      → Recoverable fs laws target j before
      → Recoverable fs laws target j w
  Untouched-Recoverable formats target j before w kept safe = record {
    recorded = safe.recorded;
    found = kept.same_record ∙ safe.found;
    is_committed_to = kept.stays;
    allowed = rw (sight-Untouched formats target j safe.recorded before w kept) safe.allowed;
  }

  pub Untouched-Installed :
      (formats : Formats) (target : ManifestTarget) (j : ℕ) (before w : World W)
      → Untouched fs laws formats j before w
      → Installed target j before
      → Installed target j w
  Untouched-Installed formats target j before w kept held = record {
    recorded = held.recorded;
    found = kept.same_record ∙ held.found;
    is_committed_to = kept.stays;
    has_kind = held.has_kind;
    at_place = sight-Untouched formats target j held.recorded before w kept ∙ held.at_place;
  }
