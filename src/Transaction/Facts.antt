-- ===== src/Transaction/Facts.antt =====
-- What the single steps do to a world: publications, inspections, renames.
use srcmv.Base.{arith, All, Bytes, ◌≡◌, refl, List}
use srcmv.Fs.Errors.{FsError, FsResult, ok, err}
use srcmv.Recovery.State.{TargetState, GlobalState}
use srcmv.Journal.State.{StateSnapshot}
use srcmv.Journal.Publish.{TransactionJournal, Formats, publish_state}
use srcmv.Journal.Chain.{publish_state-Published}
use srcmv.Transaction.Filesystem.{Filesystem}
use srcmv.Transaction.Run.{Progress, World}
use srcmv.Transaction.Steps.{
  next_state, outcome, files_after, published_as, published_next, publish_transition,
}
use srcmv.Transaction.Hoare.{Post, Keeps}

module _ {W : Type 0} (fs : Filesystem W) (formats : Formats) (Safe : World W → Type 0) where
  published_as-Post :
      (Q : World W → Type 0) (next : StateSnapshot) (w : World W) (written : FsResult W)
      (value : FsResult (TransactionJournal × Bytes))
      → publish_state formats (outcome written) w.journal next ≡ value
      → ((after : World W)
          → after.progress.state ≡ next
          → written ≡ ok after.files
          → Safe after × Q after)
      → let ran = published_as fs formats next (files_after w.files written) w value in
        All Safe ran.trace × Post (λ _. Q) ran.value ran.world
  published_as-Post Q next w written (err e) same step = (tt, tt)
  published_as-Post Q next w (ok files) (ok (journal, checksum)) same step =
      let after : World W = record {
        files = files;
        journal = journal;
        progress = record { state = next; checksum = checksum };
      } in
      let (safe, post) = step after refl refl in ((safe, tt), post)
  published_as-Post Q next w (err e) (ok result) same step =
      let durable =
        (publish_state-Published formats (outcome {W = W} (err e)) w.journal next result
          same).durable in
      absurd (err-ok durable)
    where
      err-ok : {e : FsError} → ◌≡◌ {A = FsResult (Unit {0})} (err e) (ok tt) → ⊥
      err-ok h = cc

  published_next-Post :
      (Q : World W → Type 0) (w : World W) (value : FsResult StateSnapshot)
      → ((next : StateSnapshot)
          → value ≡ ok next
          → (after : World W) → after.progress.state ≡ next
          → fs.publish_record next.sequence w.files ≡ ok after.files
          → Safe after × Q after)
      → let ran = published_next fs formats w value in
        All Safe ran.trace × Post (λ _. Q) ran.value ran.world
  published_next-Post Q w (err e) step = (tt, tt)
  published_next-Post Q w (ok next) step =
      published_as-Post Q next w (fs.publish_record next.sequence w.files) _ refl (step next refl)

  next_state-ok :
      (global : GlobalState) (update : List TargetState → FsResult (List TargetState))
      (progress : Progress) (next : StateSnapshot)
      → next_state global update progress ≡ ok next
      → (update progress.state.targets ≡ ok next.targets) × (next.global_state ≡ global)
  next_state-ok global update progress next h = ground arith

  -- A publication leaves a world with the next state, over a disk with one record more.
  pub publish-Keeps :
      (global : GlobalState) (update : List TargetState → FsResult (List TargetState))
      (P Q : World W → Type 0)
      → ((w after : World W)
          → P w
          → update w.progress.state.targets ≡ ok after.progress.state.targets
          → after.progress.state.global_state ≡ global
          → fs.publish_record after.progress.state.sequence w.files ≡ ok after.files
          → Safe after × Q after)
      → Keeps Safe P (publish_transition fs formats global update) (λ _. Q)
  unfolding publish_transition
  publish-Keeps global update P Q step w p =
      published_next-Post Q w (next_state global update w.progress) (λ next made after same written.
        let (targets, globals) = next_state-ok global update w.progress next made in
        step w after p (rw same targets) (rw same globals) (rw same written))
