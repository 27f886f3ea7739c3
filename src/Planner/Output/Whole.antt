-- ===== src/Planner/Output/Whole.antt =====
-- `plan`: what a successful plan says of the whole batch.
use srcmv.Planner.Selection.{IsIndexed}
use srcmv.Base.{Bytes, ◌≡◌, some, List, [], ◌∷◌, map, subst}
use srcmv.Base.Ordered.{get, nat_key, bytes_key}
use srcmv.Domain.Errors.{ok, >>=-eq-ok, ok_injective}
use srcmv.Domain.Types.{
  Sha256Digest, SnapshotFileId, BatchSpecification, FileSnapshot, WorkspaceSnapshot, PlannedOutput,
  PlanningUsage, ResourceBudget, EditPlan,
}
use srcmv.Planner.Resolve.{
  existing, absent, SnapshotState, StatesByPath, FilesById, index_snapshot,
  validate_precondition_consistency,
}
use srcmv.Planner.Edits.{EditsByPath}
use srcmv.Planner.Usage.{calculate_usage, enforce_usage}
use srcmv.Planner.Limits.{IsWithin, enforce_usage_iff}
use srcmv.Planner.Plan.{Platform, resolve_operations, plan_output, plan_outputs, zero_digest, plan}
use srcmv.PlanHash.Record.{plan_digest}
use srcmv.Planner.Output.Indexed.{StateHolds, AllIndexed, index_snapshot-Coherent}
use srcmv.Planner.Output.Fitting.{AllFit}
use srcmv.Planner.Output.Batch.{resolve_operations-AllFit}
use srcmv.Planner.Output.Complete.{IsPlanned, plan_output-IsPlanned}
use srcmv.Planner.Totals.{
  total_bytes, segment_total, changed_total, longest, calculate_usage-totals,
}
use srcmv.Planner.Output.Asked.{Request, AreAsked, none-AreAsked}
use srcmv.Planner.Output.Known.{IsStateOf, IsFileOf, index_snapshot-Known}
use srcmv.Planner.Output.Resolved.{AllResolved, resolve_operations-Recorded}

StateHolds-IsIndexed :
    (files_by_id : FilesById) (state : SnapshotState)
    → StateHolds files_by_id state
    → IsIndexed state
StateHolds-IsIndexed files_by_id (existing file) held = held.1
StateHolds-IsIndexed files_by_id (absent path) held = tt

-- One output for each edited path, in the order of the paths.
abbrev pub AllPlanned :
    (Bytes → Sha256Digest) → FilesById → EditsByPath → List PlannedOutput → Type 0
AllPlanned sha256_of files_by_id [] [] = Unit
AllPlanned sha256_of files_by_id ((_, edits) ∷ rest) (output ∷ outputs) =
    IsPlanned sha256_of files_by_id edits output × AllPlanned sha256_of files_by_id rest outputs
AllPlanned sha256_of files_by_id [] (output ∷ outputs) = ⊥
AllPlanned sha256_of files_by_id (e ∷ rest) [] = ⊥

plan_outputs-AllPlanned :
    (sha256_of : Bytes → Sha256Digest) (files_by_id : FilesById) (edits : EditsByPath)
    (outputs : List PlannedOutput)
    → AllFit files_by_id edits
    → plan_outputs sha256_of files_by_id edits ≡ ok outputs
    → AllPlanned sha256_of files_by_id edits outputs
unfolding plan_outputs
plan_outputs-AllPlanned sha256_of files_by_id [] outputs fit h =
    subst (AllPlanned sha256_of files_by_id []) (ok_injective [] outputs h) tt
plan_outputs-AllPlanned sha256_of files_by_id ((path, edits) ∷ rest) outputs fit h =
    let (output, a, h1) = >>=-eq-ok (plan_output sha256_of files_by_id edits) _ h in
    let (later, b, h2) = >>=-eq-ok (plan_outputs sha256_of files_by_id rest) _ h1 in
    subst (AllPlanned sha256_of files_by_id ((path, edits) ∷ rest))
      (ok_injective (output ∷ later) outputs h2)
      (
        plan_output-IsPlanned sha256_of files_by_id edits output fit.0 a,
        plan_outputs-AllPlanned sha256_of files_by_id rest later fit.1 b,
      )

-- The sums and the longest output that a usage states.
abbrev TotalsOf : List PlannedOutput → PlanningUsage → Type 0
TotalsOf outputs usage =
    (usage.total_output_bytes ≡ total_bytes outputs)
    × (usage.total_segments ≡ segment_total outputs)
    × (usage.changed_targets ≡ changed_total outputs)
    × (usage.maximum_output_bytes ≡ longest outputs)

-- What a plan promises of a batch over a snapshot. The states and the files are the snapshot's;
-- `edits` are no more than what the requests ask for, one by one.
pub record IsPlanOf (platform : Platform) (snapshot : WorkspaceSnapshot)
    (batch : BatchSpecification) (budget : ResourceBudget) (result : EditPlan) : Type 0 where
  pub states : StatesByPath
  pub files_by_id : FilesById
  pub requests : List Request
  pub edits : EditsByPath
  pub states_known :
      (path : Bytes) (state : SnapshotState)
      → get path states ≡ some state
      → IsStateOf snapshot path state
  pub files_known :
      (id : SnapshotFileId) (file : FileSnapshot)
      → get id files_by_id ≡ some file
      → IsFileOf snapshot id file
  pub all_resolved : AllResolved platform.sha256_of states 0 batch.operations requests
  pub listed : result.operations ≡ map (λ r. r.0) requests
  pub asked : AreAsked states requests edits
  pub outputs_planned : AllPlanned platform.sha256_of files_by_id edits result.outputs
  pub totals : TotalsOf result.outputs result.usage
  pub within : IsWithin result.usage budget
  pub named :
      plan_digest platform.sha256_of snapshot (record result { digest = zero_digest })
      ≡ ok result.digest

-- For a snapshot whose files carry the indexes of their lines, a plan that is returned is the plan
-- of its batch: each operation resolves, against files and absent paths of the snapshot that fit
-- its preconditions, to the range that its selector names in bytes or in lines of the source,
-- which is not empty and lies inside the file, and to the offset that its anchor names, its
-- selected bytes have the digest that is listed, and it is a no-op exactly if it is a move within
-- one file to the start or the end of its own range; each path has as its edits, in request order,
-- the deletions that the changing moves from it and the insertions that the changing operations to
-- it ask for, and a path of which none is asked has no output; the segments of each output render
-- the bytes that these edits ask for, and its length, digest and change are those of these bytes;
-- the totals of the usage are those of the outputs and are within the budget, and the digest is
-- that of the plan with the digest zero.
pub plan-IsPlanOf :
    (platform : Platform) (snapshot : WorkspaceSnapshot) (batch : BatchSpecification)
    (budget : ResourceBudget) (result : EditPlan)
    → AllIndexed snapshot.files
    → plan platform snapshot batch budget ≡ ok result
    → IsPlanOf platform snapshot batch budget result
unfolding plan get
plan-IsPlanOf platform snapshot batch budget result lines h =
    let (index, a, h1) = >>=-eq-ok (index_snapshot snapshot) _ h in
    let (consistent, b, h2) = >>=-eq-ok (validate_precondition_consistency batch) _ h1 in
    let (work, c, h3) =
      >>=-eq-ok (resolve_operations platform.sha256_of index.0 0 batch.operations [] []) _ h2 in
    let (outputs, d, h4) = >>=-eq-ok (plan_outputs platform.sha256_of index.1 work.1) _ h3 in
    let (usage, e, h5) = >>=-eq-ok (calculate_usage platform.sizes work.0 outputs) _ h4 in
    let (enforced, f, h6) = >>=-eq-ok (enforce_usage usage budget) _ h5 in
    let (digest, g, h7) = >>=-eq-ok (plan_digest platform.sha256_of snapshot _) _ h6 in
    let coherent = index_snapshot-Coherent snapshot index.0 index.1 lines a in
    let (states_known, files_known) = index_snapshot-Known snapshot index.0 index.1 a in
    let fit =
      resolve_operations-AllFit platform.sha256_of index.0 index.1 0 batch.operations [] [] work
        coherent tt c in
    let recorded =
      resolve_operations-Recorded platform.sha256_of index.0 0 batch.operations [] [] [] work
        (λ path state got. StateHolds-IsIndexed index.1 state (coherent path state got))
        (none-AreAsked index.0) c in
    let made : IsPlanOf platform snapshot batch budget
        (record { operations = work.0; outputs = outputs; usage = usage; digest = digest }) =
      record {
        states = index.0;
        files_by_id = index.1;
        requests = recorded.requests;
        edits = work.1;
        states_known = states_known;
        files_known = files_known;
        all_resolved = recorded.all_resolved;
        listed = recorded.listed;
        asked = recorded.asked;
        outputs_planned = plan_outputs-AllPlanned platform.sha256_of index.1 work.1 outputs fit d;
        totals = calculate_usage-totals platform.sizes work.0 outputs usage e;
        within = (enforce_usage_iff usage budget).0 f;
        named = g;
      } in
    subst (IsPlanOf platform snapshot batch budget) (ok_injective _ result h7) made
