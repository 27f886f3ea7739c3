-- ===== src/Planner/Plan.antt =====
-- crates/srcmv-core/src/planner.rs: `plan`.
use srcmv.Base.{
  ◌==◌, if◌then◌else◌, replicate, Bytes, bytes_eq, is_some, ℕ, ◌+◌, Bool, true, false, ◌&&◌, ◌||◌,
  none, some, List, [], ◌∷◌, ◌++◌,
}
use srcmv.Base.Ordered.{get, nat_key, bytes_key}
use srcmv.Domain.Errors.{
  Field, invalid_domain_value, hard_link_not_supported, Result, ok, err, ◌>>=◌, ◌>>◌, ok_or,
}
use srcmv.Domain.Types.{
  Sha256Digest, SnapshotFileId, WorkspaceRelativePath, OperationSpecification, Operation,
  BatchSpecification, FileSnapshot, WorkspaceSnapshot, ByteRange, OperationKind, move_kind,
  copy_kind, OperationEffect, changed, no_op, ResolvedOperation, OutputChange, PlannedOutput,
  ResourceBudget, EditPlan,
}
use srcmv.Planner.Resolve.{
  SnapshotState, existing, StatesByPath, FilesById, index_snapshot, operation_parts,
  validate_precondition_consistency, existing_source, destination_state, resolve_selector,
  resolve_anchor, digest_range,
}
use srcmv.Planner.Edits.{
  Insertion, OutputEdits, validate_edit_conflicts, build_segments, EditsByPath, output_edits,
}
use srcmv.Planner.Stream.{stream_output, classify_output}
use srcmv.Planner.Usage.{RecordSizes, is_changed, calculate_usage, enforce_usage}
use srcmv.PlanHash.Record.{plan_digest}

-- What `plan` takes from the sha2 crate and from the compiler.
pub record Platform : Type 0 where
  pub sha256_of : Bytes → Sha256Digest
  pub sizes : RecordSizes

abbrev pub kind_is_move : OperationKind → Bool
kind_is_move move_kind = true
kind_is_move copy_kind = false

-- The test for a same-file move that is anchored at its own start or end.
unfoldable pub operation_effect :
    OperationKind → OperationSpecification → ByteRange → ℕ → OperationEffect
operation_effect kind specification source_range destination_offset =
    if kind_is_move kind
      && bytes_eq specification.source.path.value specification.destination.path.value
      && ((destination_offset == source_range.start) || (destination_offset == source_range.end))
    then no_op
    else changed

abbrev pub add_deletion : ℕ → ByteRange → OutputEdits → OutputEdits
add_deletion operation_index range edits = record edits {
  deletions = edits.deletions ++ ((operation_index, range) ∷ []);
}

abbrev pub add_edit_insertion : ℕ → Insertion → OutputEdits → OutputEdits
add_edit_insertion offset insertion edits = record edits {
  insertions = edits.insertions ++ ((offset, insertion) ∷ []);
}

-- The edits that one operation contributes.
unfoldable pub record_edits :
    ResolvedOperation → FileSnapshot → SnapshotState → EditsByPath → Result EditsByPath
record_edits operation source destination edits = elim operation.effect [
  | no_op ↦ ok edits
  | changed ↦ do
    deleted ←
        if kind_is_move operation.kind
        then output_edits operation.source_path (existing source)
            (add_deletion operation.operation_index operation.source_range) edits
        else ok edits
    output_edits operation.destination_path destination
        (add_edit_insertion operation.destination_offset (record {
          operation_index = operation.operation_index;
          snapshot_file_id = source.id;
          range = operation.source_range;
          payload_digest = operation.selected_digest;
        }))
        deleted
]

-- The resolution of one operation, with its source file and its destination.
unfoldable pub resolve_operation :
    (Bytes → Sha256Digest)
    → StatesByPath
    → ℕ
    → Operation
    → Result (ResolvedOperation × FileSnapshot × SnapshotState)
resolve_operation sha256_of states index operation = do
  let (kind, specification) = operation_parts operation
  source ← existing_source states specification index
  source_range ← resolve_selector source specification.source.selector index
  selected_digest ← digest_range sha256_of source source_range
  destination ← destination_state states specification index
  destination_offset ← resolve_anchor destination specification.destination.anchor index
  let resolved : ResolvedOperation = record {
    operation_index = index;
    kind = kind;
    source_path = specification.source.path;
    selector = specification.source.selector;
    source_precondition = specification.source.precondition;
    source_range = source_range;
    selected_digest = selected_digest;
    destination_path = specification.destination.path;
    anchor = specification.destination.anchor;
    destination_precondition = specification.destination.precondition;
    destination_offset = destination_offset;
    effect = operation_effect kind specification source_range destination_offset;
  }
  ok (resolved, source, destination)

-- The loop over the operations.
unfoldable pub resolve_operations :
    (Bytes → Sha256Digest)
    → StatesByPath
    → ℕ
    → List Operation
    → List ResolvedOperation
    → EditsByPath
    → Result (List ResolvedOperation × EditsByPath)
resolve_operations sha256_of states index [] resolved edits = ok (resolved, edits)
resolve_operations sha256_of states index (operation ∷ operations) resolved edits = do
  (resolution, source, destination) ← resolve_operation sha256_of states index operation
  edits' ← record_edits resolution source destination edits
  resolve_operations sha256_of states (index + 1) operations (resolved ++ (resolution ∷ [])) edits'

-- The link count of the existing file behind a changing output.
require_single_link : FilesById → WorkspaceRelativePath → SnapshotFileId → Result (Unit {0})
require_single_link files_by_id path file_id = do
  file ← ok_or (invalid_domain_value Field.output_snapshot_file_id) (get file_id files_by_id)
  if file.link_count == 1 then ok tt else err (hard_link_not_supported path.value file.link_count)

-- The hard-link guard of a changing output.
unfoldable pub check_links : FilesById → OutputEdits → OutputChange → Result (Unit {0})
unfolding require_single_link
check_links files_by_id edits change =
    if is_changed change
    then elim edits.existing_file_id [
      | none ↦ ok tt
      | some file_id ↦ require_single_link files_by_id edits.path file_id
    ]
    else ok tt

-- The body of the loop over the edited outputs.
unfoldable pub plan_output : (Bytes → Sha256Digest) → FilesById → OutputEdits → Result PlannedOutput
plan_output sha256_of files_by_id edits = do
  validate_edit_conflicts edits
  segments ← build_segments edits
  streamed ← stream_output sha256_of segments files_by_id edits.existing_file_id
  let (resulting_length, resulting_digest, equals_original) = streamed
  let change = classify_output (is_some edits.existing_file_id) resulting_length equals_original
  check_links files_by_id edits change
  ok (record {
    path = edits.path;
    original_digest = edits.original_digest;
    change = change;
    resulting_length = resulting_length;
    resulting_digest = resulting_digest;
    segments = segments;
  })

unfoldable pub plan_outputs :
    (Bytes → Sha256Digest) → FilesById → EditsByPath → Result (List PlannedOutput)
plan_outputs sha256_of files_by_id [] = ok []
plan_outputs sha256_of files_by_id ((_, edits) ∷ rest) = do
  output ← plan_output sha256_of files_by_id edits
  outputs ← plan_outputs sha256_of files_by_id rest
  ok (output ∷ outputs)

abbrev pub zero_digest : Sha256Digest
zero_digest = replicate 32 0

-- `plan`.
unfoldable pub plan :
    Platform → WorkspaceSnapshot → BatchSpecification → ResourceBudget → Result EditPlan
plan platform snapshot batch budget = do
  (states, files_by_id) ← index_snapshot snapshot
  validate_precondition_consistency batch
  (resolved, edits) ← resolve_operations platform.sha256_of states 0 batch.operations [] []
  outputs ← plan_outputs platform.sha256_of files_by_id edits
  usage ← calculate_usage platform.sizes resolved outputs
  enforce_usage usage budget
  let unsigned : EditPlan = record {
    operations = resolved;
    outputs = outputs;
    usage = usage;
    digest = zero_digest;
  }
  digest ← plan_digest platform.sha256_of snapshot unsigned
  ok (record unsigned { digest = digest })
