-- ===== src/Planner/Resolve.antt =====
-- crates/srcmv-core/src/planner.rs: the snapshot index, preconditions, selectors and anchors.
use srcmv.Base.{
  is_some, ltb, leb, ◌==◌, if◌then◌else◌, length, take, drop, Bytes, bytes_eq, ℕ, zero, ◌+◌, ◌-◌,
  ◌&&◌, ◌||◌, Option, none, some, List, [], ◌∷◌,
}
use srcmv.Base.Ordered.{nat_key, bytes_key, BTreeMap, get, insert}
use srcmv.Domain.Errors.{
  Field, Reason, CoreError, invalid_domain_value, edit_conflict, Result, ok, err, ◌>>=◌, ok_or,
}
use srcmv.Domain.Types.{
  Sha256Digest, SnapshotFileId, Precondition, must_not_exist, Selector, Anchor, file_start,
  file_end, before_line, after_line, byte_offset, OperationSpecification, Operation,
  BatchSpecification, FileSnapshot, AbsentPathSnapshot, WorkspaceSnapshot, ByteRange, OperationKind,
  move_kind, copy_kind, precondition_eq,
}
use srcmv.Lines.Index.{line_start, line_end}

pub data SnapshotState : Type 0 where
  existing : FileSnapshot → SnapshotState
  absent : AbsentPathSnapshot → SnapshotState

abbrev pub StatesByPath : Type 0
StatesByPath = BTreeMap Bytes SnapshotState

-- A `HashMap`, whose order nothing observes.
abbrev pub FilesById : Type 0
FilesById = BTreeMap SnapshotFileId FileSnapshot

abbrev pub conflict : Reason → ℕ → CoreError
conflict reason operation_index = edit_conflict reason (some operation_index)

-- The loop of `index_snapshot` over the existing files.
unfoldable pub index_files :
    List FileSnapshot → StatesByPath → FilesById → Result (StatesByPath × FilesById)
index_files [] states files_by_id = ok (states, files_by_id)
index_files (file ∷ files) states files_by_id =
    let rest =
      index_files files (insert file.path.value (existing file) states)
        (insert file.id file files_by_id) in
    if is_some (get file.path.value states)
    then err (invalid_domain_value Field.duplicate_snapshot_path)
    else if is_some (get file.id files_by_id)
    then err (invalid_domain_value Field.duplicate_snapshot_file_id)
    else rest

-- Its loop over the absent paths.
unfoldable pub index_absent : List AbsentPathSnapshot → StatesByPath → Result StatesByPath
index_absent [] states = ok states
index_absent (path ∷ paths) states =
    let rest = index_absent paths (insert path.path.value (absent path) states) in
    if is_some (get path.path.value states)
    then err (edit_conflict Reason.path_used_as_absent_and_existing none)
    else rest

-- `index_snapshot`.
unfoldable pub index_snapshot : WorkspaceSnapshot → Result (StatesByPath × FilesById)
unfolding index_files index_absent
index_snapshot snapshot = do
  indexed ← index_files snapshot.files [] []
  states ← index_absent snapshot.absent_paths indexed.0
  ok (states, indexed.1)

-- `operation_parts`.
abbrev pub operation_parts : Operation → OperationKind × OperationSpecification
operation_parts (Operation.move specification) = (move_kind, specification)
operation_parts (Operation.copy specification) = (copy_kind, specification)

abbrev Preconditions : Type 0
Preconditions = BTreeMap Bytes Precondition

-- One round of the inner loop of `validate_precondition_consistency`.
record_precondition : ℕ → Bytes → Precondition → Preconditions → Result Preconditions
record_precondition operation_index path precondition by_path = elim (get path by_path) [
  | none ↦ ok (insert path precondition by_path)
  | some previous ↦
      if precondition_eq previous precondition
      then ok (insert path precondition by_path)
      else err (conflict Reason.incompatible_preconditions operation_index)
]

unfoldable pub validate_preconditions_from : ℕ → List Operation → Preconditions → Result (Unit {0})
unfolding record_precondition
validate_preconditions_from index [] by_path = ok tt
validate_preconditions_from index (operation ∷ operations) by_path = do
  let specification = (operation_parts operation).1
  let source = specification.source
  let destination = specification.destination
  with_source ← record_precondition index source.path.value source.precondition by_path
  with_both ← record_precondition index destination.path.value destination.precondition with_source
  validate_preconditions_from (index + 1) operations with_both

-- `validate_precondition_consistency`.
unfoldable pub validate_precondition_consistency : BatchSpecification → Result (Unit {0})
unfolding validate_preconditions_from
validate_precondition_consistency batch = validate_preconditions_from 0 batch.operations []

-- The lookup and the digest test of `existing_source`, behind its `Sha256` pattern.
unfoldable pub source_with_digest : Option SnapshotState → Sha256Digest → ℕ → Result FileSnapshot
source_with_digest (some (existing file)) expected operation_index =
    if bytes_eq file.digest expected
    then ok file
    else err (conflict Reason.source_precondition_failed operation_index)
source_with_digest _ expected operation_index =
    err (conflict Reason.source_not_in_snapshot operation_index)

unfoldable pub existing_source_for :
    Precondition → StatesByPath → OperationSpecification → ℕ → Result FileSnapshot
existing_source_for (Precondition.sha256 expected) states specification operation_index =
    source_with_digest (get specification.source.path.value states) expected operation_index
existing_source_for must_not_exist states specification operation_index =
    err (conflict Reason.source_must_exist operation_index)

-- `existing_source`.
unfoldable pub existing_source : StatesByPath → OperationSpecification → ℕ → Result FileSnapshot
unfolding existing_source_for source_with_digest
existing_source states specification operation_index =
    existing_source_for specification.source.precondition states specification operation_index

-- The `match` of `destination_state`.
unfoldable pub match_destination : Precondition → SnapshotState → ℕ → Result SnapshotState
match_destination (Precondition.sha256 expected) (existing file) operation_index =
    if bytes_eq expected file.digest
    then ok (existing file)
    else err (conflict Reason.destination_precondition_failed operation_index)
match_destination must_not_exist (absent path) operation_index = ok (absent path)
match_destination (Precondition.sha256 expected) (absent path) operation_index =
    err (conflict Reason.destination_state_mismatch operation_index)
match_destination must_not_exist (existing file) operation_index =
    err (conflict Reason.destination_state_mismatch operation_index)

-- `destination_state`.
unfoldable pub destination_state : StatesByPath → OperationSpecification → ℕ → Result SnapshotState
unfolding match_destination
destination_state states specification operation_index = do
  state ←
      ok_or (conflict Reason.destination_not_in_snapshot operation_index)
        (get specification.destination.path.value states)
  match_destination specification.destination.precondition state operation_index

-- `resolve_selector`.
unfoldable pub resolve_selector : FileSnapshot → Selector → ℕ → Result ByteRange
resolve_selector source (Selector.lines first last) operation_index =
    let out_of_range = conflict Reason.line_selector_out_of_range operation_index in
    if (first == 0) || ltb last first then err out_of_range else do
      start ← ok_or out_of_range (line_start source.line_index first)
      end ← ok_or out_of_range (line_end source.line_index last)
      ok (record { start = start; end = end })
resolve_selector source (Selector.bytes start end) operation_index =
    if ltb start end && leb end (length source.content)
    then ok (record { start = start; end = end })
    else err (conflict Reason.byte_selector_out_of_range operation_index)

-- `resolve_anchor`.
unfoldable pub resolve_anchor : SnapshotState → Anchor → ℕ → Result ℕ
resolve_anchor (existing file) file_start operation_index = ok 0
resolve_anchor (existing file) file_end operation_index = ok (length file.content)
resolve_anchor (existing file) (before_line line) operation_index =
    ok_or (conflict Reason.line_anchor_out_of_range operation_index)
      (line_start file.line_index line)
resolve_anchor (existing file) (after_line line) operation_index =
    ok_or (conflict Reason.line_anchor_out_of_range operation_index) (line_end file.line_index line)
resolve_anchor (existing file) (byte_offset offset) operation_index =
    if leb offset (length file.content)
    then ok offset
    else err (conflict Reason.byte_anchor_out_of_range operation_index)
resolve_anchor (absent path) file_start operation_index = ok 0
resolve_anchor (absent path) file_end operation_index = ok 0
resolve_anchor (absent path) (byte_offset zero) operation_index = ok 0
resolve_anchor (absent path) _ operation_index =
    err (conflict Reason.new_file_anchor_out_of_range operation_index)

-- `slice_range`: `bytes.get(start..end)` is `None` for a range that is reversed or too long.
unfoldable pub slice_range : Bytes → ByteRange → Result Bytes
slice_range content range =
    if leb range.start range.end && leb range.end (length content)
    then ok (take (range.end - range.start) (drop range.start content))
    else err (invalid_domain_value Field.segment_range)

-- `digest_range`, with the SHA-256 of the sha2 crate.
unfoldable pub digest_range :
    (Bytes → Sha256Digest) → FileSnapshot → ByteRange → Result Sha256Digest
digest_range sha256_of file range = do
  selected ← slice_range file.content range
  ok (sha256_of selected)
