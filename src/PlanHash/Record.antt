-- ===== src/PlanHash/Record.antt =====
-- crates/srcmv-core/src/plan_hash.rs: the plan record of hash version 1 and its digest.
use srcmv.Base.{length, Bytes, ℕ, ◌+◌, Bool, Option, none, some, List, [], ◌∷◌, ◌++◌, map}
use srcmv.Base.Ordered.{bytes_lt, BTreeMap, get, insert, nat_key, bytes_key}
use srcmv.Base.Sorting.{sort_by}
use srcmv.Domain.Errors.{Field, invalid_domain_value, Result, ok, err, ◌>>=◌, ok_or}
use srcmv.Domain.Types.{
  Sha256Digest, SnapshotFileId, Precondition, must_not_exist, Selector, Anchor, file_start,
  file_end, before_line, after_line, byte_offset, FileSnapshot, AbsentPathSnapshot,
  WorkspaceSnapshot, OperationKind, move_kind, copy_kind, OperationEffect, changed, no_op,
  ResolvedOperation, OutputChange, unchanged, modified_existing, created_new, emptied_existing,
  OutputSegment, original_slice, payload_slice, PlannedOutput, EditPlan,
}
use srcmv.PlanHash.Cbor.{unsigned, array, text, byte_string, null}

pub data InputRecord : Type 0 where
  existing : FileSnapshot → InputRecord
  absent : AbsentPathSnapshot → InputRecord

-- `InputRecord::path`.
abbrev pub input_path : InputRecord → Bytes
input_path (existing file) = file.path.value
input_path (absent path) = path.path.value

abbrev pub input_before : InputRecord → InputRecord → Bool
input_before a b = bytes_lt (input_path a) (input_path b)

-- The inputs in path order.
unfoldable pub sorted_inputs : WorkspaceSnapshot → List InputRecord
sorted_inputs snapshot =
    sort_by input_before (map existing snapshot.files ++ map absent snapshot.absent_paths)

-- The loop that numbers the existing inputs.
unfoldable pub number_inputs :
    ℕ → List InputRecord → BTreeMap SnapshotFileId ℕ → Result (BTreeMap SnapshotFileId ℕ)
number_inputs index [] indexes = ok indexes
number_inputs index (absent path ∷ inputs) indexes = number_inputs (index + 1) inputs indexes
number_inputs index (existing file ∷ inputs) indexes =
    let rest = number_inputs (index + 1) inputs (insert file.id index indexes) in
    elim (get file.id indexes) [
      | none ↦ rest
      | some _ ↦ err (invalid_domain_value Field.duplicate_snapshot_file_id)
    ]

-- `encode_workspace_identity`.
unfoldable pub encode_workspace_identity : WorkspaceSnapshot → Bytes
encode_workspace_identity snapshot =
    array 2
    ++ (unsigned snapshot.workspace_identity.device ++ unsigned snapshot.workspace_identity.inode)

-- One input of `encode_inputs`.
unfoldable pub encode_input : InputRecord → Bytes
encode_input (absent path) =
    array 2
    ++ (text path.path.value
        ++ (array 3
            ++ (unsigned 0
                ++ (unsigned path.parent_identity.device ++ unsigned path.parent_identity.inode))))
encode_input (existing file) =
    array 2
    ++ (text file.path.value
        ++ (array 7
            ++ (unsigned 1
                ++ (unsigned file.parent_identity.device
                    ++ (unsigned file.parent_identity.inode
                        ++ (unsigned file.identity.device
                            ++ (unsigned file.identity.inode
                                ++ (unsigned (length file.content)
                                    ++ byte_string file.digest))))))))

-- A loop that encodes each element in turn.
unfoldable pub encode_all {ℓ} : {A : Type ℓ} → (A → Bytes) → List A → Bytes
encode_all encode [] = []
encode_all encode (x ∷ xs) = encode x ++ encode_all encode xs

-- `encode_inputs`.
abbrev pub encode_inputs : List InputRecord → Bytes
encode_inputs inputs = array (length inputs) ++ encode_all encode_input inputs

-- `encode_selector`.
unfoldable pub encode_selector : Selector → Bytes
encode_selector (Selector.lines start end) =
    array 3 ++ (unsigned 1 ++ (unsigned start ++ unsigned end))
encode_selector (Selector.bytes start end) =
    array 3 ++ (unsigned 2 ++ (unsigned start ++ unsigned end))

-- `encode_anchor`.
unfoldable pub encode_anchor : Anchor → Bytes
encode_anchor file_start = array 1 ++ unsigned 1
encode_anchor file_end = array 1 ++ unsigned 2
encode_anchor (before_line line) = array 2 ++ (unsigned 3 ++ unsigned line)
encode_anchor (after_line line) = array 2 ++ (unsigned 4 ++ unsigned line)
encode_anchor (byte_offset offset) = array 2 ++ (unsigned 5 ++ unsigned offset)

-- `encode_precondition`.
unfoldable pub encode_precondition : Precondition → Bytes
encode_precondition (Precondition.sha256 digest) = array 2 ++ (unsigned 1 ++ byte_string digest)
encode_precondition must_not_exist = array 1 ++ unsigned 2

abbrev pub kind_code : OperationKind → ℕ
kind_code move_kind = 1
kind_code copy_kind = 2

abbrev pub effect_code : OperationEffect → ℕ
effect_code changed = 1
effect_code no_op = 2

abbrev pub change_code : OutputChange → ℕ
change_code unchanged = 1
change_code modified_existing = 2
change_code created_new = 3
change_code emptied_existing = 4

-- One operation of `encode_operations`.
unfoldable pub encode_operation : ResolvedOperation → Bytes
encode_operation operation =
    array 13
    ++ (unsigned operation.operation_index
        ++ (unsigned (kind_code operation.kind)
            ++ (text operation.source_path.value
                ++ (encode_selector operation.selector
                    ++ (encode_precondition operation.source_precondition
                        ++ (unsigned operation.source_range.start
                            ++ (unsigned operation.source_range.end
                                ++ (byte_string operation.selected_digest
                                    ++ (text operation.destination_path.value
                                        ++ (encode_anchor operation.anchor
                                            ++ (encode_precondition
                                                  operation.destination_precondition
                                                ++ (unsigned operation.destination_offset
                                                    ++ unsigned
                                                        (effect_code operation.effect)))))))))))))

-- `encode_operations`.
abbrev pub encode_operations : EditPlan → Bytes
encode_operations plan =
    array (length plan.operations) ++ encode_all encode_operation plan.operations

-- `input_index`.
abbrev pub input_index : BTreeMap SnapshotFileId ℕ → SnapshotFileId → Result ℕ
input_index indexes file_id =
    ok_or (invalid_domain_value Field.segment_snapshot_input_index) (get file_id indexes)

-- One segment of `encode_outputs`.
unfoldable pub encode_segment : BTreeMap SnapshotFileId ℕ → OutputSegment → Result Bytes
encode_segment indexes (original_slice snapshot_file_id range) = do
  index ← input_index indexes snapshot_file_id
  ok (array 4 ++ (unsigned 1 ++ (unsigned index ++ (unsigned range.start ++ unsigned range.end))))
encode_segment indexes (payload_slice operation_index snapshot_file_id range payload_digest) = do
  index ← input_index indexes snapshot_file_id
  ok (
      array 6
      ++ (unsigned 2
          ++ (unsigned operation_index
              ++ (unsigned index
                  ++ (unsigned range.start
                      ++ (unsigned range.end ++ byte_string payload_digest))))))

unfoldable pub encode_segments : BTreeMap SnapshotFileId ℕ → List OutputSegment → Result Bytes
encode_segments indexes [] = ok []
encode_segments indexes (segment ∷ segments) = do
  head ← encode_segment indexes segment
  rest ← encode_segments indexes segments
  ok (head ++ rest)

abbrev pub encode_original_digest : Option Sha256Digest → Bytes
encode_original_digest none = null
encode_original_digest (some digest) = byte_string digest

-- One output of `encode_outputs`.
unfoldable pub encode_output : BTreeMap SnapshotFileId ℕ → PlannedOutput → Result Bytes
encode_output indexes output = do
  segments ← encode_segments indexes output.segments
  ok (
      array 6
      ++ (text output.path.value
          ++ (encode_original_digest output.original_digest
              ++ (byte_string output.resulting_digest
                  ++ (unsigned output.resulting_length
                      ++ (unsigned (change_code output.change)
                          ++ (array (length output.segments) ++ segments)))))))

unfoldable pub encode_output_list : BTreeMap SnapshotFileId ℕ → List PlannedOutput → Result Bytes
encode_output_list indexes [] = ok []
encode_output_list indexes (output ∷ outputs) = do
  head ← encode_output indexes output
  rest ← encode_output_list indexes outputs
  ok (head ++ rest)

abbrev pub output_before : PlannedOutput → PlannedOutput → Bool
output_before a b = bytes_lt a.path.value b.path.value

-- `encode_outputs`.
unfoldable pub encode_outputs : EditPlan → BTreeMap SnapshotFileId ℕ → Result Bytes
encode_outputs plan indexes = do
  let outputs = sort_by output_before plan.outputs
  encoded ← encode_output_list indexes outputs
  ok (array (length outputs) ++ encoded)

-- `encode_plan_record`.
unfoldable pub encode_plan_record : WorkspaceSnapshot → EditPlan → Result Bytes
encode_plan_record snapshot plan = do
  let inputs = sorted_inputs snapshot
  indexes ← number_inputs 0 inputs []
  outputs ← encode_outputs plan indexes
  ok (
      array 6
      ++ (unsigned 1
          ++ (unsigned 1
              ++ (encode_workspace_identity snapshot
                  ++ (encode_inputs inputs ++ (encode_operations plan ++ outputs))))))

-- `b"SRCMV-PLAN-V1\0"`.
abbrev pub domain_prefix : Bytes
domain_prefix =
    b'S' ∷ b'R' ∷ b'C' ∷ b'M' ∷ b'V' ∷ b'-' ∷ b'P' ∷ b'L' ∷ b'A' ∷ b'N' ∷ b'-' ∷ b'V' ∷ b'1' ∷ 0
    ∷ []

-- `plan_digest`.
unfoldable pub plan_digest :
    (Bytes → Sha256Digest) → WorkspaceSnapshot → EditPlan → Result Sha256Digest
plan_digest sha256_of snapshot plan = do
  encoded ← encode_plan_record snapshot plan
  ok (sha256_of (domain_prefix ++ encoded))
