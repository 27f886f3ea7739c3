-- ===== src/Domain/Types.antt =====
-- crates/srcmv-core/src/lib.rs: the records and enums of snapshots, requests and plans.
-- Digests are their 32 bytes, paths their UTF-8 bytes, file ids numbers.
use srcmv.Base.{ℕ, Bool, true, false, Option, List, Bytes, bytes_eq}

abbrev pub Sha256Digest : Type 0
Sha256Digest = Bytes

abbrev pub SnapshotFileId : Type 0
SnapshotFileId = ℕ

pub record WorkspaceRelativePath : Type 0 where
  pub value : Bytes

pub data Precondition : Type 0 where
  sha256 : Sha256Digest → Precondition
  must_not_exist : Precondition

pub data Selector : Type 0 where
  lines : ℕ → ℕ → Selector
  bytes : ℕ → ℕ → Selector

pub data Anchor : Type 0 where
  file_start file_end : Anchor
  before_line after_line byte_offset : ℕ → Anchor

pub record SourceSelection : Type 0 where
  pub path : WorkspaceRelativePath
  pub selector : Selector
  pub precondition : Precondition

pub record Destination : Type 0 where
  pub path : WorkspaceRelativePath
  pub anchor : Anchor
  pub precondition : Precondition

pub record OperationSpecification : Type 0 where
  pub source : SourceSelection
  pub destination : Destination

pub data Operation : Type 0 where
  move : OperationSpecification → Operation
  copy : OperationSpecification → Operation

pub record BatchSpecification : Type 0 where
  pub operations : List Operation

pub record FileIdentity : Type 0 where
  pub device : ℕ
  pub inode : ℕ

-- `LineIndex`: the exclusive byte end of each logical line.
pub record LineIndex : Type 0 where
  pub boundaries : List ℕ

pub record FileSnapshot : Type 0 where
  pub id : SnapshotFileId
  pub path : WorkspaceRelativePath
  pub parent_identity : FileIdentity
  pub parent_identities : List FileIdentity
  pub identity : FileIdentity
  pub link_count : ℕ
  pub content : Bytes
  pub digest : Sha256Digest
  pub line_index : LineIndex

pub record AbsentPathSnapshot : Type 0 where
  pub path : WorkspaceRelativePath
  pub parent_identity : FileIdentity
  pub parent_identities : List FileIdentity
  pub basename : Bytes

pub record WorkspaceSnapshot : Type 0 where
  pub workspace_identity : FileIdentity
  pub files : List FileSnapshot
  pub absent_paths : List AbsentPathSnapshot

pub record ByteRange : Type 0 where
  pub start : ℕ
  pub end : ℕ

pub data OperationKind : Type 0 where
  move_kind copy_kind : OperationKind

pub data OperationEffect : Type 0 where
  changed no_op : OperationEffect

pub record ResolvedOperation : Type 0 where
  pub operation_index : ℕ
  pub kind : OperationKind
  pub source_path : WorkspaceRelativePath
  pub selector : Selector
  pub source_precondition : Precondition
  pub source_range : ByteRange
  pub selected_digest : Sha256Digest
  pub destination_path : WorkspaceRelativePath
  pub anchor : Anchor
  pub destination_precondition : Precondition
  pub destination_offset : ℕ
  pub effect : OperationEffect

pub data OutputChange : Type 0 where
  unchanged modified_existing created_new emptied_existing : OutputChange

pub data OutputSegment : Type 0 where
  original_slice : SnapshotFileId → ByteRange → OutputSegment
  payload_slice : ℕ → SnapshotFileId → ByteRange → Sha256Digest → OutputSegment

pub record PlannedOutput : Type 0 where
  pub path : WorkspaceRelativePath
  pub original_digest : Option Sha256Digest
  pub change : OutputChange
  pub resulting_length : ℕ
  pub resulting_digest : Sha256Digest
  pub segments : List OutputSegment

pub record PlanningUsage : Type 0 where
  pub maximum_output_bytes : ℕ
  pub total_output_bytes : ℕ
  pub maximum_output_segments : ℕ
  pub total_segments : ℕ
  pub changed_targets : ℕ
  pub projected_response_bytes : ℕ
  pub planning_memory_bytes : ℕ

pub record ResourceBudget : Type 0 where
  pub operations : ℕ
  pub operation_paths : ℕ
  pub snapshot_bytes : ℕ
  pub resulting_bytes_per_output : ℕ
  pub planned_output_bytes : ℕ
  pub segments_per_output : ℕ
  pub segments : ℕ
  pub changed_targets : ℕ
  pub projected_response_bytes : ℕ
  pub planning_memory_bytes : ℕ

pub record EditPlan : Type 0 where
  pub operations : List ResolvedOperation
  pub outputs : List PlannedOutput
  pub usage : PlanningUsage
  pub digest : Sha256Digest

-- Derived `PartialEq` of preconditions.
abbrev pub precondition_eq : Precondition → Precondition → Bool
precondition_eq (sha256 a) (sha256 b) = bytes_eq a b
precondition_eq must_not_exist must_not_exist = true
precondition_eq _ _ = false
