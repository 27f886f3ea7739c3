-- ===== src/Planner/Edits.antt =====
-- crates/srcmv-core/src/planner.rs: the edits of one output, their conflicts, and the segments
-- that render them.
use srcmv.Base.{
  ltb, ◌==◌, if◌then◌else◌, length, any, Bytes, ℕ, Bool, true, false, not, ◌&&◌, ◌||◌, Option, none,
  some, List, [], ◌∷◌, ◌++◌, map,
}
use srcmv.Base.Ordered.{or_default, BTreeMap, get, entry, nat_key, bytes_key}
use srcmv.Base.Sorting.{sort_by}
use srcmv.Domain.Errors.{
  Field, Reason, invalid_domain_value, edit_conflict, Result, ok, err, ◌>>=◌, ◌>>◌, ok_or,
}
use srcmv.Domain.Types.{
  Sha256Digest, SnapshotFileId, WorkspaceRelativePath, ByteRange, OutputSegment, original_slice,
  payload_slice,
}
use srcmv.Planner.Resolve.{SnapshotState, existing, absent, conflict}

pub record Insertion : Type 0 where
  pub operation_index : ℕ
  pub snapshot_file_id : SnapshotFileId
  pub range : ByteRange
  pub payload_digest : Sha256Digest

pub record OutputEdits : Type 0 where
  pub path : WorkspaceRelativePath
  pub existing_file_id : Option SnapshotFileId
  pub original_length : ℕ
  pub original_digest : Option Sha256Digest
  pub deletions : List (ℕ × ByteRange)
  pub insertions : List (ℕ × Insertion)

pub record PointEvents : Type 0 where
  pub deletion_end : Bool
  pub insertions : List Insertion
  pub deletion_start : Bool

-- The sort key `(range.start, range.end, operation_index)` in lexicographic order.
abbrev pub deletion_before : ℕ × ByteRange → ℕ × ByteRange → Bool
deletion_before a b =
    ltb a.1.start b.1.start
    || ((a.1.start == b.1.start) && (ltb a.1.end b.1.end || ((a.1.end == b.1.end) && ltb a.0 b.0)))

-- The loop over `deletions.windows(2)`.
unfoldable pub check_overlaps : List (ℕ × ByteRange) → Result (Unit {0})
check_overlaps [] = ok tt
check_overlaps (previous ∷ []) = ok tt
check_overlaps (previous ∷ current ∷ rest) =
    let later = check_overlaps (current ∷ rest) in
    if ltb current.1.start previous.1.end
    then err (conflict Reason.overlapping_move_deletions current.0)
    else later

-- `range.start < *offset && *offset < range.end`.
abbrev pub is_inside : ℕ → ℕ × ByteRange → Bool
is_inside offset deletion = ltb deletion.1.start offset && ltb offset deletion.1.end

-- The loop over the insertions.
unfoldable pub check_insertions : List (ℕ × ByteRange) → List (ℕ × Insertion) → Result (Unit {0})
check_insertions deletions [] = ok tt
check_insertions deletions ((offset, insertion) ∷ rest) =
    let later = check_insertions deletions rest in
    if any (is_inside offset) deletions
    then err (conflict Reason.insertion_inside_move_deletion insertion.operation_index)
    else later

-- `validate_edit_conflicts`.
unfoldable pub validate_edit_conflicts : OutputEdits → Result (Unit {0})
validate_edit_conflicts edits = do
  let deletions = sort_by deletion_before edits.deletions
  check_overlaps deletions
  check_insertions deletions edits.insertions

abbrev pub no_events : PointEvents
no_events = record { deletion_end = false; insertions = []; deletion_start = false }

abbrev pub Points : Type 0
Points = BTreeMap ℕ PointEvents

abbrev pub mark_start : PointEvents → PointEvents
mark_start point = record point { deletion_start = true }

abbrev pub mark_end : PointEvents → PointEvents
mark_end point = record point { deletion_end = true }

abbrev pub add_insertion : Insertion → PointEvents → PointEvents
add_insertion insertion point = record point { insertions = point.insertions ++ (insertion ∷ []) }

unfoldable pub add_deletions : List (ℕ × ByteRange) → Points → Points
add_deletions [] points = points
add_deletions ((_, range) ∷ rest) points =
    add_deletions rest
      (entry range.end no_events mark_end (entry range.start no_events mark_start points))

unfoldable pub add_insertions : List (ℕ × Insertion) → Points → Points
add_insertions [] points = points
add_insertions ((offset, insertion) ∷ rest) points =
    add_insertions rest (entry offset no_events (add_insertion insertion) points)

abbrev pub insertion_before : Insertion → Insertion → Bool
insertion_before a b = ltb a.operation_index b.operation_index

-- The loop over `points.values_mut()`.
unfoldable pub sort_points : Points → Points
sort_points [] = []
sort_points ((offset, point) ∷ rest) =
    (offset, record point { insertions = sort_by insertion_before point.insertions })
    ∷ sort_points rest

-- The first half of `build_segments`.
unfoldable pub collect_points : OutputEdits → Points
collect_points edits =
    sort_points (add_insertions edits.insertions (add_deletions edits.deletions []))

-- The three variables of its second half.
pub record Walk : Type 0 where
  pub segments : List OutputSegment
  pub cursor : ℕ
  pub deleting : Bool

abbrev pub payload : Insertion → OutputSegment
payload insertion =
    payload_slice insertion.operation_index insertion.snapshot_file_id insertion.range
      insertion.payload_digest

-- The push of `OriginalSlice`, with its test and the error for an absent output.
unfoldable pub push_original : OutputEdits → ℕ → Walk → Result (List OutputSegment)
push_original edits limit walk =
    if ltb walk.cursor limit && not walk.deleting
    then (do
      snapshot_file_id ←
          ok_or (invalid_domain_value Field.absent_output_original_slice) edits.existing_file_id
      let range : ByteRange = record { start = walk.cursor; end = limit }
      ok (walk.segments ++ (original_slice snapshot_file_id range ∷ [])))
    else ok walk.segments

-- One round of the loop over the points.
unfoldable pub visit_point : OutputEdits → ℕ → PointEvents → Walk → Result Walk
visit_point edits offset point walk =
    if ltb edits.original_length offset then err (invalid_domain_value Field.event_offset) else do
      segments ← push_original edits offset walk
      let ended = if point.deletion_end then false else walk.deleting
      ok (record {
        segments = segments ++ map payload point.insertions;
        cursor = offset;
        deleting = if point.deletion_start then true else ended;
      })

unfoldable pub visit_points : OutputEdits → Points → Walk → Result Walk
visit_points edits [] walk = ok walk
visit_points edits ((offset, point) ∷ rest) walk = do
  walk' ← visit_point edits offset point walk
  visit_points edits rest walk'

abbrev pub fresh_walk : Walk
fresh_walk = record { segments = []; cursor = 0; deleting = false }

-- `build_segments`.
unfoldable pub build_segments : OutputEdits → Result (List OutputSegment)
build_segments edits = do
  walk ← visit_points edits (collect_points edits) fresh_walk
  push_original edits edits.original_length walk

abbrev pub EditsByPath : Type 0
EditsByPath = BTreeMap Bytes OutputEdits

-- The edits that `output_edits` starts a path with.
unfoldable pub fresh_edits : WorkspaceRelativePath → SnapshotState → OutputEdits
fresh_edits path (existing file) = record {
  path = path;
  existing_file_id = some file.id;
  original_length = length file.content;
  original_digest = some file.digest;
  deletions = [];
  insertions = [];
}
fresh_edits path (absent _) = record {
  path = path;
  existing_file_id = none;
  original_length = 0;
  original_digest = none;
  deletions = [];
  insertions = [];
}

abbrev pub option_id_eq : Option SnapshotFileId → Option SnapshotFileId → Bool
option_id_eq none none = true
option_id_eq (some a) (some b) = a == b
option_id_eq _ _ = false

-- `output_edits` with the push that its caller makes through the reference that it returns.
unfoldable pub output_edits :
    WorkspaceRelativePath
    → SnapshotState
    → (OutputEdits → OutputEdits)
    → EditsByPath
    → Result EditsByPath
output_edits path state push edits =
    let fresh = fresh_edits path state in
    if option_id_eq (or_default fresh (get path.value edits)).existing_file_id
      fresh.existing_file_id
    then ok (entry path.value fresh push edits)
    else err (edit_conflict Reason.path_used_as_absent_and_existing none)
