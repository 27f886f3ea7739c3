-- ===== src/Planner/Stream.antt =====
-- crates/srcmv-core/src/planner.rs: an output's length, digest and comparison with the original.
use srcmv.Base.{
  is_some, leb, ◌==◌, if◌then◌else◌, length, take, drop, Bytes, bytes_eq, ℕ, ◌+◌, Bool, not, ◌&&◌,
  Option, none, some, List, [], ◌∷◌, ◌++◌,
}
use srcmv.Base.Ordered.{get, nat_key, bytes_key}
use srcmv.Domain.Errors.{
  Field, Resource, invalid_domain_value, Result, ok, ◌>>=◌, ok_or, checked_add,
}
use srcmv.Domain.Types.{
  Sha256Digest, SnapshotFileId, ByteRange, OutputChange, unchanged, modified_existing, created_new,
  emptied_existing, OutputSegment, original_slice, payload_slice,
}
use srcmv.Planner.Resolve.{FilesById, slice_range}

-- The variables of the loop of `stream_output`. The hasher is the bytes that it was fed: the
-- digest of sha2 depends on nothing else.
pub record Stream : Type 0 where
  pub hasher : Bytes
  pub resulting_length : ℕ
  pub comparison_offset : ℕ
  pub equals_original : Bool

-- The file and the range of a segment.
abbrev pub segment_reference : OutputSegment → SnapshotFileId × ByteRange
segment_reference (original_slice snapshot_file_id range) = (snapshot_file_id, range)
segment_reference (payload_slice _ snapshot_file_id range _) = (snapshot_file_id, range)

-- The lookups at the head of the loop's body.
unfoldable pub segment_bytes : FilesById → OutputSegment → Result Bytes
segment_bytes files_by_id segment = do
  let (file_id, range) = segment_reference segment
  file ← ok_or (invalid_domain_value Field.segment_snapshot_file_id) (get file_id files_by_id)
  slice_range file.content range

-- `original.get(offset..end) == Some(bytes)`, together with the test that `end` is in range.
abbrev pub matches_at : Bytes → ℕ → Bytes → Bool
matches_at original offset content =
    leb (offset + length content) (length original)
    && bytes_eq (take (length content) (drop offset original)) content

abbrev pub compare_segment : Option Bytes → Bytes → Stream → Stream
compare_segment none content stream = stream
compare_segment (some original) content stream = record stream {
  equals_original = stream.equals_original && matches_at original stream.comparison_offset content;
  comparison_offset = stream.comparison_offset + length content;
}

unfoldable pub stream_segments :
    FilesById → Option Bytes → List OutputSegment → Stream → Result Stream
stream_segments files_by_id original [] stream = ok stream
stream_segments files_by_id original (segment ∷ rest) stream = do
  content ← segment_bytes files_by_id segment
  resulting_length ←
      checked_add stream.resulting_length (length content) Resource.planned_output_bytes
  let fed = record stream { hasher = stream.hasher ++ content; resulting_length = resulting_length }
  stream_segments files_by_id original rest (compare_segment original content fed)

-- The original bytes of an output that exists.
unfoldable pub original_bytes : FilesById → Option SnapshotFileId → Result (Option Bytes)
original_bytes files_by_id none = ok none
original_bytes files_by_id (some id) = do
  file ← ok_or (invalid_domain_value Field.output_snapshot_file_id) (get id files_by_id)
  ok (some file.content)

abbrev pub start_stream : Option Bytes → Stream
start_stream original = record {
  hasher = [];
  resulting_length = 0;
  comparison_offset = 0;
  equals_original = is_some original;
}

-- The test after the loop.
abbrev pub ends_at : Option Bytes → Stream → Bool
ends_at none stream = stream.equals_original
ends_at (some original) stream =
    stream.equals_original && (stream.comparison_offset == length original)

-- `stream_output`.
unfoldable pub stream_output :
    (Bytes → Sha256Digest)
    → List OutputSegment
    → FilesById
    → Option SnapshotFileId
    → Result (ℕ × Sha256Digest × Bool)
stream_output sha256_of segments files_by_id original_file_id = do
  original ← original_bytes files_by_id original_file_id
  stream ← stream_segments files_by_id original segments (start_stream original)
  ok (stream.resulting_length, sha256_of stream.hasher, ends_at original stream)

-- `classify_output`.
unfoldable pub classify_output : Bool → ℕ → Bool → OutputChange
classify_output exists resulting_length equals_original =
    if not exists
    then created_new
    else if equals_original
    then unchanged
    else if resulting_length == 0
    then emptied_existing
    else modified_existing
