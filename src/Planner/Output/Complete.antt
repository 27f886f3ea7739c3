-- ===== src/Planner/Output/Complete.antt =====
-- `plan`: every output of a plan is what the edits of its path ask for.
use srcmv.Base.{
  length, length-append, Bytes, ℕ, ◌+◌, ◌≤◌, ◌≡◌, refl, sym, ap, ◌∙◌, Bool, Option, none, some,
  List, [], ◌∷◌, ◌++◌, arith, subst,
}
use srcmv.Base.Ordered.{nat_key, bytes_key}
use srcmv.Domain.Errors.{Resource, ok, >>=-eq-ok, ok_injective, u64_max, checked_add}
use srcmv.Domain.Types.{Sha256Digest, SnapshotFileId, OutputSegment, PlannedOutput}
use srcmv.Planner.Resolve.{FilesById}
use srcmv.Planner.Edits.{OutputEdits, validate_edit_conflicts, build_segments}
use srcmv.Planner.Stream.{
  Stream, segment_bytes, compare_segment, stream_segments, original_bytes, start_stream,
  stream_output,
}
use srcmv.Planner.Plan.{check_links, plan_output}
use srcmv.Planner.Splice.Spec.{render}
use srcmv.Planner.Output.Streaming.{Resolves}
use srcmv.Planner.Output.Planned.{
  shown, EditsFit, edited, planned, segments-Resolves, plan_output-planned,
}
use srcmv.Planner.Output.Fitting.{Fits}

checked_add-small :
    (left right sum : ℕ) (resource : Resource)
    → checked_add left right resource ≡ ok sum
    → (sum ≡ left + right) × (sum ≤ u64_max)
unfolding checked_add
checked_add-small left right sum resource h = ground arith

compare_segment-length :
    (original : Option Bytes) (content : Bytes) (stream : Stream)
    → (compare_segment original content stream).resulting_length ≡ stream.resulting_length
compare_segment-length none content stream = refl
compare_segment-length (some original) content stream = refl

-- A stream that ends without an overflow has seen at most `u64::MAX` bytes.
stream_segments-small :
    (files_by_id : FilesById) (view : OutputSegment → Bytes) (original : Option Bytes)
    (segments : List OutputSegment) (stream final : Stream)
    → Resolves files_by_id view segments
    → stream.resulting_length ≤ u64_max
    → stream_segments files_by_id original segments stream ≡ ok final
    → stream.resulting_length + length (render view segments) ≤ u64_max
unfolding stream_segments render
stream_segments-small files_by_id view original [] stream final resolves small h = omega arith
stream_segments-small files_by_id view original (segment ∷ segments) stream final resolves small h =
    let (content, a, h1) = >>=-eq-ok (segment_bytes files_by_id segment) _ h in
    let (sum, b, h2) =
      >>=-eq-ok (checked_add stream.resulting_length (length content) Resource.planned_output_bytes)
        _ h1 in
    let bound = checked_add-small _ _ sum _ b in
    let seen : content ≡ view segment = ok_injective content (view segment) (sym a ∙ resolves.0) in
    let fed : Stream = record stream {
      hasher = stream.hasher ++ content;
      resulting_length = sum;
    } in
    let same = compare_segment-length original content fed in
    let later =
      stream_segments-small files_by_id view original segments
        (compare_segment original content fed) final resolves.1 (omega (arith, same, bound)) h2 in
    omega (
      arith,
      later,
      same,
      bound,
      ap length seen,
      length-append (view segment) (render view segments),
    )

stream_output-small :
    (sha256_of : Bytes → Sha256Digest) (files_by_id : FilesById) (view : OutputSegment → Bytes)
    (segments : List OutputSegment) (id : Option SnapshotFileId) (result : ℕ × Sha256Digest × Bool)
    → Resolves files_by_id view segments
    → stream_output sha256_of segments files_by_id id ≡ ok result
    → length (render view segments) ≤ u64_max
unfolding stream_output
stream_output-small sha256_of files_by_id view segments id result resolves h =
    let (original, a, h1) = >>=-eq-ok (original_bytes files_by_id id) _ h in
    let (final, b, h2) =
      >>=-eq-ok (stream_segments files_by_id original segments (start_stream original)) _ h1 in
    let bound =
      stream_segments-small files_by_id view original segments (start_stream original) final
        resolves (omega arith) b in
    omega (arith, bound)

-- The output is the record of the bytes that the edits ask for, and its segments render them.
abbrev pub IsPlanned : (Bytes → Sha256Digest) → FilesById → OutputEdits → PlannedOutput → Type 0
IsPlanned sha256_of files_by_id edits output =
    (original : Option Bytes) × (fit : EditsFit files_by_id edits original) × (render
        (shown files_by_id) output.segments
      ≡ edited files_by_id edits original)
    × (output ≡ planned files_by_id edits original fit sha256_of output.segments)

pub plan_output-IsPlanned :
    (sha256_of : Bytes → Sha256Digest) (files_by_id : FilesById) (edits : OutputEdits)
    (output : PlannedOutput)
    → Fits files_by_id edits
    → plan_output sha256_of files_by_id edits ≡ ok output
    → IsPlanned sha256_of files_by_id edits output
unfolding plan_output
plan_output-IsPlanned sha256_of files_by_id edits output (original, fit) h =
    let (done, valid, h1) = >>=-eq-ok (validate_edit_conflicts edits) _ h in
    let (built_as, a, h2) = >>=-eq-ok (build_segments edits) _ h1 in
    let (streamed, b, h3) =
      >>=-eq-ok (stream_output sha256_of built_as files_by_id edits.existing_file_id) _ h2 in
    let (first, first_built, first_bytes, all) =
      segments-Resolves files_by_id edits original fit valid in
    let built_same : first ≡ built_as = ok_injective first built_as (sym first_built ∙ a) in
    let small =
      stream_output-small sha256_of files_by_id (shown files_by_id) first edits.existing_file_id
        streamed all (rw built_same b) in
    let (segments, built, bytes, whole) =
      plan_output-planned files_by_id edits original fit sha256_of valid
        (rw first_bytes at small) in
    let record_of = planned files_by_id edits original fit sha256_of segments in
    let (checked, linked, last) =
      >>=-eq-ok (check_links files_by_id edits record_of.change) _ (sym whole ∙ h) in
    let same : record_of ≡ output = ok_injective record_of output last in
    subst (IsPlanned sha256_of files_by_id edits) same (original, fit, bytes, refl)
