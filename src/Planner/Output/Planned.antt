-- ===== src/Planner/Output/Planned.antt =====
-- `plan_output`: the output that is planned for the edits of one path.
use srcmv.Base.{
  Option-cases, length, All, Bytes, is_some, ℕ, ◌≤◌, ◌≡◌, refl, sym, ap, ◌∙◌, inl, inr, Option,
  none, some, List, [], ◌∷◌, arith, subst,
}
use srcmv.Base.Ordered.{get, nat_key, bytes_key}
use srcmv.Domain.Errors.{CoreError, u64_max, ok, err, ◌>>=◌, ◌>>◌, ok_or}
use srcmv.Domain.Types.{
  Sha256Digest, SnapshotFileId, FileSnapshot, OutputSegment, original_slice, PlannedOutput,
}
use srcmv.Planner.Resolve.{FilesById, slice_range}
use srcmv.Planner.Edits.{Insertion, OutputEdits, validate_edit_conflicts, payload, build_segments}
use srcmv.Planner.Stream.{segment_bytes, original_bytes, classify_output}
use srcmv.Planner.Plan.{check_links, plan_output}
use srcmv.Planner.Splice.Spec.{slice, render, splice}
use srcmv.Planner.Splice.Segments.{IsView, Renders-ok}
use srcmv.Planner.Splice.Points.{DeletionsIn, InsertionsIn}
use srcmv.Planner.Splice.Correct.{build_segments-splice}
use srcmv.Planner.Output.Streaming.{is_same, Resolves, stream_output-render}
use srcmv.Planner.Output.References.{OriginalsHold, SegmentsHold, build_segments-SegmentsHold}

-- The bytes that a segment refers to, if it refers to any.
abbrev pub shown : FilesById → OutputSegment → Bytes
shown files_by_id segment = elim (segment_bytes files_by_id segment) [
  | ok content ↦ content
  | err _ ↦ []
]

-- The original bytes of the edited path; an absent file has none.
abbrev pub content_of : Option Bytes → Bytes
content_of none = []
content_of (some content) = content

-- Edits inside the bounds of their output, over files that the snapshot holds.
pub record EditsFit (files_by_id : FilesById) (edits : OutputEdits) (original : Option Bytes)
    : Type 0 where
  pub found : original_bytes files_by_id edits.existing_file_id ≡ ok original
  pub whole : edits.original_length ≡ length (content_of original)
  pub deletions_in : DeletionsIn (length (content_of original)) edits.deletions
  pub insertions_in : InsertionsIn (length (content_of original)) edits.insertions
  pub payloads_found :
      All
        (λ i. (content : Bytes) × (segment_bytes files_by_id (payload i.1) ≡ ok content))
        edits.insertions

-- The bytes that the edits ask for.
abbrev pub edited : FilesById → OutputEdits → Option Bytes → Bytes
edited files_by_id edits original =
    splice (shown files_by_id) edits.deletions edits.insertions 0 (content_of original)

source_file :
    (r : Option FileSnapshot) (error : CoreError) (original : Option Bytes)
    → (ok_or error r >>= λ file. ok (some file.content)) ≡ ok original
    → (file : FileSnapshot) × (r ≡ some file) × (original ≡ some file.content)
source_file none error original h = cc
source_file (some file) error original h = (file, refl, cc)

ok-shown :
    (files_by_id : FilesById) (segment : OutputSegment) (content : Bytes)
    → segment_bytes files_by_id segment ≡ ok content
    → shown files_by_id segment ≡ content
ok-shown files_by_id segment content h = rw (h, shown)

module _ (files_by_id : FilesById) (edits : OutputEdits) (original : Option Bytes)
    (fit : EditsFit files_by_id edits original) where
  slice-ok :
      (id : SnapshotFileId) (s e : ℕ)
      → edits.existing_file_id ≡ some id
      → s ≤ e
      → e ≤ length (content_of original)
      → segment_bytes files_by_id (original_slice id (record { start = s; end = e }))
        ≡ ok (slice s e (content_of original))
  unfolding segment_bytes slice_range original_bytes
  slice-ok id s e known order inside =
      let (file, got, same) = source_file (get id files_by_id) _ original (rw known at fit.found) in
      rw (got, same) (ground (arith, ap (λ o. length (content_of o)) same))

  pub original-IsView : IsView (shown files_by_id) edits (content_of original)
  unfolding original_bytes
  original-IsView = elim (Option-cases edits.existing_file_id) [
    | inl missing ↦ inl (ground (arith, rw missing at fit.found))
    | inr (id, known) ↦ inr (
      id,
      known,
      λ s e order inside. ok-shown files_by_id _ _ (slice-ok id s e known order inside),
    )
  ]

  abbrev Found : OutputSegment → Type 0
  Found segment = segment_bytes files_by_id segment ≡ ok (shown files_by_id segment)

  originals-Found : OriginalsHold Found edits
  originals-Found id s e known order inside =
      let bytes = slice-ok id s e known order (omega (arith, fit.whole)) in
      bytes ∙ ap ok (sym (ok-shown files_by_id _ _ bytes))

  payloads-Found :
      (insertions : List (ℕ × Insertion))
      → All
          (λ i. (content : Bytes) × (segment_bytes files_by_id (payload i.1) ≡ ok content))
          insertions
      → All (λ i. Found (payload i.1)) insertions
  payloads-Found [] h = tt
  payloads-Found (i ∷ insertions) ((content, bytes), h) =
      (bytes ∙ ap ok (sym (ok-shown files_by_id _ _ bytes)), payloads-Found insertions h)

  -- The record of the output that the edits ask for.
  abbrev pub planned : (Bytes → Sha256Digest) → List OutputSegment → PlannedOutput
  planned sha256_of segments =
      let output = edited files_by_id edits original in
      record {
        path = edits.path;
        original_digest = edits.original_digest;
        change =
            classify_output (is_some edits.existing_file_id) (length output)
              (is_same original output);
        resulting_length = length output;
        resulting_digest = sha256_of output;
        segments = segments;
      }

  -- The segments of such edits render the edited bytes, and the snapshot resolves them.
  pub segments-Resolves :
      validate_edit_conflicts edits ≡ ok tt
      → (segments : List OutputSegment) × (build_segments edits ≡ ok segments)
        × (render (shown files_by_id) segments ≡ edited files_by_id edits original)
        × Resolves files_by_id (shown files_by_id) segments
  segments-Resolves valid =
      let rendered =
        build_segments-splice (shown files_by_id) edits (content_of original) original-IsView
          fit.whole fit.deletions_in fit.insertions_in valid in
      let holds =
        build_segments-SegmentsHold Found edits originals-Found
          (payloads-Found edits.insertions fit.payloads_found) in
      let (segments, built, bytes) =
        Renders-ok (shown files_by_id) (build_segments edits) _ rendered in
      (segments, built, bytes, subst (SegmentsHold Found) built holds)

  -- For edits that lie inside their output, refer to files that the snapshot holds and pass the
  -- conflict check, and an edited output of at most `u64::MAX` bytes, `build_segments` returns
  -- segments that render the edited bytes, and `plan_output` returns the record with their length,
  -- digest and change from the original, unless the hard-link guard refuses it.
  pub plan_output-planned :
      (sha256_of : Bytes → Sha256Digest)
      → validate_edit_conflicts edits ≡ ok tt
      → length (edited files_by_id edits original) ≤ u64_max
      → (segments : List OutputSegment) × (build_segments edits ≡ ok segments)
        × (render (shown files_by_id) segments ≡ edited files_by_id edits original)
        × (plan_output sha256_of files_by_id edits ≡ (
            check_links files_by_id edits (planned sha256_of segments).change
            >> ok (planned sha256_of segments)))
  unfolding plan_output
  plan_output-planned sha256_of valid small =
      let (segments, built, bytes, all) = segments-Resolves valid in
      let streamed =
        stream_output-render sha256_of files_by_id (shown files_by_id) segments
          edits.existing_file_id original fit.found all (rw bytes small) in
      (segments, built, bytes, rw (valid, built, streamed, bytes))
