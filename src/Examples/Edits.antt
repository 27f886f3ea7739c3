-- ===== src/Examples/Edits.antt =====
-- The edits of one output: a line is moved to the front of its file.
use srcmv.Base.{length, Bytes, ◌≤◌, ◌<◌, ◌≡◌, refl, ◌↔◌, some, List, [], ◌∷◌, arith}
use srcmv.Base.Ordered.{get, entry, nat_key, bytes_key}
use srcmv.Domain.Errors.{checked_add, checked_mul, ok, ◌>>◌}
use srcmv.Domain.Types.{
  Selector, after_line, modified_existing, OutputSegment, original_slice, payload_slice,
  PlannedOutput, PlanningUsage,
}
use srcmv.Examples.Planning.{mixed, toy_digest, path_a, file_a, platform, budget}
use srcmv.Planner.Resolve.{existing, FilesById, resolve_selector, resolve_anchor, slice_range}
use srcmv.Planner.Edits.{
  OutputEdits, check_overlaps, check_insertions, validate_edit_conflicts, add_deletions,
  add_insertions, sort_points, collect_points, push_original, visit_point, visit_points,
  build_segments,
}
use srcmv.Planner.Stream.{segment_bytes, original_bytes, stream_output}
use srcmv.Planner.Plan.{check_links, plan_output}
use srcmv.Planner.Usage.{
  charge_operations, charge_output, charge_outputs, calculate_usage, enforce_usage,
}
use srcmv.Planner.Splice.Spec.{cover_count, insertions_at, render, payloads_at, splice}
use srcmv.Planner.Splice.Segments.{Renders}
use srcmv.Planner.Splice.Correct.{build_segments-splice}
use srcmv.Planner.Output.Streaming.{is_same, Resolves, stream_output-render}
use srcmv.Planner.Output.Planned.{
  shown, EditsFit, edited, original-IsView, planned, plan_output-planned,
}
use srcmv.Planner.Selection.{resolve_selector-in_file, resolve_anchor-in_file}
use srcmv.Planner.Limits.{IsWithin, enforce_usage_iff}
use srcmv.Base.Sorting.{insert_sorted, sort_by}
use srcmv.Lines.Numbers.{IsIndexOf}
use srcmv.Lines.Split.{split_lines, ends_from}
use srcmv.Lines.Index.{index_line_count, line_start, line_end}
use srcmv.Planner.Totals.{
  total_bytes, segment_total, changed_total, longest, calculate_usage-totals,
}

abbrev files : FilesById
files = (0, file_a) ∷ []

-- Line 2 of `a`, "b\r\n", goes in front of line 1.
abbrev edits : OutputEdits
edits = record {
  path = path_a;
  existing_file_id = some 0;
  original_length = 8;
  original_digest = some mixed;
  deletions = (0, record { start = 2; end = 5 }) ∷ [];
  insertions =
      (
        0,
        record {
          operation_index = 0;
          snapshot_file_id = 0;
          range = record { start = 2; end = 5 };
          payload_digest = 98 ∷ 13 ∷ 10 ∷ [];
        },
      )
      ∷ [];
}

fit : EditsFit files edits (some mixed)
unfolding original_bytes segment_bytes slice_range get
fit = record {
  found = refl;
  whole = refl;
  deletions_in = ((omega arith, omega arith), tt);
  insertions_in = (omega arith, tt);
  payloads_found = ((98 ∷ 13 ∷ 10 ∷ [], refl), tt);
}

edits-valid : validate_edit_conflicts edits ≡ ok tt
unfolding validate_edit_conflicts check_overlaps check_insertions sort_by insert_sorted
edits-valid = refl

-- "b\r\na\nc\rd"
abbrev moved : Bytes
moved = 98 ∷ 13 ∷ 10 ∷ 97 ∷ 10 ∷ 99 ∷ 13 ∷ 100 ∷ []

edits-moved : edited files edits (some mixed) ≡ moved
unfolding splice payloads_at render insertions_at sort_by insert_sorted cover_count segment_bytes
    slice_range get
edits-moved = refl

build_segments-splice_example :
    Renders
      (shown files)
      (build_segments edits)
      (splice (shown files) edits.deletions edits.insertions 0 mixed)
build_segments-splice_example =
    build_segments-splice (shown files) edits mixed (original-IsView files edits (some mixed) fit)
      refl fit.deletions_in fit.insertions_in edits-valid

plan_output-planned_example :
    (segments : List OutputSegment) × (build_segments edits ≡ ok segments)
    × (render (shown files) segments ≡ edited files edits (some mixed))
    × (plan_output toy_digest files edits ≡ (
        check_links files edits (planned files edits (some mixed) fit toy_digest segments).change
        >> ok (planned files edits (some mixed) fit toy_digest segments)))
plan_output-planned_example =
    plan_output-planned files edits (some mixed) fit toy_digest edits-valid
      (rw edits-moved (omega arith))

-- The segments of the move, and the segments they refer to.
abbrev segments_moved : List OutputSegment
segments_moved =
    payload_slice 0 0 (record { start = 2; end = 5 }) (98 ∷ 13 ∷ 10 ∷ [])
    ∷ original_slice 0 (record { start = 0; end = 2 })
    ∷ original_slice 0 (record { start = 5; end = 8 })
    ∷ []

segments_moved-built : build_segments edits ≡ ok segments_moved
unfolding build_segments visit_points visit_point push_original collect_points add_deletions
    add_insertions sort_points entry sort_by insert_sorted
segments_moved-built = refl

segments_moved-Resolves : Resolves files (shown files) segments_moved
unfolding segment_bytes slice_range get
segments_moved-Resolves = (refl, (refl, (refl, tt)))

segments_moved-render : render (shown files) segments_moved ≡ moved
unfolding render segment_bytes slice_range get
segments_moved-render = refl

stream_output-render_example : stream_output toy_digest segments_moved files (some 0) ≡ (
    let output = render (shown files) segments_moved in
    ok (length output, toy_digest output, is_same (some mixed) output))
stream_output-render_example =
    stream_output-render toy_digest files (shown files) segments_moved (some 0) (some mixed)
      fit.found segments_moved-Resolves (rw segments_moved-render (omega arith))

file_a-IsIndexOf : IsIndexOf mixed file_a.line_index
unfolding split_lines ends_from
file_a-IsIndexOf = refl

resolve_selector-in_file_example : (2 < 5) × (5 ≤ 8)
unfolding resolve_selector line_start line_end index_line_count
resolve_selector-in_file_example =
    resolve_selector-in_file file_a (Selector.lines 2 2) 0 (record { start = 2; end = 5 })
      file_a-IsIndexOf refl

resolve_anchor-in_file_example : 5 ≤ 8
unfolding resolve_anchor line_end
resolve_anchor-in_file_example =
    resolve_anchor-in_file (existing file_a) (after_line 2) 0 5 file_a-IsIndexOf refl

abbrev usage : PlanningUsage
usage = record {
  maximum_output_bytes = 8;
  total_output_bytes = 8;
  maximum_output_segments = 3;
  total_segments = 3;
  changed_targets = 1;
  projected_response_bytes = 5000;
  planning_memory_bytes = 9000;
}

enforce_usage_iff_example : (enforce_usage usage budget ≡ ok tt) ↔ IsWithin usage budget
enforce_usage_iff_example = enforce_usage_iff usage budget

abbrev output_moved : PlannedOutput
output_moved = record {
  path = path_a;
  original_digest = some mixed;
  change = modified_existing;
  resulting_length = 8;
  resulting_digest = moved;
  segments = segments_moved;
}

abbrev usage_moved : PlanningUsage
usage_moved = record {
  maximum_output_bytes = 8;
  total_output_bytes = 16;
  maximum_output_segments = 3;
  total_segments = 6;
  changed_targets = 2;
  projected_response_bytes = 5122;
  planning_memory_bytes = 882;
}

usage_moved-calculated :
    calculate_usage platform.sizes [] (output_moved ∷ output_moved ∷ []) ≡ ok usage_moved
unfolding calculate_usage charge_operations charge_outputs charge_output checked_add checked_mul
usage_moved-calculated = refl

calculate_usage-totals_example :
    (16 ≡ total_bytes (output_moved ∷ output_moved ∷ []))
    × (6 ≡ segment_total (output_moved ∷ output_moved ∷ []))
    × (2 ≡ changed_total (output_moved ∷ output_moved ∷ []))
    × (8 ≡ longest (output_moved ∷ output_moved ∷ []))
calculate_usage-totals_example =
    calculate_usage-totals platform.sizes [] (output_moved ∷ output_moved ∷ []) usage_moved
      usage_moved-calculated
