-- ===== src/Examples/Planning.antt =====
-- Small batches planned from start to end.
use srcmv.Base.{Bytes, ℕ, ◌≡◌, refl, List, [], ◌∷◌, map}
use srcmv.Base.Ordered.{get, entry, insert, nat_key, bytes_key}
use srcmv.Base.Sorting.{insert_sorted, sort_by}
use srcmv.Domain.Errors.{Result, ok, err, checked_add, checked_mul, enforce_limit}
use srcmv.Domain.Types.{
  Sha256Digest, WorkspaceRelativePath, Precondition, must_not_exist, Selector, file_start,
  Operation, BatchSpecification, FileIdentity, FileSnapshot, AbsentPathSnapshot, WorkspaceSnapshot,
  OutputChange, modified_existing, created_new, ResourceBudget, EditPlan,
}
use srcmv.Lines.Index.{from_bytes_with_limits, index_line_count, line_start, line_end}
use srcmv.Lines.Scan.{next_terminator_end, push_line_boundary, push_terminators}
use srcmv.Planner.Resolve.{
  index_files, index_absent, index_snapshot, validate_preconditions_from,
  validate_precondition_consistency, existing_source, match_destination, destination_state,
  resolve_selector, resolve_anchor, slice_range, digest_range,
}
use srcmv.Planner.Edits.{
  check_overlaps, check_insertions, validate_edit_conflicts, add_deletions, add_insertions,
  sort_points, collect_points, push_original, visit_point, visit_points, build_segments,
  fresh_edits, output_edits,
}
use srcmv.Planner.Stream.{
  segment_bytes, stream_segments, original_bytes, stream_output, classify_output,
}
use srcmv.Planner.Usage.{
  charge_operation, charge_operations, charge_output, charge_outputs, calculate_usage,
  enforce_usage,
}
use srcmv.Planner.Plan.{
  Platform, operation_effect, record_edits, resolve_operation, resolve_operations, check_links,
  plan_output, plan_outputs, plan,
}
use srcmv.PlanHash.Cbor.{be_bytes, major_value}
use srcmv.PlanHash.Record.{
  sorted_inputs, number_inputs, encode_workspace_identity, encode_input, encode_all,
  encode_selector, encode_anchor, encode_precondition, encode_operation, encode_segment,
  encode_segments, encode_output, encode_output_list, encode_outputs, encode_plan_record,
  plan_digest,
}
use srcmv.Lines.Split.{split_lines, ends_from}
use srcmv.Planner.Output.Indexed.{AllIndexed}
use srcmv.Planner.Output.Whole.{IsPlanOf, plan-IsPlanOf}

-- "a\nb\r\nc\rd"
abbrev pub mixed : Bytes
mixed = 97 ∷ 10 ∷ 98 ∷ 13 ∷ 10 ∷ 99 ∷ 13 ∷ 100 ∷ []

mixed_boundaries :
    from_bytes_with_limits mixed 10 100 ≡ ok (record { boundaries = 2 ∷ 5 ∷ 7 ∷ 8 ∷ [] })
unfolding from_bytes_with_limits push_terminators next_terminator_end push_line_boundary
mixed_boundaries = refl

abbrev pub toy_digest : Bytes → Sha256Digest
toy_digest content = content

abbrev pub root : FileIdentity
root = record { device = 1; inode = 2 }

abbrev pub path_a : WorkspaceRelativePath
path_a = record { value = 97 ∷ [] }

abbrev pub path_b : WorkspaceRelativePath
path_b = record { value = 98 ∷ [] }

abbrev pub file_a : FileSnapshot
file_a = record {
  id = 0;
  path = path_a;
  parent_identity = root;
  parent_identities = root ∷ [];
  identity = record { device = 1; inode = 3 };
  link_count = 1;
  content = mixed;
  digest = mixed;
  line_index = record { boundaries = 2 ∷ 5 ∷ 7 ∷ 8 ∷ [] };
}

abbrev pub missing_b : AbsentPathSnapshot
missing_b = record {
  path = path_b;
  parent_identity = root;
  parent_identities = root ∷ [];
  basename = 98 ∷ [];
}

abbrev pub workspace : WorkspaceSnapshot
workspace = record { workspace_identity = root; files = file_a ∷ []; absent_paths = missing_b ∷ [] }

-- Move line 2 of `a` into the new file `b`.
abbrev pub move_line : Operation
move_line = Operation.move (record {
  source = record {
    path = path_a;
    selector = Selector.lines 2 2;
    precondition = Precondition.sha256 mixed;
  };
  destination = record { path = path_b; anchor = file_start; precondition = must_not_exist };
})

abbrev pub platform : Platform
platform = record {
  sha256_of = toy_digest;
  sizes = record { resolved_operation = 300; planned_output = 200; output_segment = 80 };
}

abbrev pub budget : ResourceBudget
budget = record {
  operations = 1000;
  operation_paths = 1000;
  snapshot_bytes = 1073741824;
  resulting_bytes_per_output = 536870912;
  planned_output_bytes = 1073741824;
  segments_per_output = 100000;
  segments = 250000;
  changed_targets = 100;
  projected_response_bytes = 16777216;
  planning_memory_bytes = 2147483648;
}

-- What a plan says of its outputs: path, change and length.
abbrev summary : Result EditPlan → List (Bytes × OutputChange × ℕ)
summary (ok p) = map (λ o. (o.path.value, o.change, o.resulting_length)) p.outputs
summary (err e) = []

plan-move_line :
    summary (plan platform workspace (record { operations = move_line ∷ [] }) budget)
    ≡ (97 ∷ [], modified_existing, 5) ∷ (98 ∷ [], created_new, 3) ∷ []
unfolding plan resolve_operations resolve_operation record_edits output_edits fresh_edits
    index_snapshot index_files index_absent validate_precondition_consistency
    validate_preconditions_from existing_source destination_state match_destination resolve_selector
    resolve_anchor digest_range slice_range line_start line_end index_line_count operation_effect
    get insert entry plan_outputs plan_output validate_edit_conflicts check_overlaps
    check_insertions sort_by insert_sorted build_segments visit_points visit_point push_original
    collect_points add_deletions add_insertions sort_points stream_output stream_segments
    segment_bytes original_bytes classify_output check_links calculate_usage charge_operations
    charge_operation charge_outputs charge_output enforce_usage enforce_limit checked_add
    checked_mul plan_digest encode_plan_record sorted_inputs number_inputs encode_workspace_identity
    encode_all encode_input encode_outputs encode_output_list encode_output encode_segments
    encode_segment encode_operation encode_selector encode_anchor encode_precondition major_value
    be_bytes
plan-move_line = refl

abbrev batch : BatchSpecification
batch = record { operations = move_line ∷ [] }

-- The plan that is returned, or else an empty one.
abbrev returned : Result EditPlan → EditPlan
returned (ok p) = p
returned (err e) = record {
  operations = [];
  outputs = [];
  usage = record {
    maximum_output_bytes = 0;
    total_output_bytes = 0;
    maximum_output_segments = 0;
    total_segments = 0;
    changed_targets = 0;
    projected_response_bytes = 0;
    planning_memory_bytes = 0;
  };
  digest = [];
}

plan-returned :
    plan platform workspace batch budget ≡ ok (returned (plan platform workspace batch budget))
unfolding plan resolve_operations resolve_operation record_edits output_edits fresh_edits
    index_snapshot index_files index_absent validate_precondition_consistency
    validate_preconditions_from existing_source destination_state match_destination resolve_selector
    resolve_anchor digest_range slice_range line_start line_end index_line_count operation_effect
    get insert entry plan_outputs plan_output validate_edit_conflicts check_overlaps
    check_insertions sort_by insert_sorted build_segments visit_points visit_point push_original
    collect_points add_deletions add_insertions sort_points stream_output stream_segments
    segment_bytes original_bytes classify_output check_links calculate_usage charge_operations
    charge_operation charge_outputs charge_output enforce_usage enforce_limit checked_add
    checked_mul plan_digest encode_plan_record sorted_inputs number_inputs encode_workspace_identity
    encode_all encode_input encode_outputs encode_output_list encode_output encode_segments
    encode_segment encode_operation encode_selector encode_anchor encode_precondition major_value
    be_bytes
plan-returned = refl

workspace-AllIndexed : AllIndexed workspace.files
unfolding split_lines ends_from
workspace-AllIndexed = (refl, tt)

plan-IsPlanOf_example :
    IsPlanOf platform workspace batch budget (returned (plan platform workspace batch budget))
plan-IsPlanOf_example =
    plan-IsPlanOf platform workspace batch budget (returned (plan platform workspace batch budget))
      workspace-AllIndexed plan-returned
