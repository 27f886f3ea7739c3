-- ===== src/Planner/Usage.antt =====
-- crates/srcmv-core/src/planner.rs: resource accounting of a plan, and its limits.
use srcmv.Base.{if◌then◌else◌, length, ℕ, max, Bool, true, false, List, [], ◌∷◌}
use srcmv.Domain.Errors.{Resource, Result, ok, ◌>>=◌, ◌>>◌, checked_add, checked_mul, enforce_limit}
use srcmv.Domain.Types.{
  ResolvedOperation, OutputChange, unchanged, PlannedOutput, PlanningUsage, ResourceBudget,
}

-- `size_of` of the retained records, which the compiler decides.
pub record RecordSizes : Type 0 where
  pub resolved_operation : ℕ
  pub planned_output : ℕ
  pub output_segment : ℕ

abbrev pub is_changed : OutputChange → Bool
is_changed unchanged = false
is_changed _ = true

-- One round of the loop over the operations.
unfoldable pub charge_operation : ResolvedOperation → PlanningUsage → Result PlanningUsage
charge_operation operation usage = do
  path_bytes ←
      checked_add (length operation.source_path.value) (length operation.destination_path.value)
        Resource.projected_response_bytes
  charge ← checked_add 1024 path_bytes Resource.projected_response_bytes
  projected ← checked_add usage.projected_response_bytes charge Resource.projected_response_bytes
  memory ← checked_add usage.planning_memory_bytes path_bytes Resource.planning_memory_bytes
  ok (record usage { projected_response_bytes = projected; planning_memory_bytes = memory })

unfoldable pub charge_operations : List ResolvedOperation → PlanningUsage → Result PlanningUsage
charge_operations [] usage = ok usage
charge_operations (operation ∷ rest) usage = do
  charged ← charge_operation operation usage
  charge_operations rest charged

-- One round of the loop over the outputs.
unfoldable pub charge_output : RecordSizes → PlannedOutput → PlanningUsage → Result PlanningUsage
charge_output sizes output usage = do
  let segment_count = length output.segments
  total_output ←
      checked_add usage.total_output_bytes output.resulting_length Resource.planned_output_bytes
  total_segments ← checked_add usage.total_segments segment_count Resource.segments
  changed_targets ←
      if is_changed output.change
      then checked_add usage.changed_targets 1 Resource.changed_targets
      else ok usage.changed_targets
  let path_bytes = length output.path.value
  segment_projection ← checked_mul segment_count 512 Resource.projected_response_bytes
  path_charge ← checked_add 512 path_bytes Resource.projected_response_bytes
  charge ← checked_add path_charge segment_projection Resource.projected_response_bytes
  projected ← checked_add usage.projected_response_bytes charge Resource.projected_response_bytes
  segment_memory ← checked_mul segment_count sizes.output_segment Resource.planning_memory_bytes
  retained ← checked_add path_bytes segment_memory Resource.planning_memory_bytes
  memory ← checked_add usage.planning_memory_bytes retained Resource.planning_memory_bytes
  ok (record {
    maximum_output_bytes = max usage.maximum_output_bytes output.resulting_length;
    total_output_bytes = total_output;
    maximum_output_segments = max usage.maximum_output_segments segment_count;
    total_segments = total_segments;
    changed_targets = changed_targets;
    projected_response_bytes = projected;
    planning_memory_bytes = memory;
  })

unfoldable pub charge_outputs :
    RecordSizes → List PlannedOutput → PlanningUsage → Result PlanningUsage
charge_outputs sizes [] usage = ok usage
charge_outputs sizes (output ∷ rest) usage = do
  charged ← charge_output sizes output usage
  charge_outputs sizes rest charged

-- `calculate_usage`.
unfoldable pub calculate_usage :
    RecordSizes → List ResolvedOperation → List PlannedOutput → Result PlanningUsage
calculate_usage sizes operations outputs = do
  operation_memory ←
      checked_mul (length operations) sizes.resolved_operation Resource.planning_memory_bytes
  let start : PlanningUsage = record {
    maximum_output_bytes = 0;
    total_output_bytes = 0;
    maximum_output_segments = 0;
    total_segments = 0;
    changed_targets = 0;
    projected_response_bytes = 1024;
    planning_memory_bytes = operation_memory;
  }
  charged ← charge_operations operations start
  output_memory ← checked_mul (length outputs) sizes.planned_output Resource.planning_memory_bytes
  memory ← checked_add charged.planning_memory_bytes output_memory Resource.planning_memory_bytes
  charge_outputs sizes outputs (record charged { planning_memory_bytes = memory })

-- `enforce_usage`.
unfoldable pub enforce_usage : PlanningUsage → ResourceBudget → Result (Unit {0})
enforce_usage usage budget = do
  enforce_limit Resource.resulting_bytes_per_output usage.maximum_output_bytes
      budget.resulting_bytes_per_output
  enforce_limit Resource.planned_output_bytes usage.total_output_bytes budget.planned_output_bytes
  enforce_limit Resource.segments_per_output usage.maximum_output_segments
      budget.segments_per_output
  enforce_limit Resource.segments usage.total_segments budget.segments
  enforce_limit Resource.changed_targets usage.changed_targets budget.changed_targets
  enforce_limit Resource.projected_response_bytes usage.projected_response_bytes
      budget.projected_response_bytes
  enforce_limit Resource.planning_memory_bytes usage.planning_memory_bytes
      budget.planning_memory_bytes
