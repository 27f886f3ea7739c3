-- ===== src/Planner/Totals.antt =====
-- crates/srcmv-core/src/planner.rs: what `calculate_usage` sums up.
use srcmv.Base.{if◌then◌else◌, length, ℕ, ◌+◌, max, ◌≡◌, sym, ◌∙◌, List, [], ◌∷◌, arith}
use srcmv.Domain.Errors.{Resource, ok, >>=-eq-ok, ok_injective, checked_add, checked_mul}
use srcmv.Domain.Types.{ResolvedOperation, PlannedOutput, PlanningUsage}
use srcmv.Planner.Usage.{
  RecordSizes, is_changed, charge_operation, charge_operations, charge_output, charge_outputs,
  calculate_usage,
}

-- The outputs' lengths, their segments, and how many of them change, in sum, and the largest.
unfoldable pub total_bytes : List PlannedOutput → ℕ
total_bytes [] = 0
total_bytes (output ∷ outputs) = output.resulting_length + total_bytes outputs

unfoldable pub segment_total : List PlannedOutput → ℕ
segment_total [] = 0
segment_total (output ∷ outputs) = length output.segments + segment_total outputs

unfoldable pub changed_total : List PlannedOutput → ℕ
changed_total [] = 0
changed_total (output ∷ outputs) =
    (if is_changed output.change then 1 else 0) + changed_total outputs

unfoldable pub longest : List PlannedOutput → ℕ
longest [] = 0
longest (output ∷ outputs) = max output.resulting_length (longest outputs)

-- What one round adds.
abbrev Charged : PlannedOutput → PlanningUsage → PlanningUsage → Type 0
Charged output before after =
    (after.total_output_bytes ≡ before.total_output_bytes + output.resulting_length)
    × (after.total_segments ≡ before.total_segments + length output.segments)
    × (after.changed_targets ≡ before.changed_targets + (if is_changed output.change then 1 else 0))
    × (after.maximum_output_bytes ≡ max before.maximum_output_bytes output.resulting_length)

charge_output-Charged :
    (sizes : RecordSizes) (output : PlannedOutput) (before after : PlanningUsage)
    → charge_output sizes output before ≡ ok after
    → Charged output before after
unfolding charge_output checked_add checked_mul
charge_output-Charged sizes output before after h = ground arith

charge_outputs-Totals :
    (sizes : RecordSizes) (outputs : List PlannedOutput) (before after : PlanningUsage)
    → charge_outputs sizes outputs before ≡ ok after
    → (after.total_output_bytes ≡ before.total_output_bytes + total_bytes outputs)
      × (after.total_segments ≡ before.total_segments + segment_total outputs)
      × (after.changed_targets ≡ before.changed_targets + changed_total outputs)
      × (after.maximum_output_bytes ≡ max before.maximum_output_bytes (longest outputs))
unfolding charge_outputs total_bytes segment_total changed_total longest
charge_outputs-Totals sizes [] before after h =
    let same : before ≡ after = ok_injective before after h in
    rw (sym same) (omega arith, omega arith, omega arith, ground arith)
charge_outputs-Totals sizes (output ∷ outputs) before after h =
    let (charged, a, rest) = >>=-eq-ok (charge_output sizes output before) _ h in
    let (bytes, segments, changes, largest) = charge_output-Charged sizes output before charged a in
    let (b, s, c, m) = charge_outputs-Totals sizes outputs charged after rest in
    (
      omega (arith, b, bytes),
      omega (arith, s, segments),
      omega (arith, c, changes),
      ground (arith, m, largest),
    )

charge_operation-Kept :
    (operation : ResolvedOperation) (before after : PlanningUsage)
    → charge_operation operation before ≡ ok after
    → (after.total_output_bytes ≡ before.total_output_bytes)
      × (after.total_segments ≡ before.total_segments)
      × (after.changed_targets ≡ before.changed_targets)
      × (after.maximum_output_bytes ≡ before.maximum_output_bytes)
unfolding charge_operation checked_add
charge_operation-Kept operation before after h = ground arith

charge_operations-Kept :
    (operations : List ResolvedOperation) (before after : PlanningUsage)
    → charge_operations operations before ≡ ok after
    → (after.total_output_bytes ≡ before.total_output_bytes)
      × (after.total_segments ≡ before.total_segments)
      × (after.changed_targets ≡ before.changed_targets)
      × (after.maximum_output_bytes ≡ before.maximum_output_bytes)
unfolding charge_operations
charge_operations-Kept [] before after h = ground arith
charge_operations-Kept (operation ∷ operations) before after h =
    let (charged, a, rest) = >>=-eq-ok (charge_operation operation before) _ h in
    let (b, s, c, m) = charge_operation-Kept operation before charged a in
    let (b', s', c', m') = charge_operations-Kept operations charged after rest in
    (b' ∙ b, s' ∙ s, c' ∙ c, m' ∙ m)

-- A usage that is calculated has as its totals the sum of the outputs' lengths, the sum of their
-- segment counts and the number of outputs that change, and as its largest output the longest of
-- them.
pub calculate_usage-totals :
    (sizes : RecordSizes) (operations : List ResolvedOperation) (outputs : List PlannedOutput)
    (usage : PlanningUsage)
    → calculate_usage sizes operations outputs ≡ ok usage
    → (usage.total_output_bytes ≡ total_bytes outputs)
      × (usage.total_segments ≡ segment_total outputs)
      × (usage.changed_targets ≡ changed_total outputs)
      × (usage.maximum_output_bytes ≡ longest outputs)
unfolding calculate_usage
calculate_usage-totals sizes operations outputs usage h =
    let (operation_memory, a, h1) =
      >>=-eq-ok
        (checked_mul (length operations) sizes.resolved_operation Resource.planning_memory_bytes) _
        h in
    let (charged, b, h2) = >>=-eq-ok (charge_operations operations _) _ h1 in
    let (output_memory, c, h3) =
      >>=-eq-ok (checked_mul (length outputs) sizes.planned_output Resource.planning_memory_bytes) _
        h2 in
    let (memory, d, h4) =
      >>=-eq-ok
        (checked_add charged.planning_memory_bytes output_memory Resource.planning_memory_bytes) _
        h3 in
    let (bytes, segments, changes, largest) = charge_operations-Kept operations _ charged b in
    let (b', s', c', m') = charge_outputs-Totals sizes outputs _ usage h4 in
    (
      omega (arith, b', bytes),
      omega (arith, s', segments),
      omega (arith, c', changes),
      ground (arith, m', largest),
    )
