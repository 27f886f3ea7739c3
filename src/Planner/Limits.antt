-- ===== src/Planner/Limits.antt =====
-- crates/srcmv-core/src/planner.rs: what `enforce_usage` accepts.
use srcmv.Base.{ℕ, ◌≤◌, ◌≡◌, ◌↔◌, arith}
use srcmv.Domain.Errors.{Resource, Result, ok, ◌>>◌, enforce_limit}
use srcmv.Domain.Types.{PlanningUsage, ResourceBudget}
use srcmv.Planner.Usage.{enforce_usage}

-- A usage within its budget.
abbrev pub IsWithin : PlanningUsage → ResourceBudget → Type 0
IsWithin usage budget =
    (usage.maximum_output_bytes ≤ budget.resulting_bytes_per_output)
    × (usage.total_output_bytes ≤ budget.planned_output_bytes)
    × (usage.maximum_output_segments ≤ budget.segments_per_output)
    × (usage.total_segments ≤ budget.segments)
    × (usage.changed_targets ≤ budget.changed_targets)
    × (usage.projected_response_bytes ≤ budget.projected_response_bytes)
    × (usage.planning_memory_bytes ≤ budget.planning_memory_bytes)

enforce_limit-then :
    (resource : Resource) (attempted limit : ℕ) (next : Result (Unit {0}))
    → (enforce_limit resource attempted limit >> next) ≡ ok tt
    → (attempted ≤ limit) × (next ≡ ok tt)
unfolding enforce_limit
enforce_limit-then resource attempted limit next h = ground arith

enforce_limit-le :
    (resource : Resource) (attempted limit : ℕ)
    → enforce_limit resource attempted limit ≡ ok tt
    → attempted ≤ limit
unfolding enforce_limit
enforce_limit-le resource attempted limit h = ground arith

enforce_limit-ok :
    (resource : Resource) (attempted limit : ℕ)
    → attempted ≤ limit
    → enforce_limit resource attempted limit ≡ ok tt
unfolding enforce_limit
enforce_limit-ok resource attempted limit h = ground arith

-- The usage check succeeds exactly if each of the seven amounts is at most its limit.
pub enforce_usage_iff :
    (usage : PlanningUsage) (budget : ResourceBudget)
    → (enforce_usage usage budget ≡ ok tt) ↔ IsWithin usage budget
unfolding enforce_usage
enforce_usage_iff usage budget = (
  λ h.
      let (a, h) = enforce_limit-then _ _ _ _ h in
      let (b, h) = enforce_limit-then _ _ _ _ h in
      let (c, h) = enforce_limit-then _ _ _ _ h in
      let (d, h) = enforce_limit-then _ _ _ _ h in
      let (e, h) = enforce_limit-then _ _ _ _ h in
      let (f, h) = enforce_limit-then _ _ _ _ h in (a, b, c, d, e, f, enforce_limit-le _ _ _ h),
  λ within.
      let (a, b, c, d, e, f, g) = within in
      rw
        (
          enforce_limit-ok Resource.resulting_bytes_per_output _ _ a,
          enforce_limit-ok Resource.planned_output_bytes _ _ b,
          enforce_limit-ok Resource.segments_per_output _ _ c,
          enforce_limit-ok Resource.segments _ _ d,
          enforce_limit-ok Resource.changed_targets _ _ e,
          enforce_limit-ok Resource.projected_response_bytes _ _ f,
        )
        (enforce_limit-ok Resource.planning_memory_bytes _ _ g),
)
