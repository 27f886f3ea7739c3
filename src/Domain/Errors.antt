-- ===== src/Domain/Errors.antt =====
-- crates/srcmv-core/src/lib.rs: `CoreError`, and `Result<T, CoreError>` with its `?` as `>>=`.
-- A `&'static str` that names a field, a reason or a resource is an enumeration of the
-- strings that the crate uses, and a path is its UTF-8 bytes.
use srcmv.Base.{ltb, if◌then◌else◌, Bytes, ℕ, ◌+◌, ◌*◌, ◌≤◌, ◌≡◌, Option, arith}
use srcmv.Base.Results.{ResultOf}
pub use srcmv.Base.Results.{
  ok, err, ◌>>=◌, ◌>>◌, ok_or, >>=-eq-ok, ok_injective, >>=-assoc, >>=-congr,
}

pub data Field : Type 0 where
  duplicate_snapshot_path duplicate_snapshot_file_id output_snapshot_file_id : Field
  event_offset absent_output_original_slice segment_snapshot_file_id segment_range : Field
  line_metrics_indexed_bytes line_metrics_range line_metrics_index line_metrics_summary : Field
  segment_snapshot_input_index cbor_array_length cbor_text_length cbor_bytes_length : Field
  input_length snapshot_input_index : Field

pub data Reason : Type 0 where
  source_must_exist source_not_in_snapshot source_precondition_failed : Reason
  destination_not_in_snapshot destination_precondition_failed : Reason
  destination_state_mismatch line_selector_out_of_range byte_selector_out_of_range : Reason
  line_anchor_out_of_range byte_anchor_out_of_range new_file_anchor_out_of_range : Reason
  path_used_as_absent_and_existing incompatible_preconditions : Reason
  overlapping_move_deletions insertion_inside_move_deletion : Reason

pub data Resource : Type 0 where
  operations snapshot_bytes resulting_bytes_per_output planned_output_bytes : Resource
  segments_per_output segments changed_targets projected_response_bytes : Resource
  planning_memory_bytes line_count line_index_memory line_metric_bytes : Resource
  snapshot_file_bytes : Resource

pub data CoreError : Type 0 where
  invalid_domain_value : Field → CoreError
  edit_conflict : Reason → Option ℕ → CoreError
  hard_link_not_supported : Bytes → ℕ → CoreError
  resource_limit_exceeded : Resource → ℕ → ℕ → CoreError

abbrev pub Result {ℓ} : Type ℓ → Type ℓ
Result T = ResultOf CoreError T

-- `u64::MAX`; the qualified targets have 64-bit `usize`, so a conversion between them is exact.
abbrev pub u64_max : ℕ
u64_max = 18446744073709551615

-- `limit_overflow` and `line_limit_overflow`.
abbrev pub limit_overflow : Resource → CoreError
limit_overflow resource = resource_limit_exceeded resource u64_max 18446744073709551614

-- `checked_add` and `checked_mul` of the planner: `u64` arithmetic that reports an overflow.
unfoldable pub checked_add : ℕ → ℕ → Resource → Result ℕ
checked_add left right resource =
    if ltb u64_max (left + right) then err (limit_overflow resource) else ok (left + right)

unfoldable pub checked_mul : ℕ → ℕ → Resource → Result ℕ
checked_mul left right resource =
    if ltb u64_max (left * right) then err (limit_overflow resource) else ok (left * right)

-- `enforce_limit` and `enforce_line_limit`.
unfoldable pub enforce_limit : Resource → ℕ → ℕ → Result (Unit {0})
enforce_limit resource actual limit =
    if ltb limit actual then err (resource_limit_exceeded resource actual limit) else ok tt

pub checked_add-eq-ok :
    (left right : ℕ) (resource : Resource)
    → left + right ≤ u64_max
    → checked_add left right resource ≡ ok (left + right)
unfolding checked_add
checked_add-eq-ok left right resource h = ground arith
