-- ===== src/Lines/Metrics.antt =====
-- crates/srcmv-core/src/line_metrics.rs: `LineMetrics` and the ranged query of `LineIndex`.
use srcmv.Base.{
  ltb, ◌==◌, if◌then◌else◌, length, get_elem?, last?, first?, Bytes, ℕ, zero, suc, ◌-◌, Bool, false,
  not, ◌&&◌, ◌||◌, Option, none, some, [], ◌∷◌,
}
use srcmv.Domain.Errors.{Field, Resource, invalid_domain_value, Result, ok, err, ◌>>=◌, checked_add}
use srcmv.Domain.Types.{LineIndex, ByteRange}
use srcmv.Lines.Scan.{
  is_byte, carriage_return, line_feed, is_terminator_byte, saturating_add, count_terminators,
}
use srcmv.Lines.Index.{indexed_byte_length, partition_point}

pub record LineMetrics : Type 0 where
  pub byte_count : ℕ
  pub terminator_count : ℕ
  pub first_byte : Option ℕ
  pub last_byte : Option ℕ

-- `LineMetrics::default`.
abbrev pub no_metrics : LineMetrics
no_metrics = record { byte_count = 0; terminator_count = 0; first_byte = none; last_byte = none }

-- `LineMetrics::try_from_bytes`.
unfoldable pub try_from_bytes : Bytes → Result LineMetrics
try_from_bytes [] = ok no_metrics
try_from_bytes (b ∷ rest) = do
  let bytes = b ∷ rest
  count ← count_terminators (length bytes) bytes 0 0
  ok (record {
    byte_count = length bytes;
    terminator_count = count;
    first_byte = first? bytes;
    last_byte = last? bytes;
  })

abbrev pub is_unterminated : Option ℕ → Bool
unfolding is_terminator_byte
is_unterminated none = false
is_unterminated (some byte) = not (is_terminator_byte byte)

-- `LineMetrics::line_count`.
unfoldable pub metrics_line_count : LineMetrics → ℕ
metrics_line_count metrics =
    saturating_add metrics.terminator_count (if is_unterminated metrics.last_byte then 1 else 0)

-- `checked_sub(1)` with the error that the caller gives.
abbrev pub checked_sub_one : ℕ → Field → Result ℕ
checked_sub_one zero field = err (invalid_domain_value field)
checked_sub_one (suc n) field = ok n

-- `LineMetrics::try_append`: the receiver after the call, or the error that leaves it unchanged.
unfoldable pub try_append : LineMetrics → LineMetrics → Result LineMetrics
try_append self following =
    if following.byte_count == 0 then ok self else if self.byte_count == 0 then ok following else do
      byte_count ← checked_add self.byte_count following.byte_count Resource.line_metric_bytes
      following_terminators ←
          if is_byte self.last_byte carriage_return && is_byte following.first_byte line_feed
          then checked_sub_one following.terminator_count Field.line_metrics_summary
          else ok following.terminator_count
      terminator_count ← checked_add self.terminator_count following_terminators Resource.line_count
      ok (record self {
        byte_count = byte_count;
        terminator_count = terminator_count;
        last_byte = following.last_byte;
      })

-- `LineMetrics::try_append_bytes`.
unfoldable pub try_append_bytes : LineMetrics → Bytes → Result LineMetrics
try_append_bytes self bytes = do following ← try_from_bytes bytes; try_append self following

-- `LineIndex::metrics_for_range`; `bytes[i]` is a lookup, which the checks above it keep in range.
unfoldable pub metrics_for_range : LineIndex → Bytes → ByteRange → Result LineMetrics
metrics_for_range index bytes range =
    let byte_length = length bytes in
    if not (indexed_byte_length index == byte_length)
    then err (invalid_domain_value Field.line_metrics_indexed_bytes)
    else if ltb range.end range.start || ltb byte_length range.end
    then err (invalid_domain_value Field.line_metrics_range)
    else if range.start == range.end
    then ok no_metrics
    else do
      let first_boundary = partition_point index.boundaries range.start
      let final_boundary = partition_point index.boundaries range.end
      let last = get_elem? bytes (range.end - 1)
      let found = final_boundary - first_boundary
      terminated ←
          if (range.end == byte_length) && is_unterminated last
          then checked_sub_one found Field.line_metrics_index
          else ok found
      terminator_count ←
          if ltb range.end byte_length
            && is_byte last carriage_return
            && is_byte (get_elem? bytes range.end) line_feed
          then checked_add terminated 1 Resource.line_count
          else ok terminated
      ok (record {
        byte_count = range.end - range.start;
        terminator_count = terminator_count;
        first_byte = get_elem? bytes range.start;
        last_byte = last;
      })
