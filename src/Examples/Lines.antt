-- ===== src/Examples/Lines.antt =====
-- Line indexes, line metrics and encoded heads of small byte sequences.
use srcmv.Base.{
  if◌then◌else◌, length, take, drop, suc, ◌-◌, ◌≤◌, ◌<◌, ◌≡◌, refl, some, [], ◌∷◌, ◌++◌, arith,
}
use srcmv.Domain.Errors.{ok, err, ◌>>=◌}
use srcmv.Domain.Types.{LineIndex}
use srcmv.Lines.Index.{from_bytes_with_limits, index_line_count, line_start, line_end}
use srcmv.Lines.Metrics.{
  LineMetrics, try_from_bytes, metrics_line_count, try_append_bytes, metrics_for_range,
}
use srcmv.Lines.Split.{split_lines, join, ends_from}
use srcmv.Lines.Boundaries.{limit_error, within_limits, from_bytes_with_limits-split_lines}
use srcmv.Lines.Numbers.{IsIndexOf, lines_between}
use srcmv.Lines.Append.{try_from_bytes-split_lines, try_append_bytes-append}
use srcmv.Lines.Ranges.{metrics_for_range-try_from_bytes}
use srcmv.Examples.Planning.{mixed}
use srcmv.PlanHash.Cbor.{major_value}
use srcmv.PlanHash.Decode.{read_head, read_head-major_value}

from_bytes_with_limits-split_lines_example : from_bytes_with_limits mixed 3 100 ≡ (
    if within_limits (length (split_lines mixed)) 3 100
    then ok (record { boundaries = ends_from 0 (split_lines mixed) })
    else err (limit_error 3 100))
from_bytes_with_limits-split_lines_example =
    from_bytes_with_limits-split_lines mixed 3 100 (omega arith)

abbrev mixed_index : LineIndex
mixed_index = record { boundaries = 2 ∷ 5 ∷ 7 ∷ 8 ∷ [] }

mixed_index-IsIndexOf : IsIndexOf mixed mixed_index
unfolding split_lines ends_from
mixed_index-IsIndexOf = refl

-- The range cuts the CRLF after its carriage return.
metrics_for_range-try_from_bytes_example :
    metrics_for_range mixed_index mixed (record { start = 2; end = 4 })
    ≡ try_from_bytes (take 2 (drop 2 mixed))
metrics_for_range-try_from_bytes_example =
    metrics_for_range-try_from_bytes mixed mixed_index (record { start = 2; end = 4 })
      mixed_index-IsIndexOf (omega arith) (omega arith) (omega arith)

-- The chunks meet inside the CRLF.
try_append_bytes-append_example :
    (try_from_bytes (97 ∷ 13 ∷ []) >>= λ metrics. try_append_bytes metrics (10 ∷ 98 ∷ []))
    ≡ try_from_bytes (97 ∷ 13 ∷ 10 ∷ 98 ∷ [])
try_append_bytes-append_example =
    try_append_bytes-append (97 ∷ 13 ∷ []) (10 ∷ 98 ∷ []) (omega arith)

lines_between_example :
    (take (7 - 2) (drop 2 mixed) ≡ join (take (suc 3 - 2) (drop (2 - 1) (split_lines mixed))))
    × (2 < 7)
    × (7 ≤ length mixed)
unfolding line_start line_end index_line_count
lines_between_example =
    lines_between mixed mixed_index mixed_index-IsIndexOf 2 3 2 7 (omega arith) (omega arith) refl
      refl

read_head-major_value_example :
    read_head (major_value 2 65536 ++ (7 ∷ [])) ≡ some (2, 65536, 7 ∷ [])
read_head-major_value_example = read_head-major_value 2 65536 (7 ∷ []) (omega arith) (omega arith)

try_from_bytes-split_lines_example :
    (metrics : LineMetrics) × (try_from_bytes mixed ≡ ok metrics)
    × (metrics.byte_count ≡ length mixed)
    × (metrics_line_count metrics ≡ length (split_lines mixed))
try_from_bytes-split_lines_example = try_from_bytes-split_lines mixed (omega arith)
