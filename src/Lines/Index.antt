-- ===== src/Lines/Index.antt =====
-- crates/srcmv-core/src/line_metrics.rs: `LineIndex` and its queries.
use srcmv.Base.{
  ltb, leb, ◌==◌, if◌then◌else◌, length, get_elem?, last?, Bytes, ℕ, suc, ◌-◌, Bool, true, false,
  not, ◌&&◌, ◌||◌, Option, none, some, List, [], ◌∷◌,
}
use srcmv.Domain.Errors.{Result, ok, ◌>>=◌}
use srcmv.Domain.Types.{LineIndex}
use srcmv.Lines.Scan.{is_byte, saturating_mul, push_line_boundary, push_terminators}

abbrev pub is_empty {ℓ} : {A : Type ℓ} → List A → Bool
is_empty [] = true
is_empty (x ∷ xs) = false

-- `LineIndex::from_bytes_with_limits`.
unfoldable pub from_bytes_with_limits : Bytes → ℕ → ℕ → Result LineIndex
from_bytes_with_limits bytes maximum_lines maximum_memory_bytes = do
  let byte_length = length bytes
  boundaries ← push_terminators byte_length bytes 0 [] maximum_lines maximum_memory_bytes
  closed ←
      if not (is_byte (last? boundaries) byte_length) && not (is_empty bytes)
      then push_line_boundary boundaries byte_length maximum_lines maximum_memory_bytes
      else ok boundaries
  ok (record { boundaries = closed })

-- `LineIndex::line_count`.
unfoldable pub index_line_count : LineIndex → ℕ
index_line_count index = length index.boundaries

-- `LineIndex::line_start`.
unfoldable pub line_start : LineIndex → ℕ → Option ℕ
unfolding index_line_count
line_start index line =
    if (line == 0) || ltb (index_line_count index) line
    then none
    else if line == 1
    then some 0
    else get_elem? index.boundaries (line - 2)

-- `LineIndex::line_end`.
unfoldable pub line_end : LineIndex → ℕ → Option ℕ
line_end index line = if line == 0 then none else get_elem? index.boundaries (line - 1)

-- `LineIndex::memory_bytes`.
unfoldable pub memory_bytes : LineIndex → ℕ
unfolding index_line_count
memory_bytes index = saturating_mul (index_line_count index) 8

-- `LineIndex::indexed_byte_length`.
unfoldable pub indexed_byte_length : LineIndex → ℕ
indexed_byte_length index = elim (last? index.boundaries) [ none ↦ 0 | some length ↦ length ]

-- `slice::partition_point` for `*boundary <= limit`: the length of the prefix that satisfies it.
unfoldable pub partition_point : List ℕ → ℕ → ℕ
partition_point [] limit = 0
partition_point (boundary ∷ rest) limit =
    if leb boundary limit then suc (partition_point rest limit) else 0
