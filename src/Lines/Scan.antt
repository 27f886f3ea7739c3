-- ===== src/Lines/Scan.antt =====
-- crates/srcmv-core/src/line_metrics.rs: the terminator scanner and the limits on boundaries.
-- A cursor `offset` into a slice is the offset with the bytes that are left behind it.
use srcmv.Base.{
  ltb, ◌==◌, if◌then◌else◌, length, drop, Bytes, ℕ, zero, suc, ◌+◌, ◌*◌, Bool, false, ◌&&◌, ◌||◌,
  Option, none, some, List, [], ◌∷◌, ◌++◌,
}
use srcmv.Domain.Errors.{Resource, Result, ok, ◌>>=◌, ◌>>◌, u64_max, checked_add, enforce_limit}

abbrev pub carriage_return : ℕ
carriage_return = 13

abbrev pub line_feed : ℕ
line_feed = 10

unfoldable pub is_terminator_byte : ℕ → Bool
is_terminator_byte byte = (byte == carriage_return) || (byte == line_feed)

-- Comparison of an optional number with `Some(b)`.
abbrev pub is_byte : Option ℕ → ℕ → Bool
is_byte none b = false
is_byte (some a) b = a == b

-- `bytes.get(offset + 1) == Some(&b'\n')` on the bytes that are left.
abbrev pub starts_with_lf : Bytes → Bool
starts_with_lf [] = false
starts_with_lf (c ∷ rest) = c == line_feed

-- The end of the next terminator, with the bytes behind it.
unfoldable pub next_terminator_end : Bytes → ℕ → Option (ℕ × Bytes)
next_terminator_end [] offset = none
next_terminator_end (b ∷ rest) offset =
    let later = next_terminator_end rest (offset + 1) in
    if (b == carriage_return) && starts_with_lf rest
    then some (offset + 2, drop 1 rest)
    else if (b == carriage_return) || (b == line_feed)
    then some (offset + 1, rest)
    else later

-- `u64` addition and multiplication that stop at the largest value.
abbrev pub saturating_add : ℕ → ℕ → ℕ
saturating_add a b = if ltb u64_max (a + b) then u64_max else a + b

abbrev pub saturating_mul : ℕ → ℕ → ℕ
saturating_mul a b = if ltb u64_max (a * b) then u64_max else a * b

unfoldable pub push_line_boundary : List ℕ → ℕ → ℕ → ℕ → Result (List ℕ)
unfolding enforce_limit
push_line_boundary boundaries boundary maximum_lines maximum_memory_bytes = do
  let next_line_count = saturating_add (length boundaries) 1
  enforce_limit Resource.line_count next_line_count maximum_lines
  let next_memory = saturating_mul next_line_count 8
  enforce_limit Resource.line_index_memory next_memory maximum_memory_bytes
  ok (boundaries ++ (boundary ∷ []))

-- The `while let` of `from_bytes_with_limits`; each round passes at least one byte, so the
-- number of bytes is fuel enough.
unfoldable pub push_terminators : ℕ → Bytes → ℕ → List ℕ → ℕ → ℕ → Result (List ℕ)
push_terminators zero rest offset boundaries maximum_lines maximum_memory_bytes = ok boundaries
push_terminators (suc fuel) rest offset boundaries maximum_lines maximum_memory_bytes =
    elim (next_terminator_end rest offset) [
      | none ↦ ok boundaries
      | some (boundary, rest') ↦ do
        grown ← push_line_boundary boundaries boundary maximum_lines maximum_memory_bytes
        push_terminators fuel rest' boundary grown maximum_lines maximum_memory_bytes
    ]

-- The `while` of `try_from_bytes`, which counts the terminators.
unfoldable pub count_terminators : ℕ → Bytes → ℕ → ℕ → Result ℕ
count_terminators zero rest offset count = ok count
count_terminators (suc fuel) rest offset count = elim (next_terminator_end rest offset) [
  | none ↦ ok count
  | some (boundary, rest') ↦ do
    grown ← checked_add count 1 Resource.line_count
    count_terminators fuel rest' boundary grown
]
