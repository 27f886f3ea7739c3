-- ===== src/Planner/Selection.antt =====
-- crates/srcmv-core/src/planner.rs: what `resolve_selector` and `resolve_anchor` return is what
-- the selector and the anchor name, and lies inside the file.
use srcmv.Base.{
  ◌∙◌, ltb, ◌==◌, Bool-cases, Option-cases, length, Bytes, ℕ, zero, suc, ◌-◌, ◌≤◌, ◌<◌, ◌≡◌, ap,
  inl, inr, ◌||◌, arith,
}
use srcmv.Base.Ordered.{nat_key, bytes_key}
use srcmv.Domain.Errors.{ok}
use srcmv.Domain.Types.{
  Selector, Anchor, file_start, file_end, before_line, after_line, byte_offset, FileSnapshot,
  ByteRange,
}
use srcmv.Lines.Index.{line_start, line_end}
use srcmv.Lines.Split.{split_lines, join-split_lines}
use srcmv.Lines.Numbers.{
  IsIndexOf, offset_of, offset_of-le, line_start-offset_of, line_end-offset_of, lines_between,
}
use srcmv.Planner.Resolve.{SnapshotState, existing, absent, resolve_selector, resolve_anchor}

-- With the line index of the file's content, a selector that resolves gives a range that is not
-- empty and lies inside the file.
pub resolve_selector-in_file :
    (file : FileSnapshot) (selector : Selector) (operation_index : ℕ) (range : ByteRange)
    → IsIndexOf file.content file.line_index
    → resolve_selector file selector operation_index ≡ ok range
    → (range.start < range.end) × (range.end ≤ length file.content)
unfolding resolve_selector
resolve_selector-in_file file (Selector.bytes start end) operation_index range indexed h =
    ground arith
resolve_selector-in_file file (Selector.lines first last) operation_index range indexed h =
    elim (Bool-cases ((first == 0) || ltb last first)) [
      | inl bad ↦ ground arith
      | inr good ↦ elim (Option-cases (line_start file.line_index first)) [
        | inl no_start ↦ ground arith
        | inr (s, at_start) ↦ elim (Option-cases (line_end file.line_index last)) [
          | inl no_end ↦ ground arith
          | inr (e, at_end) ↦
              let found =
                lines_between file.content file.line_index indexed first last s e (ground arith)
                  (ground arith) at_start at_end in
              ground (arith, found)
        ]
      ]
    ]

-- The line index of an existing file is that of its content.
abbrev pub IsIndexed : SnapshotState → Type 0
IsIndexed (existing file) = IsIndexOf file.content file.line_index
IsIndexed (absent path) = Unit

abbrev pub content_length : SnapshotState → ℕ
content_length (existing file) = length file.content
content_length (absent path) = 0

offset-inside : (content : Bytes) (k : ℕ) → offset_of k (split_lines content) ≤ length content
offset-inside content k =
    omega (arith, offset_of-le k (split_lines content), ap length (join-split_lines content))

-- With the line index of an existing destination's content, an anchor that resolves gives an
-- offset inside the destination, which for an absent one is 0.
pub resolve_anchor-in_file :
    (state : SnapshotState) (anchor : Anchor) (operation_index offset : ℕ)
    → IsIndexed state
    → resolve_anchor state anchor operation_index ≡ ok offset
    → offset ≤ content_length state
unfolding resolve_anchor
resolve_anchor-in_file (existing file) file_start operation_index offset indexed h = ground arith
resolve_anchor-in_file (existing file) file_end operation_index offset indexed h = ground arith
resolve_anchor-in_file (existing file) (byte_offset o) operation_index offset indexed h =
    ground arith
resolve_anchor-in_file (existing file) (before_line line) operation_index offset indexed h =
    ground (
      arith,
      line_start-offset_of file.content file.line_index indexed line,
      offset-inside file.content (line - 1),
    )
resolve_anchor-in_file (existing file) (after_line line) operation_index offset indexed h = ground (
  arith,
  line_end-offset_of file.content file.line_index indexed line,
  offset-inside file.content line,
)
resolve_anchor-in_file (absent path) file_start operation_index offset indexed h = ground arith
resolve_anchor-in_file (absent path) file_end operation_index offset indexed h = ground arith
resolve_anchor-in_file (absent path) (before_line line) operation_index offset indexed h =
    ground arith
resolve_anchor-in_file (absent path) (after_line line) operation_index offset indexed h =
    ground arith
resolve_anchor-in_file (absent path) (byte_offset zero) operation_index offset indexed h =
    ground arith
resolve_anchor-in_file (absent path) (byte_offset (suc o)) operation_index offset indexed h =
    ground arith

-- The range that a selector names: lines are counted from 1 in the lines the content splits into.
abbrev pub IsSelected : FileSnapshot → Selector → ByteRange → Type 0
IsSelected file (Selector.bytes start end) range = (range.start ≡ start) × (range.end ≡ end)
IsSelected file (Selector.lines first last) range =
    (0 < first)
    × (first ≤ last)
    × (last ≤ length (split_lines file.content))
    × (range.start ≡ offset_of (first - 1) (split_lines file.content))
    × (range.end ≡ offset_of last (split_lines file.content))

-- The offset that an anchor names.
abbrev pub IsAnchored : SnapshotState → Anchor → ℕ → Type 0
IsAnchored (existing file) file_start offset = offset ≡ 0
IsAnchored (existing file) file_end offset = offset ≡ length file.content
IsAnchored (existing file) (before_line line) offset =
    (0 < line)
    × (line ≤ length (split_lines file.content))
    × (offset ≡ offset_of (line - 1) (split_lines file.content))
IsAnchored (existing file) (after_line line) offset =
    (0 < line)
    × (line ≤ length (split_lines file.content))
    × (offset ≡ offset_of line (split_lines file.content))
IsAnchored (existing file) (byte_offset at) offset = (offset ≡ at) × (at ≤ length file.content)
IsAnchored (absent path) file_start offset = offset ≡ 0
IsAnchored (absent path) file_end offset = offset ≡ 0
IsAnchored (absent path) (byte_offset at) offset = (at ≡ 0) × (offset ≡ 0)
IsAnchored (absent path) (before_line line) offset = ⊥
IsAnchored (absent path) (after_line line) offset = ⊥

pub resolve_selector-IsSelected :
    (file : FileSnapshot) (selector : Selector) (operation_index : ℕ) (range : ByteRange)
    → IsIndexOf file.content file.line_index
    → resolve_selector file selector operation_index ≡ ok range
    → IsSelected file selector range
unfolding resolve_selector
resolve_selector-IsSelected file (Selector.bytes start end) operation_index range indexed h =
    ground arith
resolve_selector-IsSelected file (Selector.lines first last) operation_index range indexed h =
    let starts = line_start-offset_of file.content file.line_index indexed first in
    let ends = line_end-offset_of file.content file.line_index indexed last in
    elim (Bool-cases ((first == 0) || ltb last first)) [
      | inl bad ↦ ground arith
      | inr good ↦ elim (Option-cases (line_start file.line_index first)) [
        | inl no_start ↦ ground arith
        | inr (s, at_start) ↦ elim (Option-cases (line_end file.line_index last)) [
          | inl no_end ↦ ground arith
          | inr (e, at_end) ↦
              let s_is : s ≡ offset_of (first - 1) (split_lines file.content) = ground arith in
              let e_is : e ≡ offset_of last (split_lines file.content) = ground arith in
              let inside : last ≤ length (split_lines file.content) = ground arith in
              let range_start : range.start ≡ s = ground arith in
              let range_end : range.end ≡ e = ground arith in
              (ground arith, ground arith, inside, range_start ∙ s_is, range_end ∙ e_is)
        ]
      ]
    ]

pub resolve_anchor-IsAnchored :
    (state : SnapshotState) (anchor : Anchor) (operation_index offset : ℕ)
    → IsIndexed state
    → resolve_anchor state anchor operation_index ≡ ok offset
    → IsAnchored state anchor offset
unfolding resolve_anchor
resolve_anchor-IsAnchored (existing file) file_start operation_index offset indexed h = ground arith
resolve_anchor-IsAnchored (existing file) file_end operation_index offset indexed h = ground arith
resolve_anchor-IsAnchored (existing file) (byte_offset o) operation_index offset indexed h =
    ground arith
resolve_anchor-IsAnchored (existing file) (before_line line) operation_index offset indexed h =
    ground (arith, line_start-offset_of file.content file.line_index indexed line)
resolve_anchor-IsAnchored (existing file) (after_line line) operation_index offset indexed h =
    ground (arith, line_end-offset_of file.content file.line_index indexed line)
resolve_anchor-IsAnchored (absent path) file_start operation_index offset indexed h = ground arith
resolve_anchor-IsAnchored (absent path) file_end operation_index offset indexed h = ground arith
resolve_anchor-IsAnchored (absent path) (before_line line) operation_index offset indexed h = cc
resolve_anchor-IsAnchored (absent path) (after_line line) operation_index offset indexed h = cc
resolve_anchor-IsAnchored (absent path) (byte_offset zero) operation_index offset indexed h =
    ground arith
resolve_anchor-IsAnchored (absent path) (byte_offset (suc o)) operation_index offset indexed h = cc
