-- ===== src/Lines/Ranges.antt =====
-- `LineIndex::metrics_for_range` gives the metrics of the selected bytes on their own.
use srcmv.Base.{
  leb, ◌==◌, if◌then◌else◌, Bool-cases, length, get_elem?, take, drop, last?, length-take,
  length-drop, drop-drop, Bytes, take-add, get_elem?-drop, last?-take, first?-take, last?-append,
  last?-get_elem?, ℕ, zero, suc, ◌+◌, ◌-◌, ◌≤◌, ◌<◌, ◌≡◌, refl, sym, ap, ◌∙◌, inl, inr, true, ◌&&◌,
  Option, none, some, List, [], ◌∷◌, ◌++◌, append-nil, arith,
}
use srcmv.Domain.Errors.{Resource, ok, u64_max, checked_add-eq-ok}
use srcmv.Domain.Types.{LineIndex, ByteRange}
use srcmv.Lines.Scan.{carriage_return, line_feed, is_byte}
use srcmv.Lines.Index.{indexed_byte_length, partition_point}
use srcmv.Lines.Metrics.{try_from_bytes, is_unterminated, metrics_for_range}
use srcmv.Lines.Split.{ends_line, first_or, terminator_ends, is_open, ends_from-split_lines}
use srcmv.Lines.Boundaries.{last-terminator_ends}
use srcmv.Lines.Numbers.{IsIndexOf}
use srcmv.Lines.Counts.{term_count, term_count-append, term_count-behind, term_count-le}
use srcmv.Lines.Append.{metrics_of, try_from_bytes-metrics_of, is_open-last}

partition_point-early :
    (offset : ℕ) (content : Bytes) (c : Option ℕ) (limit : ℕ) (tail : List ℕ)
    → limit ≤ offset
    → partition_point tail limit ≡ 0
    → partition_point (terminator_ends offset content c ++ tail) limit ≡ 0
unfolding terminator_ends partition_point
partition_point-early offset [] c limit tail h t = t
partition_point-early offset (b ∷ content) c limit tail h t =
    elim (Bool-cases (ends_line b (first_or content c))) [
      | inl y ↦ rw y (ground arith)
      | inr n ↦ rw n (partition_point-early (offset + 1) content c limit tail (omega arith) t)
    ]

first_or-take-drop :
    (d : ℕ) (content : Bytes) (c : Option ℕ)
    → first_or (take d content) (first_or (drop d content) c) ≡ first_or content c
first_or-take-drop zero content c = refl
first_or-take-drop (suc d) [] c = refl
first_or-take-drop (suc d) (b ∷ content) c = refl

-- The boundaries up to an offset are the terminators in front of it, and the closing boundary
-- at the end of the text.
partition_point-term_count :
    (offset d : ℕ) (content : Bytes) (c : Option ℕ) (tail : List ℕ)
    → d ≤ length content
    → (d < length content → partition_point tail (offset + d) ≡ 0)
    → partition_point (terminator_ends offset content c ++ tail) (offset + d)
      ≡ term_count (take d content) (first_or (drop d content) c)
        + (if d == length content then partition_point tail (offset + d) else 0)
unfolding terminator_ends term_count partition_point
partition_point-term_count offset zero [] c tail h t = omega arith
partition_point-term_count offset (suc d) [] c tail h t = absurd (omega arith)
partition_point-term_count offset zero (b ∷ content) c tail h t =
    partition_point-early offset (b ∷ content) c (offset + 0) tail (omega arith) (t (omega arith))
    ∙ ground arith
partition_point-term_count offset (suc d) (b ∷ content) c tail h t =
    let e : offset + suc d ≡ offset + 1 + d = omega arith in
    let later =
      partition_point-term_count (offset + 1) d content c tail (omega arith)
        (λ k. rw e at (t (omega arith))) in
    let reached : leb (offset + 1) (offset + 1 + d) ≡ true = ground arith in
    rw (e, first_or-take-drop d content c)
      (elim (Bool-cases (ends_line b (first_or content c))) [
        | inl y ↦ rw (y, reached) (ground (arith, later))
        | inr n ↦ rw n (ground (arith, later))
      ])

first_or-none : (content : Bytes) → first_or content none ≡ get_elem? content 0
first_or-none [] = refl
first_or-none (b ∷ content) = refl

first_or-end :
    (n : ℕ) (content : Bytes) → length content ≤ n → first_or (drop n content) none ≡ none
first_or-end zero [] h = refl
first_or-end (suc n) [] h = refl
first_or-end zero (b ∷ content) h = absurd (omega arith)
first_or-end (suc n) (b ∷ content) h = first_or-end n content (omega arith)

abbrev closing : Bytes → List ℕ
closing content = if is_open content then length content ∷ [] else []

partition_point-closing :
    (content : Bytes) (limit : ℕ)
    → limit ≤ length content
    → partition_point (closing content) limit
      ≡ (if (limit == length content) && is_open content then 1 else 0)
unfolding partition_point
partition_point-closing content limit h = ground arith

term_count-nonempty :
    (content : Bytes) (c : Option ℕ)
    → 0 < length content
    → term_count content none
      ≡ term_count content c
        + (if is_byte (last? content) carriage_return && is_byte c line_feed then 1 else 0)
term_count-nonempty [] c h = absurd (omega arith)
term_count-nonempty (b ∷ rest) c h = term_count-behind b rest c

is_open-get_elem? :
    (content : Bytes) (n : ℕ)
    → length content ≡ suc n
    → is_open content ≡ is_unterminated (get_elem? content n)
is_open-get_elem? [] n h = absurd (omega arith)
is_open-get_elem? (b ∷ rest) n h =
    sym (is_open-last b rest) ∙ ap is_unterminated (last?-get_elem? n (b ∷ rest) h)

module _ (content : Bytes) (index : LineIndex) (indexed : IsIndexOf content index) where
  boundaries-split : index.boundaries ≡ terminator_ends 0 content none ++ closing content
  boundaries-split =
      let zero_add : 0 + length content ≡ length content = omega arith in
      indexed ∙ rw zero_add at (ends_from-split_lines 0 content)

  indexed_byte_length-length : indexed_byte_length index ≡ length content
  unfolding indexed_byte_length
  indexed_byte_length-length = rw boundaries-split (go content)
    where
      go :
          (content : Bytes)
          → (elim (last? (terminator_ends 0 content none ++ closing content)) as (λ _. ℕ) [
            | none ↦ 0
            | some n ↦ n
          ])
            ≡ length content
      go [] = unfold terminator_ends is_open in refl
      go (b ∷ rest) =
          let zero_add : 0 + suc (length rest) ≡ suc (length rest) = omega arith in
          let at_end = rw zero_add at (last-terminator_ends 0 b rest) in
          elim (Bool-cases (is_open (b ∷ rest))) [
            | inl opened ↦
                rw (opened, last?-append (terminator_ends 0 (b ∷ rest) none) (suc (length rest)))
            | inr closed ↦ rw (closed, append-nil) (ground (arith, at_end))
          ]

  partition_point-boundaries :
      (limit : ℕ)
      → limit ≤ length content
      → partition_point index.boundaries limit
        ≡ term_count (take limit content) (first_or (drop limit content) none)
          + (if (limit == length content) && is_open content then 1 else 0)
  partition_point-boundaries limit h =
      let zero_add : 0 + limit ≡ limit = omega arith in
      let shut = partition_point-closing content limit h in
      let counted = rw zero_add at (
        partition_point-term_count 0 limit content none (closing content) h
          (λ k. rw zero_add (ground (arith, shut)))) in
      rw boundaries-split (counted ∙ ground (arith, shut))

  -- The boundaries between the two ends of a range: the terminators of its bytes in their
  -- context, and the closing boundary if the range ends with an unterminated line.
  found_between :
      (s d : ℕ)
      → s + suc d ≤ length content
      → partition_point index.boundaries (s + suc d) - partition_point index.boundaries s
        ≡ term_count (take (suc d) (drop s content)) (first_or (drop (s + suc d) content) none)
          + (if (s + suc d == length content) && is_unterminated (get_elem? content (s + d))
              then 1
              else 0)
  found_between s d h =
      let e = s + suc d in
      let selected = take (suc d) (drop s content) in
      let context = first_or (drop e content) none in
      let at_start = partition_point-boundaries s (omega arith) in
      let at_end = partition_point-boundaries e h in
      let sum = term_count-append (take s content) selected context in
      let seen =
        rw (drop-drop (suc d) s content) at (first_or-take-drop (suc d) (drop s content) none) in
      let joined = rw (← take-add s (suc d) content, seen) at sum in
      ground (arith, at_start, at_end, joined, is_open-get_elem? content (s + d))

  -- The metrics of a range that starts at `s` and holds `suc d` bytes.
  metrics_for_range-suc :
      (s d : ℕ)
      → s + suc d ≤ length content
      → length content ≤ u64_max
      → metrics_for_range index content (record { start = s; end = s + suc d })
        ≡ ok (metrics_of (take (suc d) (drop s content)))
  unfolding metrics_for_range
  metrics_for_range-suc s d h small =
      let e = s + suc d in
      let selected = take (suc d) (drop s content) in
      let context = first_or (drop e content) none in
      let last_index : e - 1 ≡ s + d = omega arith in
      let width : e - s ≡ suc d = omega arith in
      let dropped = length-drop s content in
      let lengths = length-take (suc d) (drop s content) in
      let first = first?-take d (drop s content) ∙ get_elem?-drop s 0 content in
      let last =
        last?-take d (drop s content) (omega (arith, dropped)) ∙ get_elem?-drop s d content in
      let next = first_or-none (drop e content) ∙ get_elem?-drop e 0 content in
      let at_zero : s + 0 ≡ s = omega arith in
      let at_zero' : e + 0 ≡ e = omega arith in
      let nonempty : length selected ≡ suc d = omega (arith, lengths, dropped) in
      rw
        (
          indexed_byte_length-length,
          last_index,
          width,
          found_between s d h,
          sym (rw at_zero at first),
          sym last,
          sym (rw at_zero' at next),
        )
        (ground (
          arith,
          nonempty,
          term_count-nonempty selected context (omega (arith, nonempty)),
          term_count-le selected none,
          first_or-end e content,
          checked_add-eq-ok (term_count selected context) 1 Resource.line_count,
        ))

  metrics_for_range-empty :
      (s e : ℕ)
      → s ≡ e
      → e ≤ length content
      → metrics_for_range index content (record { start = s; end = e })
        ≡ try_from_bytes (take (e - s) (drop s content))
  unfolding metrics_for_range try_from_bytes
  metrics_for_range-empty s e same inside =
      let nothing : e - s ≡ 0 = omega arith in
      rw (indexed_byte_length-length, nothing) (ground arith)

  metrics_for_range-wide :
      (s e d : ℕ)
      → e ≡ s + suc d
      → e ≤ length content
      → length content ≤ u64_max
      → metrics_for_range index content (record { start = s; end = e })
        ≡ try_from_bytes (take (e - s) (drop s content))
  metrics_for_range-wide s e d wide inside small =
      let width : e - s ≡ suc d = omega arith in
      let lengths = length-take (suc d) (drop s content) in
      rw
        (
          width,
          try_from_bytes-metrics_of (take (suc d) (drop s content)) (omega (arith, lengths)),
          wide,
        )
        (metrics_for_range-suc s d (omega arith) small)

-- For a range inside a text of at most `u64::MAX` bytes and the index of that text, the metrics
-- read off the index are those of a scan of the selected bytes alone, also where the range cuts a
-- CRLF.
pub metrics_for_range-try_from_bytes :
    (content : Bytes) (index : LineIndex) (range : ByteRange)
    → IsIndexOf content index
    → range.start ≤ range.end
    → range.end ≤ length content
    → length content ≤ u64_max
    → metrics_for_range index content range
      ≡ try_from_bytes (take (range.end - range.start) (drop range.start content))
metrics_for_range-try_from_bytes content index range indexed order inside small =
    elim (Bool-cases (range.start == range.end)) [
      | inl same ↦
          metrics_for_range-empty content index indexed range.start range.end (ground arith) inside
      | inr apart ↦
          metrics_for_range-wide content index indexed range.start range.end
            (range.end - range.start - 1) (ground arith) inside small
    ]
