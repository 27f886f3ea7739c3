-- ===== src/Lines/Counts.antt =====
-- Terminator counts of a text, with the byte behind it, and what the scanner counts.
use srcmv.Base.{
  if◌then◌else◌, Option-cases, length, last?, Bytes, ℕ, zero, suc, ◌+◌, ◌≤◌, ◌≡◌, refl, ap, ◌∙◌,
  inl, inr, ◌&&◌, Option, none, some, [], ◌∷◌, ◌++◌, arith,
}
use srcmv.Domain.Errors.{Resource, ok, u64_max, checked_add-eq-ok}
use srcmv.Lines.Scan.{carriage_return, line_feed, is_byte, next_terminator_end, count_terminators}
use srcmv.Lines.Split.{ends_line, first_or, terminator_ends}
use srcmv.Lines.Boundaries.{next_terminator_end-terminator_ends, next_terminator_end-Consumes}

-- The terminators of a text that has `c` behind it.
unfoldable pub term_count : Bytes → Option ℕ → ℕ
unfolding ends_line
term_count [] c = 0
term_count (b ∷ rest) c = (if ends_line b (first_or rest c) then 1 else 0) + term_count rest c

pub term_count-length :
    (offset : ℕ) (content : Bytes) (c : Option ℕ)
    → length (terminator_ends offset content c) ≡ term_count content c
unfolding term_count terminator_ends
term_count-length offset [] c = refl
term_count-length offset (b ∷ rest) c = ground (arith, term_count-length (offset + 1) rest c)

pub term_count-append :
    (xs ys : Bytes) (c : Option ℕ)
    → term_count (xs ++ ys) c ≡ term_count xs (first_or ys c) + term_count ys c
unfolding term_count
term_count-append [] ys c = omega arith
term_count-append (b ∷ []) ys c = omega arith
term_count-append (b ∷ d ∷ rest) ys c = omega (arith, term_count-append (d ∷ rest) ys c)

-- A final CR stops being a terminator of its own when an LF comes behind it.
pub term_count-behind :
    (b : ℕ) (rest : Bytes) (c : Option ℕ)
    → term_count (b ∷ rest) none
      ≡ term_count (b ∷ rest) c
        + (if is_byte (last? (b ∷ rest)) carriage_return && is_byte c line_feed then 1 else 0)
unfolding term_count
term_count-behind b [] none = ground arith
term_count-behind b [] (some c) = ground arith
term_count-behind b (d ∷ rest) c = ground (arith, term_count-behind d rest c)

pub term_count-le : (content : Bytes) (c : Option ℕ) → term_count content c ≤ length content
unfolding term_count
term_count-le [] c = omega arith
term_count-le (b ∷ rest) c = ground (arith, term_count-le rest c)

-- The loop of `try_from_bytes` counts every terminator, and does not overflow.
pub count_terminators-term_count :
    (fuel : ℕ) (content : Bytes) (offset count : ℕ)
    → length content ≤ fuel
    → count + length content ≤ u64_max
    → count_terminators fuel content offset count ≡ ok (count + term_count content none)
unfolding count_terminators term_count
count_terminators-term_count zero [] offset count h k = ap ok (omega arith)
count_terminators-term_count zero (b ∷ content) offset count h k = absurd (omega arith)
count_terminators-term_count (suc fuel) content offset count h k =
    let consumed = next_terminator_end-Consumes content offset in
    let scanned = ap length (next_terminator_end-terminator_ends content offset) in
    let whole = term_count-length offset content none in
    let few = term_count-le content none in
    elim (Option-cases (next_terminator_end content offset)) [
      | inl e ↦ rw (e, count_terminators) (ap ok (omega (arith, whole, rw e at scanned)))
      | inr ((boundary, rest), e) ↦
          let later = term_count-length boundary rest none in
          let one = rw e at scanned in
          let shorter = rw e at consumed in
          let next =
            count_terminators-term_count fuel rest boundary (count + 1) (omega (arith, shorter))
              (omega (arith, shorter)) in
          rw
            (
              e,
              count_terminators,
              checked_add-eq-ok count 1 Resource.line_count (omega (arith, few, whole, later, one)),
            )
            (next ∙ ap ok (omega (arith, whole, later, one)))
    ]
