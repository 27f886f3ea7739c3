-- ===== src/Lines/Boundaries.antt =====
-- `LineIndex::from_bytes_with_limits` finds the ends of the lines of `split_lines`, or reports
-- the first limit that the count of lines meets.
use srcmv.Base.{
  leb, ◌==◌, if◌then◌else◌, Bool-cases, Option-cases, length, last?, length-append, Bytes, ℕ, zero,
  suc, ◌+◌, ◌*◌, ◌/◌, ◌≤◌, ◌<◌, ◌≡◌, refl, sym, ap, ◌∙◌, ◌≢◌, inl, inr, Bool, true, not, ◌&&◌, ◌||◌,
  Option, none, some, List, [], ◌∷◌, ◌++◌, append-nil, append_assoc, arith,
}
use srcmv.Domain.Errors.{
  Resource, CoreError, resource_limit_exceeded, Result, ok, err, ◌>>=◌, >>=-assoc, >>=-congr,
  u64_max, enforce_limit,
}
use srcmv.Domain.Types.{LineIndex}
use srcmv.Lines.Scan.{
  carriage_return, line_feed, is_byte, next_terminator_end, push_line_boundary, push_terminators,
}
use srcmv.Lines.Index.{is_empty, from_bytes_with_limits}
use srcmv.Lines.Split.{
  ends_line, split_lines, ends_from, terminator_ends, is_open, ends_from-split_lines,
  length-ends_from,
}

abbrev pub found : Option (ℕ × Bytes) → List ℕ
found none = []
found (some (boundary, rest)) = boundary ∷ terminator_ends boundary rest none

-- The scanner finds the first terminator, whatever its kind.
pub next_terminator_end-terminator_ends :
    (content : Bytes) (offset : ℕ)
    → terminator_ends offset content none ≡ found (next_terminator_end content offset)
unfolding terminator_ends next_terminator_end
next_terminator_end-terminator_ends [] offset = refl
next_terminator_end-terminator_ends (b ∷ []) offset = ground arith
next_terminator_end-terminator_ends (b ∷ c ∷ rest) offset =
    let two : offset + 1 + 1 ≡ offset + 2 = omega arith in
    ground (arith, next_terminator_end-terminator_ends (c ∷ rest) (offset + 1), two)

abbrev pub Consumes : Bytes → ℕ → Option (ℕ × Bytes) → Type 0
Consumes content offset none = Unit
Consumes content offset (some (boundary, rest)) =
    (length rest < length content) × (boundary + length rest ≡ offset + length content)

Consumes-cons :
    (b : ℕ) (content : Bytes) (offset : ℕ) (r : Option (ℕ × Bytes))
    → Consumes content (offset + 1) r
    → Consumes (b ∷ content) offset r
Consumes-cons b content offset none h = tt
Consumes-cons b content offset (some (boundary, rest)) h = (omega arith, omega arith)

pub next_terminator_end-Consumes :
    (content : Bytes) (offset : ℕ) → Consumes content offset (next_terminator_end content offset)
unfolding next_terminator_end
next_terminator_end-Consumes [] offset = tt
next_terminator_end-Consumes (b ∷ []) offset = ground arith
next_terminator_end-Consumes (b ∷ c ∷ rest) offset =
    let later = next_terminator_end-Consumes (c ∷ rest) (offset + 1) in
    elim (Bool-cases ((b == carriage_return) && (c == line_feed))) [
      | inl crlf ↦ rw crlf (omega arith, omega arith)
      | inr apart ↦ elim (Bool-cases ((b == carriage_return) || (b == line_feed))) [
        | inl single ↦ rw (apart, single) (omega arith, omega arith)
        | inr plain ↦ rw (apart, plain) (Consumes-cons b (c ∷ rest) offset _ later)
      ]
    ]

-- The pushes of a list of boundaries, in turn.
push_all : List ℕ → List ℕ → ℕ → ℕ → Result (List ℕ)
push_all boundaries [] maximum_lines maximum_memory_bytes = ok boundaries
push_all boundaries (e ∷ ends) maximum_lines maximum_memory_bytes = do
  grown ← push_line_boundary boundaries e maximum_lines maximum_memory_bytes
  push_all grown ends maximum_lines maximum_memory_bytes

shorter :
    (content : Bytes) (offset boundary : ℕ) (rest : Bytes) (fuel : ℕ)
    → length content ≤ suc fuel
    → Consumes content offset (some (boundary, rest))
    → length rest ≤ fuel
shorter content offset boundary rest fuel h c = omega arith

push_terminators-push_all :
    (fuel : ℕ) (content : Bytes) (offset : ℕ) (boundaries : List ℕ) (ml mm : ℕ)
    → length content ≤ fuel
    → push_terminators fuel content offset boundaries ml mm
      ≡ push_all boundaries (terminator_ends offset content none) ml mm
unfolding push_terminators push_all terminator_ends
push_terminators-push_all zero [] offset boundaries ml mm h = refl
push_terminators-push_all zero (b ∷ content) offset boundaries ml mm h = absurd (omega arith)
push_terminators-push_all (suc fuel) content offset boundaries ml mm h =
    let consumed = next_terminator_end-Consumes content offset in
    rw (next_terminator_end-terminator_ends content offset)
      (elim (Option-cases (next_terminator_end content offset)) [
        | inl e ↦ rw (e, push_terminators)
        | inr ((boundary, rest), e) ↦
            rw (e, push_terminators)
              (>>=-congr (push_line_boundary boundaries boundary ml mm) _ _ (λ grown.
                push_terminators-push_all fuel rest boundary grown ml mm
                  (shorter content offset boundary rest fuel h (rw e at consumed))))
      ])

-- The error of the first push that meets a limit.
abbrev pub limit_error : ℕ → ℕ → CoreError
limit_error ml mm =
    if leb ml (mm / 8)
    then resource_limit_exceeded Resource.line_count (ml + 1) ml
    else resource_limit_exceeded Resource.line_index_memory ((mm / 8 + 1) * 8) mm

abbrev pub within_limits : ℕ → ℕ → ℕ → Bool
within_limits count ml mm = leb count ml && leb (count * 8) mm

push_all-within_limits :
    (boundaries ends : List ℕ) (ml mm : ℕ)
    → within_limits (length boundaries) ml mm ≡ true
    → (length boundaries + length ends) * 8 ≤ u64_max
    → push_all boundaries ends ml mm ≡ (
        if within_limits (length boundaries + length ends) ml mm
        then ok (boundaries ++ ends)
        else err (limit_error ml mm))
unfolding push_all push_line_boundary enforce_limit
push_all-within_limits boundaries [] ml mm w h = ground (arith, append-nil boundaries)
push_all-within_limits boundaries (e ∷ ends) ml mm w h = ground (
  arith,
  push_all-within_limits (boundaries ++ (e ∷ [])) ends ml mm,
  length-append boundaries (e ∷ []),
  append_assoc boundaries (e ∷ []) ends,
)

-- The ends fit the text, so their count is at most its length.
terminator_ends-length :
    (offset : ℕ) (content : Bytes)
    → length (terminator_ends offset content none) + (if is_open content then 1 else 0)
      ≤ length content
unfolding terminator_ends is_open
terminator_ends-length offset [] = omega arith
terminator_ends-length offset (b ∷ []) = ground arith
terminator_ends-length offset (b ∷ c ∷ rest) =
    ground (arith, terminator_ends-length (offset + 1) (c ∷ rest))

is_byte-last_cons :
    (x : ℕ) (xs : List ℕ) (n : ℕ) → x ≢ n → is_byte (last? (x ∷ xs)) n ≡ is_byte (last? xs) n
is_byte-last_cons x [] n h = ground arith
is_byte-last_cons x (y ∷ ys) n h = refl

-- The last boundary is the end of the text unless the text lacks a final terminator.
pub last-terminator_ends :
    (offset b : ℕ) (content : Bytes)
    → is_byte (last? (terminator_ends offset (b ∷ content) none)) (offset + suc (length content))
      ≡ not (is_open (b ∷ content))
unfolding terminator_ends is_open
last-terminator_ends offset b [] = ground arith
last-terminator_ends offset b (c ∷ rest) =
    let later = last-terminator_ends (offset + 1) c rest in
    let e : offset + suc (suc (length rest)) ≡ offset + 1 + suc (length rest) = omega arith in
    elim (Bool-cases (ends_line b (some c))) [
      | inl y ↦
          rw (y, e)
            (is_byte-last_cons (offset + 1) (terminator_ends (offset + 1) (c ∷ rest) none)
                (offset + 1 + suc (length rest)) (omega arith)
              ∙ later)
      | inr n ↦ rw (n, e) later
    ]

push_all-append :
    (boundaries xs ys : List ℕ) (ml mm : ℕ)
    → push_all boundaries (xs ++ ys) ml mm
      ≡ (push_all boundaries xs ml mm >>= λ grown. push_all grown ys ml mm)
unfolding push_all
push_all-append boundaries [] ys ml mm = refl
push_all-append boundaries (x ∷ xs) ys ml mm =
    >>=-congr (push_line_boundary boundaries x ml mm) _ _
      (λ grown. push_all-append grown xs ys ml mm)
    ∙ sym (>>=-assoc (push_line_boundary boundaries x ml mm) _ _)

pub length-split_lines :
    (content : Bytes)
    → length (split_lines content)
      ≡ length (terminator_ends 0 content none) + (if is_open content then 1 else 0)
length-split_lines content = elim (Bool-cases (is_open content)) [
  | inl open_end ↦ rw open_end (
      sym (length-ends_from 0 (split_lines content))
      ∙ ap length (ends_from-split_lines 0 content)
      ∙ rw open_end (length-append (terminator_ends 0 content none) _))
  | inr closed ↦ rw closed (
      sym (length-ends_from 0 (split_lines content))
      ∙ ap length (ends_from-split_lines 0 content)
      ∙ rw (closed, append-nil) (omega arith))
]

-- What follows the loop of `from_bytes_with_limits`.
abbrev close : Bytes → ℕ → ℕ → List ℕ → Result LineIndex
close content ml mm boundaries = do
  closed ←
      if not (is_byte (last? boundaries) (length content)) && not (is_empty content)
      then push_line_boundary boundaries (length content) ml mm
      else ok boundaries
  ok (record { boundaries = closed })

close-terminator_ends :
    (b : ℕ) (rest : Bytes) (ml mm : ℕ)
    → let content = b ∷ rest in
      close content ml mm (terminator_ends 0 content none) ≡ (
        push_all
          (terminator_ends 0 content none)
          (if is_open content then length content ∷ [] else [])
          ml
          mm
        >>= λ closed. ok (record { boundaries = closed }))
unfolding push_all
close-terminator_ends b rest ml mm =
    let zero_add : 0 + suc (length rest) ≡ suc (length rest) = omega arith in
    let at_end = rw zero_add at (last-terminator_ends 0 b rest) in
    elim (Bool-cases (is_open (b ∷ rest))) [
      | inl opened ↦
          rw (at_end, opened)
            (sym (
              >>=-assoc
                (push_line_boundary (terminator_ends 0 (b ∷ rest) none) (suc (length rest)) ml mm) _
                _))
      | inr closed ↦ rw (at_end, closed)
    ]

abbrev all_ends : Bytes → List ℕ
all_ends content =
    terminator_ends 0 content none ++ (if is_open content then length content ∷ [] else [])

from_bytes_with_limits-all_ends :
    (b : ℕ) (rest : Bytes) (ml mm : ℕ)
    → let content = b ∷ rest in
      length content * 8 ≤ u64_max
      → from_bytes_with_limits content ml mm
        ≡ (push_all [] (all_ends content) ml mm >>= λ closed. ok (record { boundaries = closed }))
unfolding from_bytes_with_limits
from_bytes_with_limits-all_ends b rest ml mm h =
    let content = b ∷ rest in
    let te = terminator_ends 0 content none in
    let count = terminator_ends-length 0 content in
    let spec = push_all-within_limits [] te ml mm (ground arith) (omega arith) in
    rw
      (
        push_terminators-push_all (length content) content 0 [] ml mm (omega arith),
        push_all-append [] te (if is_open content then length content ∷ [] else []) ml mm,
        spec,
      )
      (elim (Bool-cases (within_limits (0 + length te) ml mm)) [
        | inl within ↦ rw within (close-terminator_ends b rest ml mm)
        | inr beyond ↦ rw beyond
      ])

all_ends-ends_from : (content : Bytes) → all_ends content ≡ ends_from 0 (split_lines content)
all_ends-ends_from content =
    let zero_add : 0 + length content ≡ length content = omega arith in
    sym (rw zero_add at (ends_from-split_lines 0 content))

-- For content whose index fits in `u64`, the line index holds the ends of the lines that the
-- content splits into, in order, if the limits allow as many lines and as much memory, and
-- otherwise the error of the first boundary over a limit is returned.
pub from_bytes_with_limits-split_lines :
    (content : Bytes) (ml mm : ℕ)
    → length content * 8 ≤ u64_max
    → from_bytes_with_limits content ml mm ≡ (
        if within_limits (length (split_lines content)) ml mm
        then ok (record { boundaries = ends_from 0 (split_lines content) })
        else err (limit_error ml mm))
unfolding from_bytes_with_limits
from_bytes_with_limits-split_lines [] ml mm h =
    unfold push_terminators split_lines ends_from in ground arith
from_bytes_with_limits-split_lines (b ∷ rest) ml mm h =
    let content = b ∷ rest in
    let lengths = length-ends_from 0 (split_lines content) in
    let bound = terminator_ends-length 0 content in
    let total = length-split_lines content in
    let same : 0 + length (ends_from 0 (split_lines content)) ≡ length (split_lines content) =
      omega (arith, lengths) in
    let spec =
      push_all-within_limits [] (ends_from 0 (split_lines content)) ml mm (ground arith)
        (omega (arith, lengths, bound, total)) in
    from_bytes_with_limits-all_ends b rest ml mm h
    ∙ rw (all_ends-ends_from content, spec, same)
        (elim (Bool-cases (within_limits (length (split_lines content)) ml mm)) [
          | inl within ↦ rw within
          | inr beyond ↦ rw beyond
        ])
