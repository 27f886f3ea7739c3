-- ===== src/Lines/Numbers.antt =====
-- Line numbers: `line_start` and `line_end` of an index cut a text at its lines.
use srcmv.Base.{
  ltb, ◌==◌, if◌then◌else◌, Bool-cases, length, get_elem?, take, drop, All, length-append, Bytes, ℕ,
  zero, suc, ◌+◌, ◌-◌, ◌≤◌, ◌<◌, ◌≡◌, refl, sym, ap, ◌∙◌, inl, inr, ◌||◌, none, some, List, [], ◌∷◌,
  ◌++◌, append-nil, append_assoc, arith,
}
use srcmv.Domain.Types.{LineIndex}
use srcmv.Lines.Index.{index_line_count, line_start, line_end}
use srcmv.Lines.Split.{
  ends_line, first_or, glue, split_lines, join, ends_from, join-split_lines, length-ends_from,
}

-- The index belongs to these bytes.
abbrev pub IsIndexOf : Bytes → LineIndex → Type 0
IsIndexOf content index = index.boundaries ≡ ends_from 0 (split_lines content)

-- The offset behind the first `k` lines.
abbrev pub offset_of : ℕ → List Bytes → ℕ
offset_of k lines = length (join (take k lines))

IsLine : Bytes → Type 0
IsLine line = 0 < length line

glue-IsLine : (b : ℕ) (lines : List Bytes) → All IsLine lines → All IsLine (glue b lines)
unfolding IsLine
glue-IsLine b [] h = (omega arith, tt)
glue-IsLine b (line ∷ lines) h = (omega arith, h.1)

-- No line is empty.
split_lines-IsLine : (content : Bytes) → All IsLine (split_lines content)
unfolding split_lines IsLine
split_lines-IsLine [] = tt
split_lines-IsLine (b ∷ rest) =
    let later = split_lines-IsLine rest in
    elim (Bool-cases (ends_line b (first_or rest none))) [
      | inl y ↦ rw y (omega arith, later)
      | inr n ↦ rw n (glue-IsLine b (split_lines rest) later)
    ]

get_elem?-ends_from :
    (offset k : ℕ) (lines : List Bytes)
    → get_elem? (ends_from offset lines) k
      ≡ (if ltb k (length lines) then some (offset + offset_of (suc k) lines) else none)
unfolding ends_from join
get_elem?-ends_from offset k [] = ground arith
get_elem?-ends_from offset zero (line ∷ lines) = ground (arith, append-nil line)
get_elem?-ends_from offset (suc k) (line ∷ lines) =
    get_elem?-ends_from (offset + length line) k lines
    ∙ ground (arith, length-append line (join (take (suc k) lines)))

offset_of-lt :
    (p r : ℕ) (lines : List Bytes)
    → All IsLine lines
    → p < r
    → r ≤ length lines
    → offset_of p lines < offset_of r lines
unfolding join IsLine
offset_of-lt p zero lines h k m = absurd (omega arith)
offset_of-lt p (suc r) [] h k m = absurd (omega arith)
offset_of-lt zero (suc r) (line ∷ lines) h k m =
    omega (arith, length-append line (join (take r lines)))
offset_of-lt (suc p) (suc r) (line ∷ lines) h k m = omega (
  arith,
  length-append line (join (take r lines)),
  length-append line (join (take p lines)),
  offset_of-lt p r lines h.1 (omega arith) (omega arith),
)

pub offset_of-le : (r : ℕ) (lines : List Bytes) → offset_of r lines ≤ length (join lines)
unfolding join
offset_of-le zero lines = omega arith
offset_of-le (suc r) [] = omega arith
offset_of-le (suc r) (line ∷ lines) = omega (
  arith,
  length-append line (join (take r lines)),
  length-append line (join lines),
  offset_of-le r lines,
)

take-length-append : (xs ys : Bytes) → take (length xs) (xs ++ ys) ≡ xs
take-length-append [] ys = refl
take-length-append (x ∷ xs) ys = ap (◌∷◌ x) (take-length-append xs ys)

take-nil : (n : ℕ) → take {A = Bytes} n [] ≡ []
take-nil zero = refl
take-nil (suc n) = refl

drop-length-append : (xs ys : Bytes) (n : ℕ) → drop (length xs + n) (xs ++ ys) ≡ drop n ys
drop-length-append [] ys n = let e : 0 + n ≡ n = omega arith in rw e
drop-length-append (x ∷ xs) ys n =
    let e : suc (length xs) + n ≡ suc (length xs + n) = omega arith in
    rw e (drop-length-append xs ys n)

join-take-drop :
    (r : ℕ) (lines : List Bytes) → join lines ≡ join (take r lines) ++ join (drop r lines)
unfolding join
join-take-drop zero lines = refl
join-take-drop (suc r) [] = refl
join-take-drop (suc r) (line ∷ lines) =
    ap (λ x. line ++ x) (join-take-drop r lines) ∙ sym (append_assoc line _ _)

-- The bytes between two line ends are the lines between them.
slice-offset_of :
    (p r : ℕ) (lines : List Bytes)
    → p ≤ r
    → take (offset_of r lines - offset_of p lines) (drop (offset_of p lines) (join lines))
      ≡ join (take (r - p) (drop p lines))
unfolding join
slice-offset_of zero r lines h =
    let whole : offset_of r lines - 0 ≡ offset_of r lines = omega arith in
    let all : r - 0 ≡ r = omega arith in
    rw (whole, all)
      (ap (take (offset_of r lines)) (join-take-drop r lines)
        ∙ take-length-append (join (take r lines)) (join (drop r lines)))
slice-offset_of (suc p) zero lines h = absurd (omega arith)
slice-offset_of (suc p) (suc r) [] h = sym (ap join (take-nil (suc r - suc p)))
slice-offset_of (suc p) (suc r) (line ∷ lines) h =
    let later = length-append line (join (take r lines)) in
    let sooner = length-append line (join (take p lines)) in
    let lines_between : suc r - suc p ≡ r - p = omega arith in
    let bytes_between : length (line ++ join (take r lines)) - length (line ++ join (take p lines))
        ≡ offset_of r lines - offset_of p lines =
      omega (arith, later, sooner) in
    rw
      (
        lines_between,
        bytes_between,
        sooner,
        drop-length-append line (join lines) (offset_of p lines),
      )
      (slice-offset_of p r lines (omega arith))

module _ (content : Bytes) (index : LineIndex) (indexed : IsIndexOf content index) where
  count-lines : index_line_count index ≡ length (split_lines content)
  unfolding index_line_count
  count-lines = ap length indexed ∙ length-ends_from 0 (split_lines content)

  get_elem?-boundaries :
      (k : ℕ)
      → get_elem? index.boundaries k ≡ (
          if ltb k (length (split_lines content))
          then some (offset_of (suc k) (split_lines content))
          else none)
  get_elem?-boundaries k =
      let zero_add : 0 + offset_of (suc k) (split_lines content)
          ≡ offset_of (suc k) (split_lines content) =
        omega arith in
      ap (λ ends. get_elem? ends k) indexed
      ∙ rw zero_add at (get_elem?-ends_from 0 k (split_lines content))

  pub line_start-offset_of :
      (line : ℕ)
      → line_start index line ≡ (
          if (line == 0) || ltb (length (split_lines content)) line
          then none
          else some (offset_of (line - 1) (split_lines content)))
  unfolding line_start join index_line_count
  line_start-offset_of zero = refl
  line_start-offset_of (suc zero) = ground (arith, count-lines)
  line_start-offset_of (suc (suc k)) =
      let back : suc (suc k) - 2 ≡ k = omega arith in
      let less : suc (suc k) - 1 ≡ suc k = omega arith in
      rw (back, less) (ground (arith, count-lines, get_elem?-boundaries k))

  pub line_end-offset_of :
      (line : ℕ)
      → line_end index line ≡ (
          if (line == 0) || ltb (length (split_lines content)) line
          then none
          else some (offset_of line (split_lines content)))
  unfolding line_end
  line_end-offset_of zero = refl
  line_end-offset_of (suc k) =
      let back : suc k - 1 ≡ k = omega arith in
      rw back (ground (arith, count-lines, get_elem?-boundaries k))

  -- For the index of a text and line numbers `a` to `b` that both resolve, the range from
  -- `line_start` of `a` to `line_end` of `b` holds exactly the lines `a` to `b`, is not empty and
  -- lies inside the text.
  pub lines_between :
      (a b s e : ℕ)
      → 0 < a
      → a ≤ b
      → line_start index a ≡ some s
      → line_end index b ≡ some e
      → (take (e - s) (drop s content)
          ≡ join (take (suc b - a) (drop (a - 1) (split_lines content))))
        × (s < e)
        × (e ≤ length content)
  lines_between a b s e h k at_start at_end =
      let lines = split_lines content in
      let s_is : s ≡ offset_of (a - 1) lines = ground (arith, line_start-offset_of a) in
      let e_is : e ≡ offset_of b lines = ground (arith, line_end-offset_of b) in
      let inside : b ≤ length lines = ground (arith, line_end-offset_of b) in
      let count : suc b - a ≡ b - (a - 1) = omega arith in
      let cut = slice-offset_of (a - 1) b lines (omega arith) in
      let order = offset_of-lt (a - 1) b lines (split_lines-IsLine content) (omega arith) inside in
      let fits = offset_of-le b lines in
      (
        rw (s_is, e_is, count) (rw (join-split_lines content) at cut),
        omega (arith, order),
        omega (arith, fits, ap length (join-split_lines content)),
      )
