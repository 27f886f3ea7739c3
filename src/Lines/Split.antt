-- ===== src/Lines/Split.antt =====
-- The logical lines of a byte string by a rule on two neighbouring bytes: a line ends behind an
-- LF, and behind a CR that no LF follows. Independent of the scanner.
use srcmv.Base.{
  ◌==◌, if◌then◌else◌, Bool-cases, length, Bytes, ℕ, suc, ◌+◌, ◌≡◌, refl, ap, ◌∙◌, ◌≢◌, inl, inr,
  Bool, false, not, ◌&&◌, ◌||◌, Option, none, some, List, [], ◌∷◌, ◌++◌, arith,
}
use srcmv.Lines.Scan.{carriage_return, line_feed, is_byte}

-- `c` is the byte behind `b`, if there is one.
unfoldable pub ends_line : ℕ → Option ℕ → Bool
ends_line b c = (b == line_feed) || ((b == carriage_return) && not (is_byte c line_feed))

-- The first byte of a text with `c` behind it.
abbrev pub first_or : Bytes → Option ℕ → Option ℕ
first_or [] c = c
first_or (b ∷ rest) c = some b

-- Adds a byte at the front of the first line.
abbrev pub glue : ℕ → List Bytes → List Bytes
glue b [] = (b ∷ []) ∷ []
glue b (line ∷ lines) = (b ∷ line) ∷ lines

unfoldable pub split_lines : Bytes → List Bytes
unfolding ends_line
split_lines [] = []
split_lines (b ∷ rest) =
    let later = split_lines rest in
    if ends_line b (first_or rest none) then (b ∷ []) ∷ later else glue b later

unfoldable pub join : List Bytes → Bytes
join [] = []
join (line ∷ lines) = line ++ join lines

-- The exclusive ends of consecutive pieces that start at an offset.
unfoldable pub ends_from : ℕ → List Bytes → List ℕ
ends_from offset [] = []
ends_from offset (line ∷ lines) = (offset + length line) ∷ ends_from (offset + length line) lines

-- The ends of the terminators of a text that starts at an offset and has `c` behind it.
unfoldable pub terminator_ends : ℕ → Bytes → Option ℕ → List ℕ
unfolding ends_line
terminator_ends offset [] c = []
terminator_ends offset (b ∷ rest) c =
    let later = terminator_ends (offset + 1) rest c in
    if ends_line b (first_or rest c) then (offset + 1) ∷ later else later

join-glue : (b : ℕ) (lines : List Bytes) → join (glue b lines) ≡ b ∷ join lines
unfolding join
join-glue b [] = refl
join-glue b (line ∷ lines) = refl

-- The lines, joined, are the text.
pub join-split_lines : (content : Bytes) → join (split_lines content) ≡ content
unfolding join split_lines
join-split_lines [] = refl
join-split_lines (b ∷ rest) = ground (arith, join-glue b (split_lines rest), join-split_lines rest)

-- Whether the text ends without a terminator.
unfoldable pub is_open : Bytes → Bool
unfolding ends_line
is_open [] = false
is_open (b ∷ []) = not (ends_line b none)
is_open (b ∷ c ∷ rest) = is_open (c ∷ rest)

ends_from-glue :
    (offset b : ℕ) (lines : List Bytes)
    → lines ≢ []
    → ends_from offset (glue b lines) ≡ ends_from (offset + 1) lines
unfolding ends_from
ends_from-glue offset b [] h = absurd (h refl)
ends_from-glue offset b (line ∷ lines) h =
    let e : offset + suc (length line) ≡ offset + 1 + length line = omega arith in rw e

split_lines-ne-nil : (c : ℕ) (rest : Bytes) → split_lines (c ∷ rest) ≢ []
unfolding split_lines
split_lines-ne-nil c [] = ground arith
split_lines-ne-nil c (d ∷ rest) = ground (arith, split_lines-ne-nil d rest)

-- The line ends are the terminator ends, and the end of the text if it lacks a terminator.
pub ends_from-split_lines :
    (offset : ℕ) (content : Bytes)
    → ends_from offset (split_lines content)
      ≡ terminator_ends offset content none
        ++ (if is_open content then (offset + length content) ∷ [] else [])
unfolding split_lines terminator_ends is_open ends_from
ends_from-split_lines offset [] = refl
ends_from-split_lines offset (b ∷ []) = ground arith
ends_from-split_lines offset (b ∷ c ∷ rest) =
    let later = ends_from-split_lines (offset + 1) (c ∷ rest) in
    let e : offset + suc (suc (length rest)) ≡ offset + 1 + suc (length rest) = omega arith in
    elim (Bool-cases (ends_line b (some c))) [
      | inl y ↦ rw (y, e) (ap (λ l. (offset + 1) ∷ l) later)
      | inr n ↦
          rw (n, e)
            (ends_from-glue offset b (split_lines (c ∷ rest)) (split_lines-ne-nil c rest) ∙ later)
    ]

pub length-ends_from :
    (offset : ℕ) (lines : List Bytes) → length (ends_from offset lines) ≡ length lines
unfolding ends_from
length-ends_from offset [] = refl
length-ends_from offset (line ∷ lines) = ap suc (length-ends_from (offset + length line) lines)
