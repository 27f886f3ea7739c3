-- ===== src/Planner/Splice/Coverage.antt =====
-- Deletions that passed the conflict check cover each byte at most once, and the flag of the
-- loop tells whether a byte is covered.
use srcmv.Base.{
  ltb, ◌==◌, if◌then◌else◌, Bool-cases, ℕ, suc, ◌+◌, ◌≤◌, ◌<◌, ◌≡◌, refl, inl, inr, true, false,
  List, [], ◌∷◌, arith,
}
use srcmv.Base.Sorting.{insert_sorted, sort_by}
use srcmv.Domain.Errors.{ok, >>=-eq-ok}
use srcmv.Domain.Types.{ByteRange}
use srcmv.Planner.Edits.{OutputEdits, deletion_before, check_overlaps, validate_edit_conflicts}
use srcmv.Planner.Splice.Spec.{cover_count, is_covered}
use srcmv.Planner.Splice.Points.{starts_at, ends_at, DeletionsIn}

abbrev starts_count : ℕ → List (ℕ × ByteRange) → ℕ
starts_count q [] = 0
starts_count q ((_, range) ∷ rest) = (if range.start == q then 1 else 0) + starts_count q rest

abbrev ends_count : ℕ → List (ℕ × ByteRange) → ℕ
ends_count q [] = 0
ends_count q ((_, range) ∷ rest) = (if range.end == q then 1 else 0) + ends_count q rest

starts_at-count :
    (q : ℕ) (deletions : List (ℕ × ByteRange))
    → starts_at q deletions ≡ ltb 0 (starts_count q deletions)
starts_at-count q [] = refl
starts_at-count q ((i, range) ∷ rest) = ground (arith, starts_at-count q rest)

ends_at-count :
    (q : ℕ) (deletions : List (ℕ × ByteRange))
    → ends_at q deletions ≡ ltb 0 (ends_count q deletions)
ends_at-count q [] = refl
ends_at-count q ((i, range) ∷ rest) = ground (arith, ends_at-count q rest)

-- From one byte to the next, coverage changes by the deletions that start and end between.
cover_count-suc :
    (q n : ℕ) (deletions : List (ℕ × ByteRange))
    → DeletionsIn n deletions
    → cover_count (suc q) deletions + ends_count (suc q) deletions
      ≡ cover_count q deletions + starts_count (suc q) deletions
unfolding cover_count
cover_count-suc q n [] h = refl
cover_count-suc q n ((i, range) ∷ rest) h = ground (arith, cover_count-suc q n rest h.1)

ends_count-le :
    (q n : ℕ) (deletions : List (ℕ × ByteRange))
    → DeletionsIn n deletions
    → ends_count (suc q) deletions ≤ cover_count q deletions
unfolding cover_count
ends_count-le q n [] h = omega arith
ends_count-le q n ((i, range) ∷ rest) h = ground (arith, ends_count-le q n rest h.1)

cover_count-zero :
    (n : ℕ) (deletions : List (ℕ × ByteRange))
    → DeletionsIn n deletions
    → cover_count 0 deletions ≡ starts_count 0 deletions
unfolding cover_count
cover_count-zero n [] h = refl
cover_count-zero n ((i, range) ∷ rest) h = ground (arith, cover_count-zero n rest h.1)

ends_count-zero :
    (n : ℕ) (deletions : List (ℕ × ByteRange))
    → DeletionsIn n deletions
    → ends_count 0 deletions ≡ 0
ends_count-zero n [] h = refl
ends_count-zero n ((i, range) ∷ rest) h = ground (arith, ends_count-zero n rest h.1)

-- No byte is deleted twice.
abbrev pub IsDisjoint : List (ℕ × ByteRange) → Type 0
IsDisjoint deletions = (q : ℕ) → cover_count q deletions ≤ 1

pub is_covered-suc :
    (q n : ℕ) (deletions : List (ℕ × ByteRange))
    → DeletionsIn n deletions
    → IsDisjoint deletions
    → is_covered (suc q) deletions ≡ (
        if starts_at (suc q) deletions
        then true
        else if ends_at (suc q) deletions
        then false
        else is_covered q deletions)
is_covered-suc q n deletions h once =
    rw (starts_at-count (suc q) deletions, ends_at-count (suc q) deletions)
      (ground (arith, cover_count-suc q n deletions h, ends_count-le q n deletions h, once q))

pub is_covered-zero :
    (n : ℕ) (deletions : List (ℕ × ByteRange))
    → DeletionsIn n deletions
    → is_covered 0 deletions
      ≡ (if starts_at 0 deletions then true else if ends_at 0 deletions then false else false)
is_covered-zero n deletions h =
    rw (starts_at-count 0 deletions, ends_at-count 0 deletions)
      (ground (arith, cover_count-zero n deletions h))

cover_count-insert_sorted :
    (q : ℕ) (d : ℕ × ByteRange) (deletions : List (ℕ × ByteRange))
    → cover_count q (insert_sorted deletion_before d deletions) ≡ cover_count q (d ∷ deletions)
unfolding cover_count insert_sorted
cover_count-insert_sorted q d [] = refl
cover_count-insert_sorted q d (e ∷ rest) = elim (Bool-cases (deletion_before e d)) [
  | inl first ↦ rw first (omega (arith, cover_count-insert_sorted q d rest))
  | inr behind ↦ rw behind
]

cover_count-sort_by :
    (q : ℕ) (deletions : List (ℕ × ByteRange))
    → cover_count q (sort_by deletion_before deletions) ≡ cover_count q deletions
unfolding sort_by cover_count
cover_count-sort_by q [] = refl
cover_count-sort_by q (d ∷ rest) = omega (
  arith,
  cover_count-insert_sorted q d (sort_by deletion_before rest),
  cover_count-sort_by q rest,
)

DeletionsIn-insert_sorted :
    (n : ℕ) (d : ℕ × ByteRange) (deletions : List (ℕ × ByteRange))
    → DeletionsIn n (d ∷ deletions)
    → DeletionsIn n (insert_sorted deletion_before d deletions)
unfolding insert_sorted
DeletionsIn-insert_sorted n d [] h = h
DeletionsIn-insert_sorted n d (e ∷ rest) (hd, (he, h)) = elim (Bool-cases (deletion_before e d)) [
  | inl first ↦ rw first (he, DeletionsIn-insert_sorted n d rest (hd, h))
  | inr behind ↦ rw behind (hd, (he, h))
]

DeletionsIn-sort_by :
    (n : ℕ) (deletions : List (ℕ × ByteRange))
    → DeletionsIn n deletions
    → DeletionsIn n (sort_by deletion_before deletions)
unfolding sort_by
DeletionsIn-sort_by n [] h = tt
DeletionsIn-sort_by n (d ∷ rest) (hd, h) =
    DeletionsIn-insert_sorted n d (sort_by deletion_before rest) (hd, DeletionsIn-sort_by n rest h)

check_overlaps-cover_count :
    (q n : ℕ) (d : ℕ × ByteRange) (rest : List (ℕ × ByteRange))
    → DeletionsIn n rest
    → check_overlaps (d ∷ rest) ≡ ok tt
    → q < d.1.end
    → cover_count q rest ≡ 0
unfolding check_overlaps cover_count
check_overlaps-cover_count q n d [] h e k = refl
check_overlaps-cover_count q n d (f ∷ rest) h e k =
    ground (arith, check_overlaps-cover_count q n f rest h.1)

check_overlaps-le_one :
    (q n : ℕ) (deletions : List (ℕ × ByteRange))
    → DeletionsIn n deletions
    → check_overlaps deletions ≡ ok tt
    → cover_count q deletions ≤ 1
unfolding check_overlaps cover_count
check_overlaps-le_one q n [] h e = omega arith
check_overlaps-le_one q n (d ∷ []) h e = ground arith
check_overlaps-le_one q n (d ∷ f ∷ rest) h e = ground (
  arith,
  check_overlaps-le_one q n (f ∷ rest) h.1,
  check_overlaps-cover_count q n d (f ∷ rest) h.1,
)

pub validate_edit_conflicts-IsDisjoint :
    (n : ℕ) (edits : OutputEdits)
    → DeletionsIn n edits.deletions
    → validate_edit_conflicts edits ≡ ok tt
    → IsDisjoint edits.deletions
unfolding validate_edit_conflicts
validate_edit_conflicts-IsDisjoint n edits h e q =
    let (_, ran, _) = >>=-eq-ok (check_overlaps (sort_by deletion_before edits.deletions)) _ e in
    rw (← cover_count-sort_by q edits.deletions)
      (check_overlaps-le_one q n _ (DeletionsIn-sort_by n edits.deletions h) ran)
