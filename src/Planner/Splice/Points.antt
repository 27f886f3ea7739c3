-- ===== src/Planner/Splice/Points.antt =====
-- What the map of `build_segments` holds at each offset.
use srcmv.Base.{
  ◌==◌, if◌then◌else◌, ==_iff, any, All, ℕ, suc, ◌≤◌, ◌<◌, ◌≡◌, refl, ◌∙◌, Bool, ◌||◌, List, [],
  ◌∷◌, ◌++◌, append-nil, append_assoc, arith,
}
use srcmv.Base.Ordered.{get, entry, Below, IsSorted, get-entry, nat_key, bytes_key}
use srcmv.Base.Sorting.{sort_by}
use srcmv.Domain.Types.{ByteRange}
use srcmv.Planner.Edits.{
  Insertion, OutputEdits, PointEvents, no_events, Points, mark_start, mark_end, add_insertion,
  add_deletions, add_insertions, insertion_before, sort_points, collect_points,
}
use srcmv.Planner.Splice.Spec.{insertions_at}
use srcmv.Planner.Splice.Segments.{point_at, KeysIn}

entry-KeysIn :
    (k lo hi : ℕ) (f : PointEvents → PointEvents) (points : Points)
    → lo ≤ k
    → k ≤ hi
    → KeysIn lo hi points
    → KeysIn lo hi (entry k no_events f points)
unfolding entry
entry-KeysIn k lo hi f [] h g keys = (h, g, tt)
entry-KeysIn k lo hi f ((j, v) ∷ points) h g keys =
    ground (arith, entry-KeysIn k (suc j) hi f points)

KeysIn-Below : (k lo hi : ℕ) (points : Points) → k < lo → KeysIn lo hi points → Below k points
KeysIn-Below k lo hi [] h keys = tt
KeysIn-Below k lo hi ((j, v) ∷ points) h keys =
    (ground arith, KeysIn-Below k (suc j) hi points (ground arith) keys.2)

KeysIn-IsSorted : (lo hi : ℕ) (points : Points) → KeysIn lo hi points → IsSorted points
KeysIn-IsSorted lo hi [] keys = tt
KeysIn-IsSorted lo hi ((j, v) ∷ points) keys = (
  KeysIn-Below j (suc j) hi points (omega arith) keys.2,
  KeysIn-IsSorted (suc j) hi points keys.2,
)

point_at-entry :
    (q k hi : ℕ) (f : PointEvents → PointEvents) (points : Points)
    → KeysIn 0 hi points
    → point_at q (entry k no_events f points)
      ≡ (if k == q then f (point_at q points) else point_at q points)
point_at-entry q k hi f points keys =
    rw (get-entry q k no_events f points (KeysIn-IsSorted 0 hi points keys))
      (ground (arith, ==_iff k q))

abbrev pub starts_at : ℕ → List (ℕ × ByteRange) → Bool
starts_at q deletions = any (λ d. d.1.start == q) deletions

abbrev pub ends_at : ℕ → List (ℕ × ByteRange) → Bool
ends_at q deletions = any (λ d. d.1.end == q) deletions

-- Every deletion is a nonempty range inside the original.
abbrev pub DeletionsIn : ℕ → List (ℕ × ByteRange) → Type 0
DeletionsIn n = All (λ d. (d.1.start < d.1.end) × (d.1.end ≤ n))

abbrev pub InsertionsIn : ℕ → List (ℕ × Insertion) → Type 0
InsertionsIn n = All (λ i. i.0 ≤ n)

abbrev marked : PointEvents → Bool → Bool → PointEvents
marked point start end = record point {
  deletion_end = point.deletion_end || end;
  deletion_start = point.deletion_start || start;
}

add_deletions-KeysIn :
    (n : ℕ) (deletions : List (ℕ × ByteRange)) (points : Points)
    → DeletionsIn n deletions
    → KeysIn 0 n points
    → KeysIn 0 n (add_deletions deletions points)
unfolding add_deletions
add_deletions-KeysIn n [] points h keys = keys
add_deletions-KeysIn n ((i, range) ∷ deletions) points h keys =
    add_deletions-KeysIn n deletions _ h.1 (
      entry-KeysIn range.end 0 n mark_end _ (omega arith) (omega arith)
        (entry-KeysIn range.start 0 n mark_start points (omega arith) (omega arith) keys))

point_at-add_deletions :
    (q n : ℕ) (deletions : List (ℕ × ByteRange)) (points : Points)
    → DeletionsIn n deletions
    → KeysIn 0 n points
    → point_at q (add_deletions deletions points)
      ≡ marked (point_at q points) (starts_at q deletions) (ends_at q deletions)
unfolding add_deletions
point_at-add_deletions q n [] points h keys = ground arith
point_at-add_deletions q n ((i, range) ∷ deletions) points h keys =
    let started = entry-KeysIn range.start 0 n mark_start points (omega arith) (omega arith) keys in
    let both = entry-KeysIn range.end 0 n mark_end _ (omega arith) (omega arith) started in
    point_at-add_deletions q n deletions _ h.1 both
    ∙ rw
        (
          point_at-entry q range.end n mark_end _ started,
          point_at-entry q range.start n mark_start points keys,
        )
        (ground arith)

add_insertions-KeysIn :
    (n : ℕ) (insertions : List (ℕ × Insertion)) (points : Points)
    → InsertionsIn n insertions
    → KeysIn 0 n points
    → KeysIn 0 n (add_insertions insertions points)
unfolding add_insertions
add_insertions-KeysIn n [] points h keys = keys
add_insertions-KeysIn n ((o, insertion) ∷ insertions) points h keys =
    add_insertions-KeysIn n insertions _ h.1
      (entry-KeysIn o 0 n (add_insertion insertion) points (omega arith) h.0 keys)

abbrev with_insertions : PointEvents → List Insertion → PointEvents
with_insertions point more = record point { insertions = point.insertions ++ more }

point_at-add_insertions :
    (q n : ℕ) (insertions : List (ℕ × Insertion)) (points : Points)
    → InsertionsIn n insertions
    → KeysIn 0 n points
    → point_at q (add_insertions insertions points)
      ≡ with_insertions (point_at q points) (insertions_at q insertions)
unfolding add_insertions insertions_at
point_at-add_insertions q n [] points h keys = rw append-nil
point_at-add_insertions q n ((o, insertion) ∷ insertions) points h keys =
    point_at-add_insertions q n insertions _ h.1
      (entry-KeysIn o 0 n (add_insertion insertion) points (omega arith) h.0 keys)
    ∙ rw (point_at-entry q o n (add_insertion insertion) points keys) (
        ground (
          arith,
          append_assoc (point_at q points).insertions (insertion ∷ []) (insertions_at q insertions),
        ))

sort_points-KeysIn :
    (lo hi : ℕ) (points : Points) → KeysIn lo hi points → KeysIn lo hi (sort_points points)
unfolding sort_points
sort_points-KeysIn lo hi [] keys = tt
sort_points-KeysIn lo hi ((o, point) ∷ points) (a, b, keys) =
    (a, b, sort_points-KeysIn (suc o) hi points keys)

abbrev ordered : PointEvents → PointEvents
ordered point = record point { insertions = sort_by insertion_before point.insertions }

point_at-sort_points :
    (q : ℕ) (points : Points) → point_at q (sort_points points) ≡ ordered (point_at q points)
unfolding sort_points get sort_by
point_at-sort_points q [] = refl
point_at-sort_points q ((o, point) ∷ points) = ground (arith, point_at-sort_points q points)

pub collect_points-KeysIn :
    (n : ℕ) (edits : OutputEdits)
    → DeletionsIn n edits.deletions
    → InsertionsIn n edits.insertions
    → KeysIn 0 n (collect_points edits)
unfolding collect_points
collect_points-KeysIn n edits d i =
    sort_points-KeysIn 0 n _ (
      add_insertions-KeysIn n edits.insertions _ i (add_deletions-KeysIn n edits.deletions [] d tt))

-- The events at one offset: whether a deletion ends or starts there, and the insertions there
-- in request order.
pub point_at-collect_points :
    (q n : ℕ) (edits : OutputEdits)
    → DeletionsIn n edits.deletions
    → InsertionsIn n edits.insertions
    → point_at q (collect_points edits) ≡ record {
      deletion_end = ends_at q edits.deletions;
      insertions = sort_by insertion_before (insertions_at q edits.insertions);
      deletion_start = starts_at q edits.deletions;
    }
unfolding collect_points get
point_at-collect_points q n edits d i = rw (
  point_at-sort_points,
  point_at-add_insertions q n edits.insertions _ i (add_deletions-KeysIn n _ [] d tt),
  point_at-add_deletions q n edits.deletions [] d tt,
)
