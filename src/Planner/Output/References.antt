-- ===== src/Planner/Output/References.antt =====
-- What the segments of an output can refer to: ranges of its original, and payloads of its
-- insertions.
use srcmv.Base.{
  ltb, ◌==◌, if◌then◌else◌, ltb→ge, Bool-cases, Option-cases, All, All-append, ℕ, ◌≤◌, ◌≡◌, inl,
  inr, true, false, not, ◌&&◌, some, List, [], ◌∷◌, ◌++◌, map, arith,
}
use srcmv.Base.Ordered.{entry, nat_key, bytes_key}
use srcmv.Base.Sorting.{insert_sorted, sort_by}
use srcmv.Domain.Errors.{Result, ok, err, ◌>>=◌}
use srcmv.Domain.Types.{SnapshotFileId, ByteRange, OutputSegment, original_slice}
use srcmv.Planner.Edits.{
  Insertion, OutputEdits, PointEvents, no_events, Points, mark_start, mark_end, add_insertion,
  add_deletions, add_insertions, insertion_before, sort_points, collect_points, Walk, payload,
  push_original, visit_point, visit_points, fresh_walk, build_segments,
}

module _ (P : OutputSegment → Type 0) where
  abbrev Payloads : List Insertion → Type 0
  Payloads = All (λ i. P (payload i))

  abbrev PointsHold : Points → Type 0
  PointsHold = All (λ kv. Payloads kv.1.insertions)

  entry-PointsHold :
      (k : ℕ) (f : PointEvents → PointEvents) (points : Points)
      → ((point : PointEvents) → Payloads point.insertions → Payloads (f point).insertions)
      → PointsHold points
      → PointsHold (entry k no_events f points)
  unfolding entry
  entry-PointsHold k f [] keep h = (keep no_events tt, tt)
  entry-PointsHold k f ((j, point) ∷ points) keep (here, rest) = elim (Bool-cases (j == k)) [
    | inl same ↦ rw same (keep point here, rest)
    | inr apart ↦ elim (Bool-cases (ltb k j)) [
      | inl first ↦ rw (apart, first) (keep no_events tt, (here, rest))
      | inr behind ↦ rw (apart, behind) (here, entry-PointsHold k f points keep rest)
    ]
  ]

  add_deletions-PointsHold :
      (deletions : List (ℕ × ByteRange)) (points : Points)
      → PointsHold points
      → PointsHold (add_deletions deletions points)
  unfolding add_deletions
  add_deletions-PointsHold [] points h = h
  add_deletions-PointsHold ((i, range) ∷ deletions) points h =
      add_deletions-PointsHold deletions _ (
        entry-PointsHold range.end mark_end _ (λ _ k. k)
          (entry-PointsHold range.start mark_start points (λ _ k. k) h))

  add_insertions-PointsHold :
      (insertions : List (ℕ × Insertion)) (points : Points)
      → All (λ i. P (payload i.1)) insertions
      → PointsHold points
      → PointsHold (add_insertions insertions points)
  unfolding add_insertions
  add_insertions-PointsHold [] points all h = h
  add_insertions-PointsHold ((o, insertion) ∷ insertions) points (here, all) h =
      add_insertions-PointsHold insertions _ all (
        entry-PointsHold o (add_insertion insertion) points
          (λ point k.
            All-append (λ i. P (payload i)) point.insertions (insertion ∷ []) k (here, tt))
          h)

  insert_sorted-Payloads :
      (i : Insertion) (insertions : List Insertion)
      → P (payload i)
      → Payloads insertions
      → Payloads (insert_sorted insertion_before i insertions)
  unfolding insert_sorted
  insert_sorted-Payloads i [] here h = (here, tt)
  insert_sorted-Payloads i (j ∷ insertions) here (hj, h) =
      elim (Bool-cases (insertion_before j i)) [
        | inl first ↦ rw first (hj, insert_sorted-Payloads i insertions here h)
        | inr behind ↦ rw behind (here, (hj, h))
      ]

  sort_by-Payloads :
      (insertions : List Insertion)
      → Payloads insertions
      → Payloads (sort_by insertion_before insertions)
  unfolding sort_by
  sort_by-Payloads [] h = tt
  sort_by-Payloads (i ∷ insertions) (here, h) =
      insert_sorted-Payloads i (sort_by insertion_before insertions) here
        (sort_by-Payloads insertions h)

  sort_points-PointsHold : (points : Points) → PointsHold points → PointsHold (sort_points points)
  unfolding sort_points
  sort_points-PointsHold [] h = tt
  sort_points-PointsHold ((o, point) ∷ points) (here, h) =
      (sort_by-Payloads point.insertions here, sort_points-PointsHold points h)

  map-payload : (insertions : List Insertion) → Payloads insertions → All P (map payload insertions)
  map-payload [] h = tt
  map-payload (i ∷ insertions) (here, h) = (here, map-payload insertions h)

  -- The ranges of the original that a segment may show.
  abbrev pub OriginalsHold : OutputEdits → Type 0
  OriginalsHold edits =
      (id : SnapshotFileId) (s e : ℕ)
      → edits.existing_file_id ≡ some id
      → s ≤ e
      → e ≤ edits.original_length
      → P (original_slice id (record { start = s; end = e }))

  abbrev pub SegmentsHold : Result (List OutputSegment) → Type 0
  SegmentsHold (ok segments) = All P segments
  SegmentsHold (err e) = Unit

  abbrev WalkHolds : Result Walk → Type 0
  WalkHolds (ok walk) = All P walk.segments
  WalkHolds (err e) = Unit

  push_original-SegmentsHold :
      (edits : OutputEdits) (limit : ℕ) (walk : Walk)
      → OriginalsHold edits
      → limit ≤ edits.original_length
      → All P walk.segments
      → SegmentsHold (push_original edits limit walk)
  unfolding push_original
  push_original-SegmentsHold edits limit walk originals inside h =
      elim (Bool-cases (ltb walk.cursor limit && not walk.deleting)) [
        | inl pushes ↦ elim (Option-cases edits.existing_file_id) [
          | inl missing ↦ rw (pushes, missing) tt
          | inr (id, known) ↦
              rw (pushes, known)
                (All-append P walk.segments _ h
                  (originals id walk.cursor limit known (ground arith) inside, tt))
        ]
        | inr rests ↦ rw rests h
      ]

  visit_point-WalkHolds :
      (edits : OutputEdits) (offset : ℕ) (point : PointEvents) (walk : Walk)
      → OriginalsHold edits
      → Payloads point.insertions
      → All P walk.segments
      → WalkHolds (visit_point edits offset point walk)
  unfolding visit_point
  visit_point-WalkHolds edits offset point walk originals payloads h =
      elim (Bool-cases (ltb edits.original_length offset)) [
        | inl beyond ↦ rw beyond tt
        | inr inside ↦ rw inside (
            go (push_original edits offset walk) (
              push_original-SegmentsHold edits offset walk originals
                (ltb→ge edits.original_length offset inside) h))
      ]
    where
      go :
          (r : Result (List OutputSegment))
          → SegmentsHold r
          → WalkHolds (
              r >>= λ segments. ok (record {
                segments = segments ++ map payload point.insertions;
                cursor = offset;
                deleting =
                    if point.deletion_start
                    then true
                    else if point.deletion_end
                    then false
                    else walk.deleting;
              }))
      go (ok segments) all =
          All-append P segments (map payload point.insertions) all
            (map-payload point.insertions payloads)
      go (err e) all = tt

  visit_points-WalkHolds :
      (edits : OutputEdits) (points : Points) (walk : Walk)
      → OriginalsHold edits
      → PointsHold points
      → All P walk.segments
      → WalkHolds (visit_points edits points walk)
  unfolding visit_points
  visit_points-WalkHolds edits [] walk originals payloads h = h
  visit_points-WalkHolds edits ((o, point) ∷ points) walk originals (here, payloads) h =
      go (visit_point edits o point walk)
        (visit_point-WalkHolds edits o point walk originals here h)
        (λ next k. visit_points-WalkHolds edits points next originals payloads k)
    where
      go :
          (r : Result Walk)
          → WalkHolds r
          → ((next : Walk) → All P next.segments → WalkHolds (visit_points edits points next))
          → WalkHolds (r >>= visit_points edits points)
      go (ok next) all later = later next all
      go (err e) all later = tt

  -- A property of the ranges of the original and of the payloads of the insertions holds of
  -- every segment that `build_segments` returns.
  pub build_segments-SegmentsHold :
      (edits : OutputEdits)
      → OriginalsHold edits
      → All (λ i. P (payload i.1)) edits.insertions
      → SegmentsHold (build_segments edits)
  unfolding build_segments collect_points
  build_segments-SegmentsHold edits originals payloads =
      go (visit_points edits (collect_points edits) fresh_walk) (
        visit_points-WalkHolds edits (collect_points edits) fresh_walk originals
          (sort_points-PointsHold _ (
            add_insertions-PointsHold edits.insertions _ payloads
              (add_deletions-PointsHold edits.deletions [] tt)))
          tt)
    where
      go :
          (r : Result Walk)
          → WalkHolds r
          → SegmentsHold (r >>= push_original edits edits.original_length)
      go (ok walk) all =
          push_original-SegmentsHold edits edits.original_length walk originals (omega arith) all
      go (err e) all = tt
