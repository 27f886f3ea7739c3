-- ===== src/Planner/Splice/Correct.antt =====
-- `build_segments` against the byte-by-byte reference.
use srcmv.Base.{length, Bytes, ℕ, zero, suc, ◌≡◌, sym, Bool, false, [], ◌∷◌, subst}
use srcmv.Domain.Errors.{ok}
use srcmv.Domain.Types.{OutputSegment}
use srcmv.Planner.Edits.{OutputEdits, validate_edit_conflicts, collect_points, build_segments}
use srcmv.Planner.Splice.Spec.{is_covered, payloads_at, splice}
use srcmv.Planner.Splice.Segments.{
  Renders, IsView, after_point, point_at, walk_from, visit_points-Renders,
}
use srcmv.Planner.Splice.Points.{
  DeletionsIn, InsertionsIn, collect_points-KeysIn, point_at-collect_points,
}
use srcmv.Planner.Splice.Coverage.{
  IsDisjoint, is_covered-suc, is_covered-zero, validate_edit_conflicts-IsDisjoint,
}

module _ (view : OutputSegment → Bytes) (edits : OutputEdits) (n : ℕ)
    (deletions_in : DeletionsIn n edits.deletions) (insertions_in : InsertionsIn n edits.insertions)
    (once : IsDisjoint edits.deletions) where
  -- The flag with which the loop comes to an offset.
  flag_before : ℕ → Bool
  flag_before zero = false
  flag_before (suc q) = is_covered q edits.deletions

  after-flag :
      (q : ℕ)
      → after_point (point_at q (collect_points edits)) (flag_before q)
        ≡ is_covered q edits.deletions
  unfolding flag_before
  after-flag zero =
      rw (point_at-collect_points zero n edits deletions_in insertions_in)
        (sym (is_covered-zero n edits.deletions deletions_in))
  after-flag (suc q) =
      rw (point_at-collect_points (suc q) n edits deletions_in insertions_in)
        (sym (is_covered-suc q n edits.deletions deletions_in once))

  walk_from-splice :
      (content : Bytes) (q : ℕ)
      → walk_from view (collect_points edits) q (flag_before q) content
        ≡ splice view edits.deletions edits.insertions q content
  unfolding walk_from splice payloads_at flag_before
  walk_from-splice [] q = rw (point_at-collect_points q n edits deletions_in insertions_in)
  walk_from-splice (b ∷ content) q =
      rw (after-flag q, point_at-collect_points q n edits deletions_in insertions_in)
        (rw (walk_from-splice content (suc q)))

-- For edits inside a file that pass the conflict check, `build_segments` returns segments, and
-- these show the original byte by byte: in front of each offset the payloads inserted there in
-- request order, and then its byte unless a deletion covers it.
pub build_segments-splice :
    (view : OutputSegment → Bytes) (edits : OutputEdits) (original : Bytes)
    → IsView view edits original
    → edits.original_length ≡ length original
    → DeletionsIn (length original) edits.deletions
    → InsertionsIn (length original) edits.insertions
    → validate_edit_conflicts edits ≡ ok tt
    → Renders view (build_segments edits) (splice view edits.deletions edits.insertions 0 original)
unfolding build_segments flag_before
build_segments-splice view edits original shown whole d i valid =
    let once = validate_edit_conflicts-IsDisjoint (length original) edits d valid in
    subst (Renders view (build_segments edits))
      (walk_from-splice view edits (length original) d i once original 0)
      (visit_points-Renders view edits original shown whole (collect_points edits)
        (collect_points-KeysIn (length original) edits d i))
