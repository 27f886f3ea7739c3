-- ===== src/Planner/Splice/Spec.antt =====
-- The reference that an output is compared with: the original, byte by byte, with the payloads
-- of each offset in request order in front of its byte, and without the deleted bytes.
use srcmv.Base.{
  ltb, leb, ◌==◌, if◌then◌else◌, take, drop, Bytes, ℕ, suc, ◌+◌, ◌-◌, Bool, ◌&&◌, List, [], ◌∷◌,
  ◌++◌, map,
}
use srcmv.Base.Sorting.{sort_by}
use srcmv.Domain.Types.{ByteRange, OutputSegment}
use srcmv.Planner.Edits.{Insertion, insertion_before, payload}

abbrev pub slice {ℓ} : {A : Type ℓ} → ℕ → ℕ → List A → List A
slice start end content = take (end - start) (drop start content)

-- How many deletions cover the byte at `q`.
unfoldable pub cover_count : ℕ → List (ℕ × ByteRange) → ℕ
cover_count q [] = 0
cover_count q ((_, range) ∷ rest) =
    (if leb range.start q && ltb q range.end then 1 else 0) + cover_count q rest

abbrev pub is_covered : ℕ → List (ℕ × ByteRange) → Bool
is_covered q deletions = ltb 0 (cover_count q deletions)

-- The insertions at one offset, in the order of the list.
unfoldable pub insertions_at : ℕ → List (ℕ × Insertion) → List Insertion
insertions_at q [] = []
insertions_at q ((offset, insertion) ∷ rest) =
    let later = insertions_at q rest in if offset == q then insertion ∷ later else later

-- The bytes of a list of segments, from the bytes of each.
unfoldable pub render : (OutputSegment → Bytes) → List OutputSegment → Bytes
render view [] = []
render view (segment ∷ segments) = view segment ++ render view segments

-- The payloads at one offset, in request order.
unfoldable pub payloads_at : (OutputSegment → Bytes) → ℕ → List (ℕ × Insertion) → Bytes
unfolding render insertions_at sort_by
payloads_at view q insertions =
    render view (map payload (sort_by insertion_before (insertions_at q insertions)))

-- The output from offset `q` on, where `content` are the original bytes from there.
unfoldable pub splice :
    (OutputSegment → Bytes) → List (ℕ × ByteRange) → List (ℕ × Insertion) → ℕ → Bytes → Bytes
unfolding payloads_at cover_count
splice view deletions insertions q [] = payloads_at view q insertions
splice view deletions insertions q (b ∷ content) =
    payloads_at view q insertions
    ++ ((if is_covered q deletions then [] else b ∷ [])
        ++ splice view deletions insertions (suc q) content)
