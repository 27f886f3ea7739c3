-- ===== src/Planner/Output/Fitting.antt =====
-- `output_edits`: what it keeps of the edits of every path.
use srcmv.Base.{
  ==_iff, Bool-cases, All, Bytes, bytes_eq, ◌≡◌, refl, sym, ◌∙◌, inl, inr, true, Option, none, some,
  [], ◌∷◌, arith, subst,
}
use srcmv.Base.Ordered.{bytes_lt, or_default, get, entry, nat_key, bytes_key}
use srcmv.Domain.Errors.{ok}
use srcmv.Domain.Types.{SnapshotFileId, WorkspaceRelativePath}
use srcmv.Planner.Resolve.{SnapshotState, existing, absent, FilesById}
use srcmv.Planner.Edits.{OutputEdits, EditsByPath, fresh_edits, option_id_eq, output_edits}
use srcmv.Planner.Stream.{original_bytes}
use srcmv.Planner.Output.Planned.{EditsFit}
use srcmv.Planner.Output.Indexed.{StateHolds}

-- The bytes of a state; an absent path has none.
abbrev pub bytes_of : SnapshotState → Option Bytes
bytes_of (existing file) = some file.content
bytes_of (absent path) = none

-- Edits that fit the original that their file id finds.
abbrev pub Fits : FilesById → OutputEdits → Type 0
Fits files_by_id edits = (original : Option Bytes) × EditsFit files_by_id edits original

abbrev pub AllFit : FilesById → EditsByPath → Type 0
AllFit files_by_id = All (λ e. Fits files_by_id e.1)

-- An update through the entry interface keeps what holds of every value.
entry-All :
    (P : OutputEdits → Type 0) (k : Bytes) (fresh : OutputEdits) (push : OutputEdits → OutputEdits)
    (m : EditsByPath)
    → P (push fresh)
    → ((v : OutputEdits) → get k m ≡ some v → P v → P (push v))
    → All (λ e. P e.1) m
    → All (λ e. P e.1) (entry k fresh push m)
unfolding entry get
entry-All P k fresh push [] start step held = (start, tt)
entry-All P k fresh push ((j, v) ∷ m) start step (here, held) = elim (Bool-cases (bytes_eq j k)) [
  | inl same ↦ rw same (step v (rw same) here, held)
  | inr other ↦ elim (Bool-cases (bytes_lt k j)) [
    | inl below ↦ rw (other, below) (start, (here, held))
    | inr above ↦
        rw (other, above)
          (here, entry-All P k fresh push m start (λ v got. step v (rw other got)) held)
  ]
]

fresh-EditsFit :
    (files_by_id : FilesById) (path : WorkspaceRelativePath) (state : SnapshotState)
    → StateHolds files_by_id state
    → EditsFit files_by_id (fresh_edits path state) (bytes_of state)
unfolding fresh_edits original_bytes
fresh-EditsFit files_by_id path (existing file) (found, indexed) = record {
  found = rw found;
  whole = refl;
  deletions_in = tt;
  insertions_in = tt;
  payloads_found = tt;
}
fresh-EditsFit files_by_id path (absent missing) held = record {
  found = refl;
  whole = refl;
  deletions_in = tt;
  insertions_in = tt;
  payloads_found = tt;
}

option_id_eq→eq : (a b : Option SnapshotFileId) → option_id_eq a b ≡ true → a ≡ b
option_id_eq→eq none none h = refl
option_id_eq→eq none (some b) h = cc
option_id_eq→eq (some a) none h = cc
option_id_eq→eq (some a) (some b) h = ground (arith, ==_iff a b)

-- A file id finds one original.
original_unique :
    (files_by_id : FilesById) (path : WorkspaceRelativePath) (state : SnapshotState)
    (edits : OutputEdits) (original : Option Bytes)
    → StateHolds files_by_id state
    → EditsFit files_by_id edits original
    → edits.existing_file_id ≡ (fresh_edits path state).existing_file_id
    → original ≡ bytes_of state
original_unique files_by_id path state edits original held fit same =
    let start = fresh-EditsFit files_by_id path state held in
    let both : original_bytes files_by_id edits.existing_file_id ≡ ok (bytes_of state) =
      rw same start.found in
    let eq : ok original ≡ ok (bytes_of state) = sym fit.found ∙ both in cc

-- `output_edits` with a push that keeps the fit of the state's edits.
pub output_edits-AllFit :
    (files_by_id : FilesById) (path : WorkspaceRelativePath) (state : SnapshotState)
    (push : OutputEdits → OutputEdits) (edits result : EditsByPath)
    → StateHolds files_by_id state
    → ((v : OutputEdits)
        → EditsFit files_by_id v (bytes_of state)
        → EditsFit files_by_id (push v) (bytes_of state))
    → AllFit files_by_id edits
    → output_edits path state push edits ≡ ok result
    → AllFit files_by_id result
unfolding output_edits
output_edits-AllFit files_by_id path state push edits result held step fit h =
    let fresh = fresh_edits path state in
    elim (Bool-cases (
      option_id_eq (or_default fresh (get path.value edits)).existing_file_id
        fresh.existing_file_id)) [
          | inr mixed ↦ ground arith
          | inl same ↦
              let done : entry path.value fresh push edits ≡ result = ground arith in
              subst (AllFit files_by_id) done (
                entry-All (Fits files_by_id) path.value fresh push edits
                  (bytes_of state, step fresh (fresh-EditsFit files_by_id path state held))
                  (λ v got v_fits.
                    let (original, v_fit) = v_fits in
                    let id : v.existing_file_id ≡ fresh.existing_file_id =
                      option_id_eq→eq _ _ (rw got at same) in
                    let eq = original_unique files_by_id path state v original held v_fit id in
                    (bytes_of state, step v (subst (EditsFit files_by_id v) eq v_fit)))
                  fit)
        ]
