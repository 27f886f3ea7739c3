-- ===== src/Planner/Output/Indexed.antt =====
-- `index_snapshot`: what a lookup of a path or of a file id finds.
use srcmv.Base.{
  ==_iff, Bool-cases, Option-cases, All, Bytes, bytes_eq, is_some, ◌≡◌, inl, inr, none, some, List,
  [], ◌∷◌, arith, subst,
}
use srcmv.Base.Ordered.{get, insert, IsSorted, entry-IsSorted, get-entry, nat_key, bytes_key}
use srcmv.Domain.Errors.{ok, >>=-eq-ok}
use srcmv.Domain.Types.{FileSnapshot, AbsentPathSnapshot, WorkspaceSnapshot}
use srcmv.Lines.Numbers.{IsIndexOf}
use srcmv.Planner.Resolve.{
  SnapshotState, existing, absent, StatesByPath, FilesById, index_files, index_absent,
  index_snapshot,
}

-- The state of a path is that of a file which its id finds, with the index of its lines.
abbrev pub StateHolds : FilesById → SnapshotState → Type 0
StateHolds files_by_id (existing file) =
    (get file.id files_by_id ≡ some file) × IsIndexOf file.content file.line_index
StateHolds files_by_id (absent path) = Unit

-- All the states that a lookup of a path can find.
abbrev pub Coherent : StatesByPath → FilesById → Type 0
Coherent states files_by_id =
    (path : Bytes) (state : SnapshotState)
    → get path states ≡ some state
    → StateHolds files_by_id state

-- Every file carries the index of its lines.
abbrev pub AllIndexed : List FileSnapshot → Type 0
AllIndexed = All (λ file. IsIndexOf file.content file.line_index)

insert-StateHolds :
    (file : FileSnapshot) (files_by_id : FilesById) (state : SnapshotState)
    → IsSorted files_by_id
    → get file.id files_by_id ≡ none
    → StateHolds files_by_id state
    → StateHolds (insert file.id file files_by_id) state
unfolding insert
insert-StateHolds file files_by_id (absent path) sorted fresh held = tt
insert-StateHolds file files_by_id (existing other) sorted fresh (found, indexed) = (
  rw (get-entry other.id file.id file (λ _. file) files_by_id sorted)
      (ground (arith, ==_iff file.id other.id)),
  indexed,
)

insert-Coherent :
    (path : Bytes) (state : SnapshotState) (states : StatesByPath) (files_by_id : FilesById)
    → IsSorted states
    → StateHolds files_by_id state
    → Coherent states files_by_id
    → Coherent (insert path state states) files_by_id
unfolding insert
insert-Coherent path state states files_by_id sorted held coherent q found got =
    let there = get-entry q path state (λ _. state) states sorted in
    elim (Bool-cases (bytes_eq path q)) [
      | inl same ↦
          let eq : state ≡ found = ground (arith, there) in subst (StateHolds files_by_id) eq held
      | inr other ↦ coherent q found (ground (arith, there))
    ]

-- A well-formed index: maps in key order, and states that hold.
abbrev pub IsIndex : StatesByPath → FilesById → Type 0
IsIndex states files_by_id = IsSorted states × IsSorted files_by_id × Coherent states files_by_id

index_files-IsIndex :
    (files : List FileSnapshot) (states : StatesByPath) (files_by_id : FilesById)
    (indexed : StatesByPath × FilesById)
    → AllIndexed files
    → IsIndex states files_by_id
    → index_files files states files_by_id ≡ ok indexed
    → IsIndex indexed.0 indexed.1
unfolding index_files insert
index_files-IsIndex [] states files_by_id indexed lines (s, f, c) h =
    subst (λ (i : StatesByPath × FilesById). IsIndex i.0 i.1) (ground arith) (s, f, c)
index_files-IsIndex (file ∷ files) states files_by_id indexed lines (s, f, c) h =
    elim (Bool-cases (is_some (get file.path.value states))) [
      | inl twice ↦ ground arith
      | inr once ↦ elim (Option-cases (get file.id files_by_id)) [
        | inr (other, taken) ↦ ground arith
        | inl fresh ↦
            let states' = insert file.path.value (existing file) states in
            let files' = insert file.id file files_by_id in
            let here : get file.id files' ≡ some file =
              rw (get-entry file.id file.id file (λ _. file) files_by_id f)
                (ground (arith, ==_iff file.id file.id)) in
            index_files-IsIndex files states' files' indexed lines.1
              (
                entry-IsSorted file.path.value (existing file) (λ _. existing file) states s,
                entry-IsSorted file.id file (λ _. file) files_by_id f,
                insert-Coherent file.path.value (existing file) states files' s (here, lines.0)
                    (λ path state got.
                      insert-StateHolds file files_by_id state f fresh (c path state got)),
              )
              (rw (once, fresh) at h)
      ]
    ]

index_absent-IsIndex :
    (paths : List AbsentPathSnapshot) (states : StatesByPath) (files_by_id : FilesById)
    (indexed : StatesByPath)
    → IsIndex states files_by_id
    → index_absent paths states ≡ ok indexed
    → IsIndex indexed files_by_id
unfolding index_absent insert
index_absent-IsIndex [] states files_by_id indexed (s, f, c) h =
    subst (λ i. IsIndex i files_by_id) (ground arith) (s, f, c)
index_absent-IsIndex (path ∷ paths) states files_by_id indexed (s, f, c) h =
    elim (Bool-cases (is_some (get path.path.value states))) [
      | inl twice ↦ ground arith
      | inr once ↦
          index_absent-IsIndex paths (insert path.path.value (absent path) states) files_by_id
            indexed
            (
              entry-IsSorted path.path.value (absent path) (λ _. absent path) states s,
              f,
              insert-Coherent path.path.value (absent path) states files_by_id s tt c,
            )
            (rw once at h)
    ]

-- If a snapshot is indexed, and its files carry the indexes of their lines, then every path that
-- the index knows has a state that holds.
pub index_snapshot-Coherent :
    (snapshot : WorkspaceSnapshot) (states : StatesByPath) (files_by_id : FilesById)
    → AllIndexed snapshot.files
    → index_snapshot snapshot ≡ ok (states, files_by_id)
    → Coherent states files_by_id
unfolding index_snapshot get
index_snapshot-Coherent snapshot states files_by_id lines h =
    let (indexed, a, h') = >>=-eq-ok (index_files snapshot.files [] []) _ h in
    let (states', b, done) = >>=-eq-ok (index_absent snapshot.absent_paths indexed.0) _ h' in
    let files =
      index_files-IsIndex snapshot.files [] [] indexed lines (tt, tt, λ path state got. cc) a in
    let both = index_absent-IsIndex snapshot.absent_paths indexed.0 indexed.1 states' files b in
    let same : (states', indexed.1) ≡ (states, files_by_id) = cc in
    (subst (λ (i : StatesByPath × FilesById). IsIndex i.0 i.1) same both).2
