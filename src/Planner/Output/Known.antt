-- ===== src/Planner/Output/Known.antt =====
-- `index_snapshot`: the states and the files that it knows are those of the snapshot.
use srcmv.Base.{
  Bool-cases, Option-cases, All, Bytes, is_some, ◌≡◌, refl, sym, ap, ◌⊎◌, inl, inr, some, List, [],
  ◌∷◌, arith, subst,
}
use srcmv.Base.Ordered.{Key, BTreeMap, get, entry, insert, nat_key, bytes_key}
use srcmv.Domain.Errors.{ok, >>=-eq-ok, ok_injective}
use srcmv.Domain.Types.{SnapshotFileId, FileSnapshot, AbsentPathSnapshot, WorkspaceSnapshot}
use srcmv.Planner.Resolve.{
  SnapshotState, existing, absent, StatesByPath, FilesById, index_files, index_absent,
  index_snapshot,
}

abbrev pub IsIn : {A : Type 0} → A → List A → Type 0
IsIn a [] = ⊥
IsIn a (x ∷ xs) = (a ≡ x) ⊎ IsIn a xs

-- The state of a path in the snapshot.
abbrev pub IsStateOf : WorkspaceSnapshot → Bytes → SnapshotState → Type 0
IsStateOf snapshot path (existing file) = IsIn file snapshot.files × (file.path.value ≡ path)
IsStateOf snapshot path (absent missing) =
    IsIn missing snapshot.absent_paths × (missing.path.value ≡ path)

abbrev pub IsFileOf : WorkspaceSnapshot → SnapshotFileId → FileSnapshot → Type 0
IsFileOf snapshot id file = IsIn file snapshot.files × (file.id ≡ id)

module _ {K V : Type 0} ⦃o : Key K⦄ (P : K → V → Type 0) where
  insert-All :
      (k : K) (v : V) (m : BTreeMap K V)
      → P k v
      → All (λ e. P e.0 e.1) m
      → All (λ e. P e.0 e.1) (insert k v m)
  unfolding insert entry
  insert-All k v [] p all = (p, tt)
  insert-All k v ((j, w) ∷ m) p (q, all) = elim (Bool-cases (o.eqb j k)) [
    | inl same ↦
        let it : j ≡ k = (o.eqb_iff j k).0 same in rw same (subst (λ i. P i v) (sym it) p, all)
    | inr other ↦ elim (Bool-cases (o.lt k j)) [
      | inl below ↦ rw (other, below) (p, (q, all))
      | inr above ↦ rw (other, above) (q, insert-All k v m p all)
    ]
  ]

  get-All : (k : K) (v : V) (m : BTreeMap K V) → All (λ e. P e.0 e.1) m → get k m ≡ some v → P k v
  unfolding get
  get-All k v [] all h = cc
  get-All k v ((j, w) ∷ m) (q, all) h = elim (Bool-cases (o.eqb j k)) [
    | inl same ↦
        let it : j ≡ k = (o.eqb_iff j k).0 same in
        let value : some w ≡ some v = rw same at h in
        let eq : w ≡ v = cc in subst (P k) eq (subst (λ i. P i w) it q)
    | inr other ↦ get-All k v m all (rw other at h)
  ]

module _ (snapshot : WorkspaceSnapshot) where
  abbrev AllStates : StatesByPath → Type 0
  AllStates = All (λ e. IsStateOf snapshot e.0 e.1)

  abbrev AllFiles : FilesById → Type 0
  AllFiles = All (λ e. IsFileOf snapshot e.0 e.1)

  index_files-All :
      (files : List FileSnapshot) (states : StatesByPath) (files_by_id : FilesById)
      (indexed : StatesByPath × FilesById)
      → ((file : FileSnapshot) → IsIn file files → IsIn file snapshot.files)
      → AllStates states
      → AllFiles files_by_id
      → index_files files states files_by_id ≡ ok indexed
      → AllStates indexed.0 × AllFiles indexed.1
  unfolding index_files
  index_files-All [] states files_by_id indexed within s f h =
      subst (λ (i : StatesByPath × FilesById). AllStates i.0 × AllFiles i.1)
        (ok_injective (states, files_by_id) indexed h) (s, f)
  index_files-All (file ∷ files) states files_by_id indexed within s f h =
      elim (Bool-cases (is_some (get file.path.value states))) [
        | inl twice ↦ ground arith
        | inr once ↦ elim (Option-cases (get file.id files_by_id)) [
          | inr (other, taken) ↦ ground arith
          | inl fresh ↦
              let here = within file (inl refl) in
              index_files-All files (insert file.path.value (existing file) states)
                (insert file.id file files_by_id) indexed (λ g there. within g (inr there))
                (insert-All (IsStateOf snapshot) file.path.value (existing file) states (here, refl)
                  s)
                (insert-All (IsFileOf snapshot) file.id file files_by_id (here, refl) f)
                (rw (once, fresh) at h)
        ]
      ]

  index_absent-All :
      (paths : List AbsentPathSnapshot) (states indexed : StatesByPath)
      → ((path : AbsentPathSnapshot) → IsIn path paths → IsIn path snapshot.absent_paths)
      → AllStates states
      → index_absent paths states ≡ ok indexed
      → AllStates indexed
  unfolding index_absent
  index_absent-All [] states indexed within s h = subst AllStates (ok_injective states indexed h) s
  index_absent-All (path ∷ paths) states indexed within s h =
      elim (Bool-cases (is_some (get path.path.value states))) [
        | inl twice ↦ ground arith
        | inr once ↦
            index_absent-All paths (insert path.path.value (absent path) states) indexed
              (λ g there. within g (inr there))
              (insert-All (IsStateOf snapshot) path.path.value (absent path) states
                (within path (inl refl), refl) s)
              (rw once at h)
      ]

  pub index_snapshot-Known :
      (states : StatesByPath) (files_by_id : FilesById)
      → index_snapshot snapshot ≡ ok (states, files_by_id)
      → ((path : Bytes) (state : SnapshotState)
          → get path states ≡ some state
          → IsStateOf snapshot path state)
        × ((id : SnapshotFileId) (file : FileSnapshot)
            → get id files_by_id ≡ some file
            → IsFileOf snapshot id file)
  unfolding index_snapshot
  index_snapshot-Known states files_by_id h =
      let (indexed, a, h') = >>=-eq-ok (index_files snapshot.files [] []) _ h in
      let (states', b, done) = >>=-eq-ok (index_absent snapshot.absent_paths indexed.0) _ h' in
      let (s, f) = index_files-All snapshot.files [] [] indexed (λ g there. there) tt tt a in
      let s' = index_absent-All snapshot.absent_paths indexed.0 states' (λ g there. there) s b in
      let same : ◌≡◌ {A = StatesByPath × FilesById} (states', indexed.1) (states, files_by_id) =
        ok_injective (states', indexed.1) (states, files_by_id) done in
      (
        λ path state.
            get-All (IsStateOf snapshot) path state states
              (subst AllStates (ap (λ i. i.0) same) s'),
        λ id file.
            get-All (IsFileOf snapshot) id file files_by_id (subst AllFiles (ap (λ i. i.1) same) f),
      )
