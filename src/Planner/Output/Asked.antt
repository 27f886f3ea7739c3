-- ===== src/Planner/Output/Asked.antt =====
-- What the operations of a batch ask of each path, one operation at a time, and that
-- `record_edits` records it.
use srcmv.Base.{
  if◌then◌else◌, Bool-cases, length, length-append, Bytes, bytes_eq, bytes_eq→eq, ℕ, ◌+◌, ◌<◌, ◌≡◌,
  refl, sym, ap, ◌∙◌, inl, inr, Option, none, some, List, [], ◌∷◌, ◌++◌, append-nil, append_assoc,
  arith, subst,
}
use srcmv.Base.Ordered.{
  or_default, get, entry, IsSorted, entry-IsSorted, get-entry, nat_key, bytes_key,
}
use srcmv.Domain.Errors.{ok, >>=-eq-ok, ok_injective}
use srcmv.Domain.Types.{
  Sha256Digest, SnapshotFileId, WorkspaceRelativePath, FileSnapshot, ByteRange, OperationKind,
  move_kind, copy_kind, OperationEffect, changed, no_op, ResolvedOperation,
}
use srcmv.Planner.Resolve.{SnapshotState, existing, absent, StatesByPath}
use srcmv.Planner.Edits.{Insertion, OutputEdits, EditsByPath, fresh_edits, output_edits}
use srcmv.Planner.Plan.{kind_is_move, add_deletion, add_edit_insertion, record_edits}
use srcmv.Planner.Output.Recorded.{effect-cases}

-- A resolved operation, its source file, and the state of its destination.
abbrev pub Request : Type 0
Request = ResolvedOperation × FileSnapshot × SnapshotState

-- A move that changes something deletes its range of the source's path.
unfoldable pub deletes :
    OperationKind → OperationEffect → Bytes → ResolvedOperation → List (ℕ × ByteRange)
deletes move_kind changed path operation =
    if bytes_eq operation.source_path.value path
    then (operation.operation_index, operation.source_range) ∷ []
    else []
deletes move_kind no_op path operation = []
deletes copy_kind effect path operation = []

-- An operation that changes something inserts the selected range in the destination's path.
unfoldable pub inserts : OperationEffect → Bytes → Request → List (ℕ × Insertion)
inserts changed path (operation, source, _) =
    if bytes_eq operation.destination_path.value path
    then (
      operation.destination_offset,
      record {
        operation_index = operation.operation_index;
        snapshot_file_id = source.id;
        range = operation.source_range;
        payload_digest = operation.selected_digest;
      },
    )
      ∷ []
    else []
inserts no_op path request = []

-- The deletions and the insertions that the operations ask of a path, in request order.
unfoldable pub deletions_of : Bytes → List Request → List (ℕ × ByteRange)
unfolding deletes
deletions_of path [] = []
deletions_of path (request ∷ requests) =
    deletes request.0.kind request.0.effect path request.0 ++ deletions_of path requests

unfoldable pub insertions_of : Bytes → List Request → List (ℕ × Insertion)
unfolding inserts
insertions_of path [] = []
insertions_of path (request ∷ requests) =
    inserts request.0.effect path request ++ insertions_of path requests

-- The edits of a path start from its state in the snapshot.
abbrev id_of : SnapshotState → Option SnapshotFileId
id_of (existing file) = some file.id
id_of (absent _) = none

abbrev digest_of : SnapshotState → Option Sha256Digest
digest_of (existing file) = some file.digest
digest_of (absent _) = none

abbrev pub StartsFrom : SnapshotState → OutputEdits → Type 0
StartsFrom state edits =
    (edits.existing_file_id ≡ id_of state) × (edits.original_digest ≡ digest_of state)

-- The edits of a path have these deletions and insertions, and there are none without them.
abbrev pub Has :
    StatesByPath → Bytes → List (ℕ × ByteRange) → List (ℕ × Insertion) → Option OutputEdits → Type 0
Has states path deletions insertions none = (deletions ≡ []) × (insertions ≡ [])
Has states path deletions insertions (some edits) =
    (edits.path.value ≡ path)
    × (edits.deletions ≡ deletions)
    × (edits.insertions ≡ insertions)
    × (0 < length deletions + length insertions)
    × (state : SnapshotState) × (get path states ≡ some state)
    × StartsFrom state edits

deletions_of-append :
    (path : Bytes) (a b : List Request)
    → deletions_of path (a ++ b) ≡ deletions_of path a ++ deletions_of path b
unfolding deletions_of
deletions_of-append path [] b = refl
deletions_of-append path (r ∷ a) b = rw (deletions_of-append path a b) (
    sym (
      append_assoc (deletes r.0.kind r.0.effect path r.0) (deletions_of path a)
        (deletions_of path b)))

insertions_of-append :
    (path : Bytes) (a b : List Request)
    → insertions_of path (a ++ b) ≡ insertions_of path a ++ insertions_of path b
unfolding insertions_of
insertions_of-append path [] b = refl
insertions_of-append path (r ∷ a) b =
    rw (insertions_of-append path a b)
      (sym (append_assoc (inserts r.0.effect path r) (insertions_of path a) (insertions_of path b)))

-- What `output_edits` leaves at each path.
output_edits-get :
    (path : WorkspaceRelativePath) (state : SnapshotState) (push : OutputEdits → OutputEdits)
    (edits result : EditsByPath) (p : Bytes)
    → IsSorted edits
    → output_edits path state push edits ≡ ok result
    → IsSorted result
      × (get p result ≡ (
          if bytes_eq path.value p
          then some (push (or_default (fresh_edits path state) (get path.value edits)))
          else get p edits))
unfolding output_edits
output_edits-get path state push edits result p sorted h =
    let made : entry path.value (fresh_edits path state) push edits ≡ result = ground arith in
    (
      subst IsSorted made (entry-IsSorted path.value (fresh_edits path state) push edits sorted),
      subst
          (λ m. get p m ≡ (
            if bytes_eq path.value p
            then some (push (or_default (fresh_edits path state) (get path.value edits)))
            else get p edits))
          made (get-entry p path.value (fresh_edits path state) push edits sorted),
    )

fresh_edits-StartsFrom :
    (path : WorkspaceRelativePath) (state : SnapshotState)
    → StartsFrom state (fresh_edits path state)
      × ((fresh_edits path state).path.value ≡ path.value)
      × ((fresh_edits path state).deletions ≡ [])
      × ((fresh_edits path state).insertions ≡ [])
unfolding fresh_edits
fresh_edits-StartsFrom path (existing file) = ((refl, refl), refl, refl, refl)
fresh_edits-StartsFrom path (absent _) = ((refl, refl), refl, refl, refl)

length-snoc {ℓ} : {A : Type ℓ} (xs : List A) (x : A) → 0 < length (xs ++ (x ∷ []))
length-snoc xs x = omega (arith, length-append xs (x ∷ []))

deleted-Has :
    (states : StatesByPath) (path : WorkspaceRelativePath) (state : SnapshotState) (index : ℕ)
    (range : ByteRange) (deletions : List (ℕ × ByteRange)) (insertions : List (ℕ × Insertion))
    (found : Option OutputEdits)
    → get path.value states ≡ some state
    → Has states path.value deletions insertions found
    → Has states path.value
        (deletions ++ ((index, range) ∷ []))
        insertions
        (some (add_deletion index range (or_default (fresh_edits path state) found)))
deleted-Has states path state index range deletions insertions none known (d, i) =
    let (starts, p, fd, fi) = fresh_edits-StartsFrom path state in
    (
      p,
      ap (λ l. l ++ ((index, range) ∷ [])) (fd ∙ sym d),
      fi ∙ sym i,
      omega (arith, length-snoc deletions (index, range)),
      state,
      known,
      starts,
    )
deleted-Has states path state index range deletions insertions (some e) known
      (p, d, i, n, s, k, starts) =
    (
      p,
      ap (λ l. l ++ ((index, range) ∷ [])) d,
      i,
      omega (arith, length-snoc deletions (index, range)),
      s,
      k,
      starts,
    )

inserted-Has :
    (states : StatesByPath) (path : WorkspaceRelativePath) (state : SnapshotState) (offset : ℕ)
    (insertion : Insertion) (deletions : List (ℕ × ByteRange)) (insertions : List (ℕ × Insertion))
    (found : Option OutputEdits)
    → get path.value states ≡ some state
    → Has states path.value deletions insertions found
    → Has states path.value deletions
        (insertions ++ ((offset, insertion) ∷ []))
        (some (add_edit_insertion offset insertion (or_default (fresh_edits path state) found)))
inserted-Has states path state offset insertion deletions insertions none known (d, i) =
    let (starts, p, fd, fi) = fresh_edits-StartsFrom path state in
    (
      p,
      fd ∙ sym d,
      ap (λ l. l ++ ((offset, insertion) ∷ [])) (fi ∙ sym i),
      omega (arith, length-snoc insertions (offset, insertion)),
      state,
      known,
      starts,
    )
inserted-Has states path state offset insertion deletions insertions (some e) known
      (p, d, i, n, s, k, starts) =
    (
      p,
      d,
      ap (λ l. l ++ ((offset, insertion) ∷ [])) i,
      omega (arith, length-snoc insertions (offset, insertion)),
      s,
      k,
      starts,
    )

-- The edits of all paths are those that the requests ask for.
pub record AreAsked (states : StatesByPath) (requests : List Request) (edits : EditsByPath)
    : Type 0 where
  pub sorted : IsSorted edits
  pub each :
      (path : Bytes)
      → Has states path (deletions_of path requests) (insertions_of path requests) (get path edits)

-- The deletion that a request asks for is pushed.
push_deletion :
    (states : StatesByPath) (kind : OperationKind) (o : ResolvedOperation) (source : FileSnapshot)
    (deletions : Bytes → List (ℕ × ByteRange)) (insertions : Bytes → List (ℕ × Insertion))
    (edits result : EditsByPath)
    → get o.source_path.value states ≡ some (existing source)
    → IsSorted edits
    → ((p : Bytes) → Has states p (deletions p) (insertions p) (get p edits))
    → (if kind_is_move kind
        then output_edits o.source_path
            (existing source)
            (add_deletion o.operation_index o.source_range)
            edits
        else ok edits)
      ≡ ok result
    → IsSorted result
      × ((p : Bytes)
          → Has states p (deletions p ++ deletes kind changed p o) (insertions p) (get p result))
unfolding deletes
push_deletion states copy_kind o source deletions insertions edits result known sorted has h =
    let same : edits ≡ result = ok_injective edits result h in
    (
      subst IsSorted same sorted,
      λ p.
          subst (λ l. Has states p l (insertions p) (get p result)) (sym (append-nil (deletions p)))
            (subst (λ m. Has states p (deletions p) (insertions p) (get p m)) same (has p)),
    )
push_deletion states move_kind o source deletions insertions edits result known sorted has h =
    let push = add_deletion o.operation_index o.source_range in
    let left : (p : Bytes)
        → IsSorted result
          × (get p result ≡ (
              if bytes_eq o.source_path.value p
              then some (
                  push (
                    or_default (fresh_edits o.source_path (existing source))
                      (get o.source_path.value edits)))
              else get p edits)) =
      λ p. output_edits-get o.source_path (existing source) push edits result p sorted h in
    (
      (left []).0,
      λ p. elim (Bool-cases (bytes_eq o.source_path.value p)) [
        | inl same ↦
            let at_p : o.source_path.value ≡ p = bytes_eq→eq o.source_path.value p same in
            let there : get p result
                ≡ some (
                    push (
                      or_default (fresh_edits o.source_path (existing source))
                        (get o.source_path.value edits))) =
              (left p).1 ∙ rw same refl in
            rw (same, there)
              (subst
                (λ q.
                  Has states q (deletions q ++ ((o.operation_index, o.source_range) ∷ []))
                    (insertions q)
                    (some (
                      push (
                        or_default (fresh_edits o.source_path (existing source))
                          (get o.source_path.value edits)))))
                at_p
                (deleted-Has states o.source_path (existing source) o.operation_index o.source_range
                  (deletions o.source_path.value) (insertions o.source_path.value)
                  (get o.source_path.value edits) known (has o.source_path.value)))
        | inr other ↦
            let there : get p result ≡ get p edits = (left p).1 ∙ rw other refl in
            rw (other, there, append-nil (deletions p)) (has p)
      ],
    )

-- The insertion that a request asks for is pushed.
push_insertion :
    (states : StatesByPath) (o : ResolvedOperation) (source : FileSnapshot)
    (destination : SnapshotState) (deletions : Bytes → List (ℕ × ByteRange))
    (insertions : Bytes → List (ℕ × Insertion)) (edits result : EditsByPath)
    → get o.destination_path.value states ≡ some destination
    → IsSorted edits
    → ((p : Bytes) → Has states p (deletions p) (insertions p) (get p edits))
    → output_edits o.destination_path destination
        (add_edit_insertion o.destination_offset (record {
          operation_index = o.operation_index;
          snapshot_file_id = source.id;
          range = o.source_range;
          payload_digest = o.selected_digest;
        }))
        edits
      ≡ ok result
    → IsSorted result
      × ((p : Bytes)
          → Has states p
              (deletions p)
              (insertions p ++ inserts changed p (o, source, destination))
              (get p result))
unfolding inserts
push_insertion states o source destination deletions insertions edits result known sorted has h =
    let added : Insertion = record {
      operation_index = o.operation_index;
      snapshot_file_id = source.id;
      range = o.source_range;
      payload_digest = o.selected_digest;
    } in
    let push = add_edit_insertion o.destination_offset added in
    let left : (p : Bytes)
        → IsSorted result
          × (get p result ≡ (
              if bytes_eq o.destination_path.value p
              then some (
                  push (
                    or_default (fresh_edits o.destination_path destination)
                      (get o.destination_path.value edits)))
              else get p edits)) =
      λ p. output_edits-get o.destination_path destination push edits result p sorted h in
    (
      (left []).0,
      λ p. elim (Bool-cases (bytes_eq o.destination_path.value p)) [
        | inl same ↦
            let at_p : o.destination_path.value ≡ p = bytes_eq→eq o.destination_path.value p same in
            let there : get p result
                ≡ some (
                    push (
                      or_default (fresh_edits o.destination_path destination)
                        (get o.destination_path.value edits))) =
              (left p).1 ∙ rw same refl in
            rw (same, there)
              (subst
                (λ q.
                  Has states q (deletions q) (insertions q ++ ((o.destination_offset, added) ∷ []))
                    (some (
                      push (
                        or_default (fresh_edits o.destination_path destination)
                          (get o.destination_path.value edits)))))
                at_p
                (inserted-Has states o.destination_path destination o.destination_offset added
                  (deletions o.destination_path.value) (insertions o.destination_path.value)
                  (get o.destination_path.value edits) known (has o.destination_path.value)))
        | inr other ↦
            let there : get p result ≡ get p edits = (left p).1 ∙ rw other refl in
            rw (other, there, append-nil (insertions p)) (has p)
      ],
    )

deletes-no_op :
    (kind : OperationKind) (path : Bytes) (o : ResolvedOperation) → deletes kind no_op path o ≡ []
unfolding deletes
deletes-no_op move_kind path o = refl
deletes-no_op copy_kind path o = refl

-- The requests with one more at the end.
deletions_of-snoc :
    (path : Bytes) (requests : List Request) (r : Request)
    → deletions_of path (requests ++ (r ∷ []))
      ≡ deletions_of path requests ++ deletes r.0.kind r.0.effect path r.0
unfolding deletions_of
deletions_of-snoc path requests r =
    deletions_of-append path requests (r ∷ [])
    ∙ ap (λ l. deletions_of path requests ++ l) (append-nil (deletes r.0.kind r.0.effect path r.0))

insertions_of-snoc :
    (path : Bytes) (requests : List Request) (r : Request)
    → insertions_of path (requests ++ (r ∷ []))
      ≡ insertions_of path requests ++ inserts r.0.effect path r
unfolding insertions_of
insertions_of-snoc path requests r =
    insertions_of-append path requests (r ∷ [])
    ∙ ap (λ l. insertions_of path requests ++ l) (append-nil (inserts r.0.effect path r))

-- One request more.
pub record_edits-AreAsked :
    (states : StatesByPath) (requests : List Request) (o : ResolvedOperation)
    (source : FileSnapshot) (destination : SnapshotState) (edits result : EditsByPath)
    → get o.source_path.value states ≡ some (existing source)
    → get o.destination_path.value states ≡ some destination
    → AreAsked states requests edits
    → record_edits o source destination edits ≡ ok result
    → AreAsked states (requests ++ ((o, source, destination) ∷ [])) result
unfolding record_edits inserts
record_edits-AreAsked states requests o source destination edits result from_known to_known asked
      h =
    let r : Request = (o, source, destination) in
    let close : (effect : OperationEffect)
        → o.effect ≡ effect
        → IsSorted result
        → ((p : Bytes)
            → Has states p (deletions_of p requests ++ deletes o.kind effect p o)
                (insertions_of p requests ++ inserts effect p r) (get p result))
        → AreAsked states (requests ++ (r ∷ [])) result =
      λ effect is sorted has. record {
        sorted = sorted;
        each = λ p.
            rw (deletions_of-snoc p requests r, insertions_of-snoc p requests r)
              (subst
                (λ x.
                  Has states p (deletions_of p requests ++ deletes o.kind x p o)
                    (insertions_of p requests ++ inserts x p r) (get p result))
                (sym is) (has p));
      } in
    elim (effect-cases o.effect) [
      | inl still ↦
          let kept : edits ≡ result = ok_injective edits result (rw still at h) in
          close no_op still (subst IsSorted kept asked.sorted) (λ p.
            rw
              (
                deletes-no_op o.kind p o,
                append-nil (deletions_of p requests),
                append-nil (insertions_of p requests),
                sym kept,
              )
              (asked.each p))
      | inr moves ↦
          let (deleted, a, b) =
            >>=-eq-ok
              (if kind_is_move o.kind
                then output_edits o.source_path (existing source)
                    (add_deletion o.operation_index o.source_range) edits
                else ok edits)
              _ (rw moves at h) in
          let (sorted, has) =
            push_deletion states o.kind o source (λ p. deletions_of p requests)
              (λ p. insertions_of p requests) edits deleted from_known asked.sorted asked.each a in
          let (sorted', has') =
            push_insertion states o source destination
              (λ p. deletions_of p requests ++ deletes o.kind changed p o)
              (λ p. insertions_of p requests) deleted result to_known sorted has b in
          close changed moves sorted' has'
    ]

-- No request asks for no edits.
pub none-AreAsked : (states : StatesByPath) → AreAsked states [] []
unfolding get deletions_of insertions_of
none-AreAsked states = record { sorted = tt; each = λ path. (refl, refl) }
