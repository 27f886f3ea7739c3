-- ===== src/Planner/Output/Batch.antt =====
-- `resolve_operations`: the edits of a whole batch fit their outputs.
use srcmv.Base.{Bytes, ℕ, ◌+◌, ◌≡◌, ap, ◌∙◌, Option, none, some, List, [], ◌∷◌, ◌++◌, arith, subst}
use srcmv.Base.Ordered.{get, nat_key, bytes_key}
use srcmv.Domain.Errors.{CoreError, ok, ok_or, >>=-eq-ok, ok_injective}
use srcmv.Domain.Types.{
  Sha256Digest, Precondition, must_not_exist, OperationSpecification, Operation, FileSnapshot,
  ResolvedOperation,
}
use srcmv.Planner.Resolve.{
  SnapshotState, existing, absent, StatesByPath, FilesById, operation_parts, source_with_digest,
  existing_source_for, existing_source, match_destination, destination_state, resolve_selector,
  resolve_anchor, digest_range,
}
use srcmv.Planner.Edits.{EditsByPath}
use srcmv.Planner.Plan.{record_edits, resolve_operation, resolve_operations}
use srcmv.Planner.Selection.{resolve_selector-in_file, resolve_anchor-in_file}
use srcmv.Planner.Output.Indexed.{Coherent}
use srcmv.Planner.Output.Fitting.{AllFit}
use srcmv.Planner.Output.Recorded.{StateHolds-IsIndexed, Lies, record_edits-AllFit}

source_with_digest-existing :
    (found : Option SnapshotState) (expected : Sha256Digest) (index : ℕ) (source : FileSnapshot)
    → source_with_digest found expected index ≡ ok source
    → found ≡ some (existing source)
unfolding source_with_digest
source_with_digest-existing none expected index source h = cc
source_with_digest-existing (some (absent path)) expected index source h = cc
source_with_digest-existing (some (existing file)) expected index source h = ground arith

existing_source_for-existing :
    (precondition : Precondition) (states : StatesByPath) (specification : OperationSpecification)
    (index : ℕ) (source : FileSnapshot)
    → existing_source_for precondition states specification index ≡ ok source
    → get specification.source.path.value states ≡ some (existing source)
unfolding existing_source_for
existing_source_for-existing (Precondition.sha256 expected) states specification index source h =
    source_with_digest-existing _ expected index source h
existing_source_for-existing must_not_exist states specification index source h = cc

pub existing_source-existing :
    (states : StatesByPath) (specification : OperationSpecification) (index : ℕ)
    (source : FileSnapshot)
    → existing_source states specification index ≡ ok source
    → get specification.source.path.value states ≡ some (existing source)
unfolding existing_source
existing_source-existing states specification index source h =
    existing_source_for-existing specification.source.precondition states specification index source
      h

match_destination-eq :
    (precondition : Precondition) (found state : SnapshotState) (index : ℕ)
    → match_destination precondition found index ≡ ok state
    → found ≡ state
unfolding match_destination
match_destination-eq (Precondition.sha256 expected) (existing file) state index h = ground arith
match_destination-eq (Precondition.sha256 expected) (absent path) state index h = ground arith
match_destination-eq must_not_exist (existing file) state index h = ground arith
match_destination-eq must_not_exist (absent path) state index h = ground arith

ok_or-eq :
    (error : CoreError) (found : Option SnapshotState) (state : SnapshotState)
    → ok_or error found ≡ ok state
    → found ≡ some state
ok_or-eq error none state h = cc
ok_or-eq error (some found) state h = cc

pub destination_state-get :
    (states : StatesByPath) (specification : OperationSpecification) (index : ℕ)
    (state : SnapshotState)
    → destination_state states specification index ≡ ok state
    → get specification.destination.path.value states ≡ some state
unfolding destination_state
destination_state-get states specification index state h =
    let (found, looked, matched) = >>=-eq-ok _ _ h in
    let same =
      match_destination-eq specification.destination.precondition found state index matched in
    ok_or-eq _ _ state (looked ∙ ap ok same)

-- What resolution returns lies in the files that the index holds.
resolve_operation-Lies :
    (sha256_of : Bytes → Sha256Digest) (states : StatesByPath) (files_by_id : FilesById) (index : ℕ)
    (operation : Operation) (result : ResolvedOperation × FileSnapshot × SnapshotState)
    → Coherent states files_by_id
    → resolve_operation sha256_of states index operation ≡ ok result
    → Lies files_by_id result.0 result.1 result.2
unfolding resolve_operation
resolve_operation-Lies sha256_of states files_by_id index operation result coherent h =
    let specification = (operation_parts operation).1 in
    let (source, a, h1) = >>=-eq-ok (existing_source states specification index) _ h in
    let (range, b, h2) =
      >>=-eq-ok (resolve_selector source specification.source.selector index) _ h1 in
    let (digest, c, h3) = >>=-eq-ok (digest_range sha256_of source range) _ h2 in
    let (destination, d, h4) = >>=-eq-ok (destination_state states specification index) _ h3 in
    let (offset, e, h5) =
      >>=-eq-ok (resolve_anchor destination specification.destination.anchor index) _ h4 in
    let source_held =
      coherent specification.source.path.value (existing source)
        (existing_source-existing states specification index source a) in
    let held =
      coherent specification.destination.path.value destination
        (destination_state-get states specification index destination d) in
    let inside =
      resolve_selector-in_file source specification.source.selector index range source_held.1 b in
    let below =
      resolve_anchor-in_file destination specification.destination.anchor index offset
        (StateHolds-IsIndexed files_by_id destination held) e in
    subst (λ (r : ResolvedOperation × FileSnapshot × SnapshotState). Lies files_by_id r.0 r.1 r.2)
      (ok_injective _ result h5) (source_held, held, inside.0, inside.1, below)

pub resolve_operations-AllFit :
    (sha256_of : Bytes → Sha256Digest) (states : StatesByPath) (files_by_id : FilesById) (index : ℕ)
    (operations : List Operation) (resolved : List ResolvedOperation) (edits : EditsByPath)
    (result : List ResolvedOperation × EditsByPath)
    → Coherent states files_by_id
    → AllFit files_by_id edits
    → resolve_operations sha256_of states index operations resolved edits ≡ ok result
    → AllFit files_by_id result.1
unfolding resolve_operations
resolve_operations-AllFit sha256_of states files_by_id index [] resolved edits result coherent fit
      h =
    subst (λ (r : List ResolvedOperation × EditsByPath). AllFit files_by_id r.1)
      (ok_injective _ result h) fit
resolve_operations-AllFit sha256_of states files_by_id index (operation ∷ operations) resolved edits
      result coherent fit h =
    let (one, a, h1) = >>=-eq-ok (resolve_operation sha256_of states index operation) _ h in
    let (edits', b, h2) = >>=-eq-ok (record_edits one.0 one.1 one.2 edits) _ h1 in
    resolve_operations-AllFit sha256_of states files_by_id (index + 1) operations
      (resolved ++ (one.0 ∷ [])) edits' result coherent
      (record_edits-AllFit files_by_id one.0 one.1 one.2 edits edits'
        (resolve_operation-Lies sha256_of states files_by_id index operation one coherent a) fit b)
      h2
