-- ===== src/Planner/Output/Resolved.antt =====
-- `resolve_operations`: what each operation of a batch resolves to, and the edits of them all.
use srcmv.Planner.Selection.{
  IsSelected, IsAnchored, IsIndexed, resolve_selector-IsSelected, resolve_selector-in_file,
  resolve_anchor-IsAnchored,
}
use srcmv.Base.{
  length, ◌≤◌, ◌<◌, ==_iff, Bytes, bytes_eq→eq, ℕ, ◌+◌, ◌≡◌, refl, sym, ◌∙◌, ◌↔◌, ◌⊎◌, Option, none,
  some, List, [], ◌∷◌, ◌++◌, map, append-nil, append_assoc, arith, subst,
}
use srcmv.Base.Ordered.{bytes_eq_iff, get, nat_key, bytes_key}
use srcmv.Domain.Errors.{Reason, ok, ok_or, >>=-eq-ok, ok_injective}
use srcmv.Domain.Types.{
  Sha256Digest, Precondition, must_not_exist, OperationSpecification, Operation, FileSnapshot,
  ByteRange, OperationKind, move_kind, copy_kind, no_op, ResolvedOperation,
}
use srcmv.Planner.Resolve.{
  SnapshotState, existing, absent, StatesByPath, conflict, source_with_digest, existing_source_for,
  existing_source, match_destination, destination_state, resolve_selector, resolve_anchor,
  slice_range, digest_range,
}
use srcmv.Planner.Edits.{EditsByPath}
use srcmv.Planner.Plan.{operation_effect, record_edits, resolve_operation, resolve_operations}
use srcmv.Planner.Splice.Spec.{slice}
use srcmv.Planner.Output.Asked.{Request, AreAsked, record_edits-AreAsked}
use srcmv.Planner.Output.Batch.{existing_source-existing, destination_state-get}

abbrev kind_asked : Operation → OperationKind
kind_asked (Operation.move specification) = move_kind
kind_asked (Operation.copy specification) = copy_kind

abbrev asked_for : Operation → OperationSpecification
asked_for (Operation.move specification) = specification
asked_for (Operation.copy specification) = specification

-- A destination is in the state that its precondition names.
abbrev IsExpected : Precondition → SnapshotState → Type 0
IsExpected (Precondition.sha256 expected) (existing file) = expected ≡ file.digest
IsExpected must_not_exist (absent _) = Unit
IsExpected must_not_exist (existing file) = ⊥
IsExpected (Precondition.sha256 expected) (absent _) = ⊥

-- The files among the states carry the indexes of their lines.
abbrev pub AllStatesIndexed : StatesByPath → Type 0
AllStatesIndexed states =
    (path : Bytes) (state : SnapshotState) → get path states ≡ some state → IsIndexed state

-- What one operation resolves to.
pub record IsResolved (sha256_of : Bytes → Sha256Digest) (states : StatesByPath) (index : ℕ)
    (operation : Operation) (request : Request) : Type 0 where
  pub numbered : request.0.operation_index ≡ index
  pub kind_is : request.0.kind ≡ kind_asked operation
  pub from_path : request.0.source_path ≡ (asked_for operation).source.path
  pub to_path : request.0.destination_path ≡ (asked_for operation).destination.path
  pub source_known : get request.0.source_path.value states ≡ some (existing request.1)
  pub destination_known : get request.0.destination_path.value states ≡ some request.2
  pub source_expected :
      (asked_for operation).source.precondition ≡ Precondition.sha256 request.1.digest
  pub destination_expected : IsExpected (asked_for operation).destination.precondition request.2
  pub selected : IsSelected request.1 (asked_for operation).source.selector request.0.source_range
  pub in_source :
      (request.0.source_range.start < request.0.source_range.end)
      × (request.0.source_range.end ≤ length request.1.content)
  pub digested :
      request.0.selected_digest
      ≡ sha256_of (slice request.0.source_range.start request.0.source_range.end request.1.content)
  pub placed :
      IsAnchored request.2 (asked_for operation).destination.anchor request.0.destination_offset
  pub in_place : (request.0.effect ≡ no_op) ↔ (
      (kind_asked operation ≡ move_kind)
      × ((asked_for operation).source.path.value ≡ (asked_for operation).destination.path.value)
      × ((request.0.destination_offset ≡ request.0.source_range.start)
          ⊎ (request.0.destination_offset ≡ request.0.source_range.end)))

-- Every operation of a batch, in order.
abbrev pub AllResolved :
    (Bytes → Sha256Digest) → StatesByPath → ℕ → List Operation → List Request → Type 0
AllResolved sha256_of states index [] [] = Unit
AllResolved sha256_of states index (o ∷ operations) (r ∷ requests) =
    IsResolved sha256_of states index o r
    × AllResolved sha256_of states (index + 1) operations requests
AllResolved sha256_of states index [] (r ∷ requests) = ⊥
AllResolved sha256_of states index (o ∷ operations) [] = ⊥

expected_source :
    (precondition : Precondition) (states : StatesByPath) (specification : OperationSpecification)
    (index : ℕ) (source : FileSnapshot)
    → existing_source_for precondition states specification index ≡ ok source
    → precondition ≡ Precondition.sha256 source.digest
unfolding existing_source_for source_with_digest
expected_source must_not_exist states specification index source h = cc
expected_source (Precondition.sha256 expected) states specification index source h =
    go (get specification.source.path.value states) h
  where
    go :
        (found : Option SnapshotState)
        → source_with_digest found expected index ≡ ok source
        → Precondition.sha256 expected ≡ Precondition.sha256 source.digest
    go none k = cc
    go (some (absent _)) k = cc
    go (some (existing file)) k =
        let it : file ≡ source = ground arith in
        let same : file.digest ≡ expected = ground (arith, bytes_eq→eq file.digest expected) in cc

IsExpected-destination :
    (precondition : Precondition) (found state : SnapshotState) (index : ℕ)
    → match_destination precondition found index ≡ ok state
    → IsExpected precondition state
unfolding match_destination
IsExpected-destination (Precondition.sha256 expected) (existing file) state index h =
    let same : existing file ≡ state = ground arith in
    subst (IsExpected (Precondition.sha256 expected)) same
      (ground (arith, bytes_eq→eq expected file.digest))
IsExpected-destination (Precondition.sha256 expected) (absent path) state index h = cc
IsExpected-destination must_not_exist (existing file) state index h = cc
IsExpected-destination must_not_exist (absent path) state index h =
    subst (IsExpected must_not_exist) (ok_injective (absent path) state h) tt

digest_range-slice :
    (sha256_of : Bytes → Sha256Digest) (file : FileSnapshot) (range : ByteRange)
    (digest : Sha256Digest)
    → digest_range sha256_of file range ≡ ok digest
    → digest ≡ sha256_of (slice range.start range.end file.content)
unfolding digest_range slice_range
digest_range-slice sha256_of file range digest h = ground arith

operation_effect-no_op :
    (operation : Operation) (range : ByteRange) (offset : ℕ)
    → (operation_effect (kind_asked operation) (asked_for operation) range offset ≡ no_op) ↔ (
        (kind_asked operation ≡ move_kind)
        × ((asked_for operation).source.path.value ≡ (asked_for operation).destination.path.value)
        × ((offset ≡ range.start) ⊎ (offset ≡ range.end)))
unfolding operation_effect
operation_effect-no_op (Operation.move s) range offset =
    let paths = bytes_eq_iff s.source.path.value s.destination.path.value in
    ground (arith, ==_iff offset range.start, ==_iff offset range.end)
operation_effect-no_op (Operation.copy s) range offset = ground arith

-- The record that `resolve_operation` makes of what it has found.
abbrev made_of : ℕ → Operation → ByteRange → Sha256Digest → ℕ → ResolvedOperation
made_of index operation range digest offset = record {
  operation_index = index;
  kind = kind_asked operation;
  source_path = (asked_for operation).source.path;
  selector = (asked_for operation).source.selector;
  source_precondition = (asked_for operation).source.precondition;
  source_range = range;
  selected_digest = digest;
  destination_path = (asked_for operation).destination.path;
  anchor = (asked_for operation).destination.anchor;
  destination_precondition = (asked_for operation).destination.precondition;
  destination_offset = offset;
  effect = operation_effect (kind_asked operation) (asked_for operation) range offset;
}

IsResolved-as :
    (sha256_of : Bytes → Sha256Digest) (states : StatesByPath) (index : ℕ) (operation : Operation)
    (source : FileSnapshot) (range : ByteRange) (digest : Sha256Digest)
    (destination : SnapshotState) (offset : ℕ)
    → AllStatesIndexed states
    → existing_source states (asked_for operation) index ≡ ok source
    → resolve_selector source (asked_for operation).source.selector index ≡ ok range
    → digest_range sha256_of source range ≡ ok digest
    → destination_state states (asked_for operation) index ≡ ok destination
    → resolve_anchor destination (asked_for operation).destination.anchor index ≡ ok offset
    → IsResolved sha256_of states index operation
        (made_of index operation range digest offset, source, destination)
unfolding existing_source destination_state
IsResolved-as sha256_of states index operation source range digest destination offset indexed a b c
      d e =
    let known = existing_source-existing states (asked_for operation) index source a in
    let there = destination_state-get states (asked_for operation) index destination d in
    let lines = indexed _ (existing source) known in
    let (found, looked, matched) =
      >>=-eq-ok
        (ok_or (conflict Reason.destination_not_in_snapshot index)
          (get (asked_for operation).destination.path.value states))
        _ d in
    record {
      numbered = refl;
      kind_is = refl;
      from_path = refl;
      to_path = refl;
      source_known = known;
      destination_known = there;
      source_expected =
          expected_source (asked_for operation).source.precondition states (asked_for operation)
            index source a;
      destination_expected =
          IsExpected-destination (asked_for operation).destination.precondition found destination
            index matched;
      selected =
          resolve_selector-IsSelected source (asked_for operation).source.selector index range lines
            b;
      in_source =
          resolve_selector-in_file source (asked_for operation).source.selector index range lines b;
      digested = digest_range-slice sha256_of source range digest c;
      placed =
          resolve_anchor-IsAnchored destination (asked_for operation).destination.anchor index
            offset (indexed _ destination there) e;
      in_place = operation_effect-no_op operation range offset;
    }

resolve_operation-IsResolved :
    (sha256_of : Bytes → Sha256Digest) (states : StatesByPath) (index : ℕ) (operation : Operation)
    (result : Request)
    → AllStatesIndexed states
    → resolve_operation sha256_of states index operation ≡ ok result
    → IsResolved sha256_of states index operation result
unfolding resolve_operation
resolve_operation-IsResolved sha256_of states index (Operation.move s) result indexed h =
    let operation = Operation.move s in
    let (source, a, h1) = >>=-eq-ok (existing_source states s index) _ h in
    let (range, b, h2) = >>=-eq-ok (resolve_selector source s.source.selector index) _ h1 in
    let (digest, c, h3) = >>=-eq-ok (digest_range sha256_of source range) _ h2 in
    let (destination, d, h4) = >>=-eq-ok (destination_state states s index) _ h3 in
    let (offset, e, h5) = >>=-eq-ok (resolve_anchor destination s.destination.anchor index) _ h4 in
    subst (IsResolved sha256_of states index operation) (ok_injective _ result h5) (
      IsResolved-as sha256_of states index operation source range digest destination offset indexed
        a b c d e)
resolve_operation-IsResolved sha256_of states index (Operation.copy s) result indexed h =
    let operation = Operation.copy s in
    let (source, a, h1) = >>=-eq-ok (existing_source states s index) _ h in
    let (range, b, h2) = >>=-eq-ok (resolve_selector source s.source.selector index) _ h1 in
    let (digest, c, h3) = >>=-eq-ok (digest_range sha256_of source range) _ h2 in
    let (destination, d, h4) = >>=-eq-ok (destination_state states s index) _ h3 in
    let (offset, e, h5) = >>=-eq-ok (resolve_anchor destination s.destination.anchor index) _ h4 in
    subst (IsResolved sha256_of states index operation) (ok_injective _ result h5) (
      IsResolved-as sha256_of states index operation source range digest destination offset indexed
        a b c d e)

-- What the loop makes of the operations, behind the requests it has had.
pub record Recorded (sha256_of : Bytes → Sha256Digest) (states : StatesByPath) (index : ℕ)
    (operations : List Operation) (before : List Request) (resolved : List ResolvedOperation)
    (result : List ResolvedOperation × EditsByPath) : Type 0 where
  pub requests : List Request
  pub all_resolved : AllResolved sha256_of states index operations requests
  pub listed : result.0 ≡ resolved ++ map (λ r. r.0) requests
  pub asked : AreAsked states (before ++ requests) result.1

pub resolve_operations-Recorded :
    (sha256_of : Bytes → Sha256Digest) (states : StatesByPath) (index : ℕ)
    (operations : List Operation) (before : List Request) (resolved : List ResolvedOperation)
    (edits : EditsByPath) (result : List ResolvedOperation × EditsByPath)
    → AllStatesIndexed states
    → AreAsked states before edits
    → resolve_operations sha256_of states index operations resolved edits ≡ ok result
    → Recorded sha256_of states index operations before resolved result
unfolding resolve_operations
resolve_operations-Recorded sha256_of states index [] before resolved edits result indexed asked h =
    subst (Recorded sha256_of states index [] before resolved)
      (ok_injective (resolved, edits) result h)
      (record {
        requests = [];
        all_resolved = tt;
        listed = sym (append-nil resolved);
        asked = rw (append-nil before) asked;
      })
resolve_operations-Recorded sha256_of states index (operation ∷ operations) before resolved edits
      result indexed asked h =
    let (one, a, h1) = >>=-eq-ok (resolve_operation sha256_of states index operation) _ h in
    let (edits', b, h2) = >>=-eq-ok (record_edits one.0 one.1 one.2 edits) _ h1 in
    let is = resolve_operation-IsResolved sha256_of states index operation one indexed a in
    let asked' =
      record_edits-AreAsked states before one.0 one.1 one.2 edits edits' is.source_known
        is.destination_known asked b in
    let later =
      resolve_operations-Recorded sha256_of states (index + 1) operations (before ++ (one ∷ []))
        (resolved ++ (one.0 ∷ [])) edits' result indexed asked' h2 in
    record {
      requests = one ∷ later.requests;
      all_resolved = (is, later.all_resolved);
      listed = later.listed ∙ append_assoc resolved (one.0 ∷ []) (map (λ r. r.0) later.requests);
      asked =
          subst (λ l. AreAsked states l result.1) (append_assoc before (one ∷ []) later.requests)
            later.asked;
    }
