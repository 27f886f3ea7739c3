-- ===== src/Planner/Output/Recorded.antt =====
-- `record_edits`: the edits of one operation fit their outputs.
use srcmv.Base.{
  Bool-cases, length, All-append, Bytes, ℕ, ◌≤◌, ◌<◌, ◌≡◌, refl, ◌⊎◌, inl, inr, Option, some, arith,
  subst,
}
use srcmv.Base.Ordered.{get, nat_key, bytes_key}
use srcmv.Domain.Errors.{ok, >>=-eq-ok}
use srcmv.Domain.Types.{FileSnapshot, ByteRange, OperationEffect, changed, no_op, ResolvedOperation}
use srcmv.Planner.Resolve.{SnapshotState, existing, absent, FilesById, slice_range}
use srcmv.Planner.Edits.{Insertion, OutputEdits, payload, EditsByPath, output_edits}
use srcmv.Planner.Stream.{segment_bytes}
use srcmv.Planner.Plan.{kind_is_move, add_deletion, add_edit_insertion, record_edits}
use srcmv.Planner.Selection.{IsIndexed, content_length}
use srcmv.Planner.Splice.Spec.{slice}
use srcmv.Planner.Output.Planned.{content_of, EditsFit}
use srcmv.Planner.Output.Indexed.{StateHolds}
use srcmv.Planner.Output.Fitting.{bytes_of, AllFit, output_edits-AllFit}

add_deletion-EditsFit :
    (files_by_id : FilesById) (index : ℕ) (range : ByteRange) (content : Bytes)
    (edits : OutputEdits)
    → range.start < range.end
    → range.end ≤ length content
    → EditsFit files_by_id edits (some content)
    → EditsFit files_by_id (add_deletion index range edits) (some content)
add_deletion-EditsFit files_by_id index range content edits order inside fit = record {
  found = fit.found;
  whole = fit.whole;
  deletions_in = All-append _ edits.deletions _ fit.deletions_in ((order, inside), tt);
  insertions_in = fit.insertions_in;
  payloads_found = fit.payloads_found;
}

add_edit_insertion-EditsFit :
    (files_by_id : FilesById) (offset : ℕ) (insertion : Insertion) (original : Option Bytes)
    (content : Bytes) (edits : OutputEdits)
    → offset ≤ length (content_of original)
    → segment_bytes files_by_id (payload insertion) ≡ ok content
    → EditsFit files_by_id edits original
    → EditsFit files_by_id (add_edit_insertion offset insertion edits) original
add_edit_insertion-EditsFit files_by_id offset insertion original content edits inside bytes fit =
    record {
      found = fit.found;
      whole = fit.whole;
      deletions_in = fit.deletions_in;
      insertions_in = All-append _ edits.insertions _ fit.insertions_in (inside, tt);
      payloads_found = All-append _ edits.insertions _ fit.payloads_found ((content, bytes), tt);
    }

content_length-bytes_of :
    (state : SnapshotState) → content_length state ≡ length (content_of (bytes_of state))
content_length-bytes_of (existing file) = refl
content_length-bytes_of (absent path) = refl

pub StateHolds-IsIndexed :
    (files_by_id : FilesById) (state : SnapshotState)
    → StateHolds files_by_id state
    → IsIndexed state
StateHolds-IsIndexed files_by_id (existing file) (found, indexed) = indexed
StateHolds-IsIndexed files_by_id (absent path) held = tt

-- What `resolve_operation` returns beside the record, and how it lies in its files.
abbrev pub Lies : FilesById → ResolvedOperation → FileSnapshot → SnapshotState → Type 0
Lies files_by_id operation source destination =
    StateHolds files_by_id (existing source)
    × StateHolds files_by_id destination
    × (operation.source_range.start < operation.source_range.end)
    × (operation.source_range.end ≤ length source.content)
    × (operation.destination_offset ≤ content_length destination)

payload-bytes :
    (files_by_id : FilesById) (insertion : Insertion) (source : FileSnapshot)
    → get insertion.snapshot_file_id files_by_id ≡ some source
    → insertion.range.start ≤ insertion.range.end
    → insertion.range.end ≤ length source.content
    → segment_bytes files_by_id (payload insertion)
      ≡ ok (slice insertion.range.start insertion.range.end source.content)
unfolding segment_bytes slice_range
payload-bytes files_by_id insertion source found order inside = rw found (ground arith)

pub effect-cases : (effect : OperationEffect) → (effect ≡ no_op) ⊎ (effect ≡ changed)
effect-cases no_op = inl refl
effect-cases changed = inr refl

-- The edits of one operation fit.
pub record_edits-AllFit :
    (files_by_id : FilesById) (operation : ResolvedOperation) (source : FileSnapshot)
    (destination : SnapshotState) (edits result : EditsByPath)
    → Lies files_by_id operation source destination
    → AllFit files_by_id edits
    → record_edits operation source destination edits ≡ ok result
    → AllFit files_by_id result
unfolding record_edits
record_edits-AllFit files_by_id operation source destination edits result
      (source_held, held, order, inside, offset_inside) fit h =
    let insertion : Insertion = record {
      operation_index = operation.operation_index;
      snapshot_file_id = source.id;
      range = operation.source_range;
      payload_digest = operation.selected_digest;
    } in
    let bytes = payload-bytes files_by_id insertion source source_held.0 (omega arith) inside in
    let place : operation.destination_offset ≤ length (content_of (bytes_of destination)) =
      omega (arith, content_length-bytes_of destination) in
    let insert_fits : (deleted : EditsByPath)
        → AllFit files_by_id deleted
        → output_edits operation.destination_path destination
            (add_edit_insertion operation.destination_offset insertion) deleted
          ≡ ok result
        → AllFit files_by_id result =
      λ deleted deleted_fit pushed.
        output_edits-AllFit files_by_id operation.destination_path destination
          (add_edit_insertion operation.destination_offset insertion) deleted result held
          (λ v v_fit.
            add_edit_insertion-EditsFit files_by_id operation.destination_offset insertion
              (bytes_of destination) _ v place bytes v_fit)
          deleted_fit pushed in
    elim (effect-cases operation.effect) [
      | inl still ↦
          let same : ok edits ≡ ok result = rw still at h in
          let eq : edits ≡ result = cc in subst (AllFit files_by_id) eq fit
      | inr acts ↦ elim (Bool-cases (kind_is_move operation.kind)) [
        | inr copies ↦ insert_fits edits fit (rw (acts, copies) at h)
        | inl moves ↦
            let (deleted, removed, pushed) =
              >>=-eq-ok
                (output_edits operation.source_path (existing source)
                  (add_deletion operation.operation_index operation.source_range) edits)
                _ (rw (acts, moves) at h) in
            insert_fits deleted
              (output_edits-AllFit files_by_id operation.source_path (existing source)
                (add_deletion operation.operation_index operation.source_range) edits deleted
                source_held
                (λ v v_fit.
                  add_deletion-EditsFit files_by_id operation.operation_index operation.source_range
                    source.content v order inside v_fit)
                fit removed)
              pushed
      ]
    ]
