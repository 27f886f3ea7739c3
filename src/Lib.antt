-- ===== src/Lib.antt =====
-- srcmv: moving and copying byte ranges between the files of a workspace.
--
-- A batch of operations selects line or byte ranges of files and inserts their bytes at anchors
-- of other files or of the same ones. Everything is resolved against one immutable snapshot.
-- The core crate (crates/srcmv-core/src) indexes lines, plans the outputs as lists of segments
-- of the snapshot's files, and names the plan by a digest of its canonical encoding. After an
-- interruption, the filesystem crate (crates/srcmv-fs/src) classifies what it finds at each
-- target, and allows completion, rollback or cleanup. A commit moves each original aside and the
-- candidate into its place, and publishes its progress in a journal of checksummed records.
--
--   Base       lists, bytes, Booleans, sorted association lists for `BTreeMap`, stable sorting
--   Domain     lib.rs: Domain/Types has the records and enums, Domain/Errors `CoreError`,
--              results, and the checked arithmetic of planner.rs and line_metrics.rs
--   Lines      line_metrics.rs: Lines/Scan `next_terminator_end`, `push_line_boundary` and the
--              loops over terminators; Lines/Index `LineIndex`; Lines/Metrics `LineMetrics` and
--              `metrics_for_range`; Lines/Split is the reference, which splits a text into lines
--   PlanHash   plan_hash.rs: PlanHash/Cbor `CborEncoder`, PlanHash/Record the record and its
--              digest; PlanHash/Decode is a reference decoder of heads
--   Planner    planner.rs: Planner/Resolve the snapshot index, preconditions, selectors and
--              anchors; Planner/Edits `output_edits`, `validate_edit_conflicts` and
--              `build_segments`; Planner/Stream `stream_output`, `classify_output`;
--              Planner/Usage `calculate_usage`, `enforce_usage`; Planner/Plan `plan`.
--              Planner/Splice has the byte-by-byte reference of an output, Planner/Output follows
--              it from the snapshot index to the whole plan, Planner/Selection and Planner/Limits
--              are about the ranges and the budget, Planner/Totals about the sums of the usage
--   Recovery   recovery_classifier.rs of crates/srcmv-fs/src: Recovery/State the recorded states of
--              journal.rs and the observations, Recovery/Classify `classify_recovery`;
--              Recovery/Safety and Recovery/Lag what its answers guarantee
--   Fs         lib.rs of crates/srcmv-fs/src: the errors that the next parts return
--   Journal    journal.rs of crates/srcmv-fs/src: Journal/State the snapshots, Journal/Shape
--              `validate_state_shape`, Journal/Transition `validate_state_transition_with_limits`
--              and `validate_state_against_originals`, Journal/Envelope `encode_record` and
--              `decode_record`, Journal/Publish `publish_state`, Journal/Hex `to_prefixed_hex`;
--              Journal/History, Journal/Outcome, Journal/RoundTrip and Journal/Chain follow
--              from them
--   Transaction  transaction.rs of crates/srcmv-fs/src: Transaction/Manifest the targets and
--              fingerprints, Transaction/Filesystem the system calls, Transaction/Run runs with
--              every world that an interruption can leave, Transaction/Observe `observe_target`
--              and `classify_all_targets`, Transaction/Steps `publish_transition` and
--              `complete_target`, Transaction/CommitSteps `complete_commit_steps`,
--              Transaction/RollbackSteps `rollback_target`;
--              Transaction/Stages and Transaction/RollbackStages
--              the stages of a target, Transaction/Hoare the rules for runs,
--              and the other files how a run keeps to the stages
--   Examples   runs on small inputs
--
-- How the code is modelled. An integer is a native natural number; where `u64` arithmetic is
-- checked or saturating, the test against `u64::MAX` is written out, and the targets have a
-- 64-bit `usize`, so that conversions between the two are exact and slice lengths fit. A path
-- is the list of its UTF-8 bytes, whose order is the order of Rust's strings. A `BTreeMap` is
-- an association list in key order; the `HashMap`s are lists too, since nothing observes their
-- order. The names of fields, reasons and resources in errors are enums. A function that
-- fails returns `Result`, and `?` is a do block. A loop over a slice is structural recursion;
-- the loops of `next_terminator_end` run on fuel, the number of bytes, which is enough as each
-- round consumes a byte. A method that changes its receiver returns the new value.
--
-- Parameters: SHA-256 of the sha2 crate is a function from bytes to digests, and a hasher is the
-- bytes that it was fed; `size_of` of the retained records is a record of three numbers. JSON of
-- the serde_json crate is a `Codec`: a writer, and a reader that says whether anything is left
-- behind the value. The system calls of a commit are a record `Filesystem` over the states of a
-- disk, and `FilesystemLaws` says what the calls that succeed do to the three locations of each
-- target: what is read is what is there, a metadata call that answers says whether anything is
-- there, a rename moves onto a free name and leaves the rest, and modes and records change no
-- content. A run of a commit records the world after each effect,
-- so that a theorem about its trace covers an interruption at every point. `Path::exists` is
-- `path_exists` of the metadata call: every failure reads as absence. The publication of a
-- record is one effect: whether the record reached the disk when a call fails is not told apart.
-- Reasons of errors are enums, and the paths and identifiers in these errors are left out. An
-- index of a target that is not recorded, where the code would panic, is an error of the model.
-- The failpoints of the tests are left out.
--
-- Not modelled: the text form of errors, the manifest records and the rest of srcmv-fs (staging,
-- the choice of a recovery, control directories and locks), and the other crates
-- (srcmv-protocol, srcmv-lsp, srcmv-cli), which read files, write them and talk to clients.
pub mod Base
pub mod Domain
pub mod Lines
pub mod PlanHash
pub mod Planner
pub mod Fs
pub mod Recovery
pub mod Journal
pub mod Transaction
mod Examples
