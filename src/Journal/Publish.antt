-- ===== src/Journal/Publish.antt =====
-- crates/srcmv-fs/src/journal.rs: the journal of one transaction, and the publication of its
-- next state. What the durable publication of the file returns is an argument.
use srcmv.Base.{
  ltb, ◌==◌, if◌then◌else◌, length, drop, Bytes, bytes_eq, ℕ, ◌+◌, ◌-◌, Bool, not, ◌||◌, Option,
  none, some, List, [], ◌∷◌,
}
use srcmv.Fs.Errors.{
  state_manifest_checksum_mismatch, state_prior_checksum_mismatch, state_zero_must_be_preparing,
  record_truncated, FsResource, projected_transaction_disk_bytes, resource_limit_exceeded, FsResult,
  ok, err, ◌>>=◌, ◌>>◌,
}
use srcmv.Recovery.State.{preparing}
use srcmv.Journal.State.{TransactionLimits, StateSnapshot, corrupt, option_eq, global_eq}
use srcmv.Journal.Shape.{validate_state_shape}
use srcmv.Journal.Transition.{
  validate_state_transition_with_limits, validate_state_against_originals,
}
use srcmv.Journal.Hex.{to_prefixed_hex}
use srcmv.Journal.Envelope.{Codec, encode_record, decode_record}

-- `TransactionJournal`, without the directory that the records are written to.
pub record TransactionJournal : Type 0 where
  pub manifest_checksum : Bytes
  pub original_existence : List Bool
  pub limits : TransactionLimits
  pub projected_disk_bytes : ℕ
  pub state_record_bytes : ℕ
  pub last_state : Option StateSnapshot
  pub last_checksum : Option Bytes

-- "SRCMV-STATE\0".
abbrev pub state_magic : Bytes
state_magic = 83 ∷ 82 ∷ 67 ∷ 77 ∷ 86 ∷ 45 ∷ 83 ∷ 84 ∷ 65 ∷ 84 ∷ 69 ∷ 0 ∷ []

-- What the journal takes from the sha2 and serde_json crates.
pub record Formats : Type 0 where
  pub sha256_of : Bytes → Bytes
  pub state_codec : Codec StateSnapshot

-- `encode_state_record_with_limits`.
unfoldable pub encode_state_record : Formats → StateSnapshot → TransactionLimits → FsResult Bytes
encode_state_record formats state limits = do
  validate_state_shape state limits
  encode_record formats.sha256_of formats.state_codec state_magic state limits

-- `decode_state_record_with_limits`.
unfoldable pub decode_state_record : Formats → Bytes → TransactionLimits → FsResult StateSnapshot
decode_state_record formats bytes limits = do
  decoded ← decode_record formats.sha256_of formats.state_codec bytes state_magic limits
  validate_state_shape decoded.payload limits
  ok decoded.payload

-- `record_checksum`: the last 32 bytes.
unfoldable pub record_checksum : Bytes → FsResult Bytes
record_checksum bytes =
    if ltb (length bytes) 32
    then err (corrupt record_truncated)
    else ok (drop (length bytes - 32) bytes)

-- The `match` on the last state in `publish_state`.
unfoldable pub validate_next :
    Option StateSnapshot → StateSnapshot → TransactionLimits → FsResult (Unit {0})
validate_next (some previous) state limits =
    validate_state_transition_with_limits previous state limits
validate_next none state limits =
    if not (state.sequence == 0) || not (global_eq state.global_state preparing)
    then err (corrupt state_zero_must_be_preparing)
    else validate_state_shape state limits

-- An amount that grows by a record, within its limit.
unfoldable pub charge_bytes : FsResource → ℕ → ℕ → ℕ → FsResult ℕ
charge_bytes resource current added limit =
    if ltb 18446744073709551615 (current + added)
    then err (resource_limit_exceeded resource 18446744073709551615 limit)
    else if ltb limit (current + added)
    then err (resource_limit_exceeded resource (current + added) limit)
    else ok (current + added)

-- `TransactionJournal::publish_state`: the journal afterwards, and the checksum. On an error the
-- journal stays as it was.
unfoldable pub publish_state :
    Formats
    → FsResult (Unit {0})
    → TransactionJournal
    → StateSnapshot
    → FsResult (TransactionJournal × Bytes)
unfolding validate_next charge_bytes encode_state_record record_checksum
publish_state formats published journal state = do
  (if bytes_eq state.manifest_checksum journal.manifest_checksum
      then ok tt
      else err (corrupt state_manifest_checksum_mismatch))
  validate_state_against_originals state journal.original_existence
  (if option_eq bytes_eq state.prior_state_checksum journal.last_checksum
      then ok tt
      else err (corrupt state_prior_checksum_mismatch))
  validate_next journal.last_state state journal.limits
  encoded ← encode_state_record formats state journal.limits
  recorded ←
      charge_bytes FsResource.state_record_bytes journal.state_record_bytes (length encoded)
        journal.limits.state_bytes
  projected ←
      charge_bytes projected_transaction_disk_bytes journal.projected_disk_bytes (length encoded)
        journal.limits.projected_disk_bytes
  digest ← record_checksum encoded
  let checksum = to_prefixed_hex digest
  published
  ok (
    record journal {
      last_state = some state;
      last_checksum = some checksum;
      projected_disk_bytes = projected;
      state_record_bytes = recorded;
    },
    checksum,
  )
