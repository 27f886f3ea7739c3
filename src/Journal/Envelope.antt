-- ===== src/Journal/Envelope.antt =====
-- crates/srcmv-fs/src/journal.rs: the envelope of a persisted record, with its checksum.
-- The payload is JSON of the serde_json crate, and the checksum SHA-256 of the sha2 crate.
use srcmv.Base.{
  ltb, ◌==◌, if◌then◌else◌, length, take, drop, Bytes, bytes_eq, ℕ, ◌+◌, ◌-◌, Bool, not, ◌||◌,
  Option, ◌++◌,
}
use srcmv.Fs.Errors.{
  record_json_encode, record_oversized, record_magic_or_truncation, record_version_unsupported,
  record_length_overflow, record_length_mismatch, record_checksum_invalid, record_payload_invalid,
  record_payload_trailing_data, transaction_record_bytes, FsError, resource_limit_exceeded,
  FsResult, ok, err, ◌>>=◌, ◌>>◌, ok_or,
}
use srcmv.PlanHash.Cbor.{be_bytes}
use srcmv.PlanHash.Decode.{value_of}
use srcmv.Journal.State.{TransactionLimits, corrupt}

-- `serde_json::to_vec`, and `T::deserialize` with whether `Deserializer::end` succeeds behind it.
pub record Codec (T : Type 0) : Type 0 where
  pub to_vec : T → Option Bytes
  pub deserialize : Bytes → Option (T × Bool)

pub record DecodedRecord (T : Type 0) : Type 0 where
  pub payload : T
  pub checksum : Bytes

abbrev pub record_format_version : ℕ
record_format_version = 1

abbrev u64_max : ℕ
u64_max = 18446744073709551615

abbrev length_error : FsError
length_error = resource_limit_exceeded transaction_record_bytes u64_max 16777216

-- `checked_record_length`, with `HEADER_TRAILER_BYTES`.
unfoldable pub checked_record_length : Bytes → ℕ → FsResult ℕ
checked_record_length magic payload =
    if ltb u64_max (length magic + 44) || ltb u64_max (length magic + 44 + payload)
    then err length_error
    else ok (length magic + 44 + payload)

-- What the checksum covers.
abbrev pub record_body : Bytes → Bytes → Bytes
record_body magic payload =
    magic ++ (be_bytes 4 record_format_version ++ (be_bytes 8 (length payload) ++ payload))

-- `encode_record`.
unfoldable pub encode_record :
    {T : Type 0} → (Bytes → Bytes) → Codec T → Bytes → T → TransactionLimits → FsResult Bytes
unfolding checked_record_length
encode_record sha256_of codec magic value limits = do
  payload ← ok_or (corrupt record_json_encode) (codec.to_vec value)
  total ← checked_record_length magic (length payload)
  (if ltb limits.record_bytes total
      then err (resource_limit_exceeded transaction_record_bytes total limits.record_bytes)
      else ok tt)
  let encoded = record_body magic payload
  ok (encoded ++ sha256_of encoded)

-- `[u8]::starts_with`.
abbrev pub starts_with : Bytes → Bytes → Bool
starts_with bytes prefix = bytes_eq (take (length prefix) bytes) prefix

abbrev pub range_of : ℕ → ℕ → Bytes → Bytes
range_of start end bytes = take (end - start) (drop start bytes)

-- The end of the payload, once the header and the length have been checked.
unfoldable pub decode_header : Bytes → Bytes → TransactionLimits → FsResult ℕ
decode_header bytes magic limits =
    let header = length magic + 12 in
    if ltb limits.record_bytes (length bytes)
    then err (corrupt record_oversized)
    else if ltb u64_max header
    then err (corrupt record_length_overflow)
    else if ltb (length bytes) (header + 32) || not (starts_with bytes magic)
    then err (corrupt record_magic_or_truncation)
    else if not
        (value_of 0 (range_of (length magic) (length magic + 4) bytes) == record_format_version)
    then err (corrupt record_version_unsupported)
    else let payload_length = value_of 0 (range_of (length magic + 4) header bytes) in
      if ltb u64_max (header + payload_length + 32)
      then err (corrupt record_length_overflow)
      else if not (length bytes == header + payload_length + 32)
      then err (corrupt record_length_mismatch)
      else ok (header + payload_length)

-- `decode_record`.
unfoldable pub decode_record :
    {T : Type 0}
    → (Bytes → Bytes)
    → Codec T
    → Bytes
    → Bytes
    → TransactionLimits
    → FsResult (DecodedRecord T)
unfolding decode_header
decode_record sha256_of codec bytes magic limits = do
  payload_end ← decode_header bytes magic limits
  let expected_checksum = sha256_of (take payload_end bytes)
  (if bytes_eq (drop payload_end bytes) expected_checksum
      then ok tt
      else err (corrupt record_checksum_invalid))
  decoded ←
      ok_or (corrupt record_payload_invalid)
        (codec.deserialize (range_of (length magic + 12) payload_end bytes))
  (if decoded.1 then ok tt else err (corrupt record_payload_trailing_data))
  ok (record { payload = decoded.0; checksum = expected_checksum })
