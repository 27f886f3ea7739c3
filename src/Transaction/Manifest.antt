-- ===== src/Transaction/Manifest.antt =====
-- crates/srcmv-fs/src/journal.rs: the targets of a manifest; transaction.rs: fingerprints, and
-- what they are compared with.
use srcmv.Base.{◌==◌, Bytes, bytes_eq, ℕ, Bool, ◌&&◌, Option, some, List}
use srcmv.Recovery.State.{PersistedIdentity, CandidateState}
use srcmv.Journal.State.{identity_eq, option_eq}
use srcmv.Journal.Hex.{to_prefixed_hex}

pub record ManifestSegment : Type 0 where
  pub input_index : ℕ
  pub start : ℕ
  pub end : ℕ
  pub operation_index : Option ℕ

pub data MetadataPolicy : Type 0 where
  preserve_existing_mode new_file_mode_policy : MetadataPolicy

pub record ManifestTarget : Type 0 where
  pub target_index : ℕ
  pub path : Bytes
  pub parent_identity : PersistedIdentity
  pub original_existed : Bool
  pub original_identity : Option PersistedIdentity
  pub original_sha256 : Option Bytes
  pub original_length : Option ℕ
  pub candidate_name : Bytes
  pub backup_name : Bytes
  pub candidate_sha256 : Bytes
  pub candidate_length : ℕ
  pub metadata_policy : MetadataPolicy
  pub new_file_mode : Option ℕ
  pub segments : List ManifestSegment

pub record Fingerprint : Type 0 where
  pub identity : PersistedIdentity
  pub length_of : ℕ
  pub digest : Bytes

-- `matches_original` and `matches_candidate`, which never return an error.
unfoldable pub matches_original : Fingerprint → ManifestTarget → Bool
matches_original actual target =
    option_eq identity_eq target.original_identity (some actual.identity)
    && option_eq ◌==◌ target.original_length (some actual.length_of)
    && option_eq bytes_eq target.original_sha256 (some (to_prefixed_hex actual.digest))

unfoldable pub matches_candidate : Fingerprint → ManifestTarget → CandidateState → Bool
matches_candidate actual target recorded =
    option_eq identity_eq recorded.identity (some actual.identity)
    && (target.candidate_length == actual.length_of)
    && bytes_eq target.candidate_sha256 (to_prefixed_hex actual.digest)
