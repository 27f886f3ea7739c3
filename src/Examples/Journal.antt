-- ===== src/Examples/Journal.antt =====
-- A journal of two states, their records, and the states that end a commit and a rollback.
use srcmv.Base.{
  if◌then◌else◌, length, take, All, Bytes, bytes_eq, ℕ, zero, suc, ◌+◌, ◌%◌, ◌<◌, ◌≡◌, refl, true,
  Option, none, some, [], ◌∷◌, ◌++◌, arith,
}
use srcmv.Recovery.State.{
  PersistedIdentity, missing, ready, CandidateState, untouched, installed, CommitState,
  not_restored, original_restored, RollbackState, TargetState, GlobalState, preparing, prepared,
  rolled_back,
}
use srcmv.Recovery.Lag.{commit_rank}
use srcmv.Fs.Errors.{ok}
use srcmv.PlanHash.Cbor.{be_bytes}
use srcmv.Journal.State.{TransactionLimits, StateSnapshot, candidate_eq, commit_eq, rollback_eq}
use srcmv.Journal.Shape.{
  digest_prefix, strip_prefix, validate_digest, validate_target_fields, global_constraints,
  validate_global_constraints, validate_targets, validate_prior, validate_state_shape,
}
use srcmv.Journal.Transition.{
  is_allowed, validate_target_progress, validate_progress, validate_state_transition_with_limits,
  fit_originals, validate_state_against_originals,
}
use srcmv.Journal.History.{AllProgressed, History, here, extend, History-AllProgressed}
use srcmv.Journal.Outcome.{
  may_reach, History-may_reach, History-bounded, IsRestored, AllWith, rolled_back-IsRestored,
}
use srcmv.Journal.Hex.{hex_bytes, to_prefixed_hex, validate_digest-to_prefixed_hex}
use srcmv.Journal.Envelope.{
  Codec, DecodedRecord, checked_record_length, record_body, encode_record, decode_record,
}
use srcmv.Journal.RoundTrip.{decode_record-encode_record, decode_record-checksum}
use srcmv.Journal.Publish.{
  TransactionJournal, state_magic, Formats, encode_state_record, record_checksum, validate_next,
  charge_bytes, publish_state,
}
use srcmv.Journal.Chain.{Records, nothing, publish_state-Records}

-- 32 bytes that begin with the length of the content stand for its digest.
abbrev pub zeros : ℕ → Bytes
zeros zero = []
zeros (suc n) = 0 ∷ zeros n

abbrev pub length_digest : Bytes → Bytes
length_digest content = (length content % 256) ∷ zeros 31

abbrev pub roomy : TransactionLimits
roomy = record {
  record_bytes = 4096;
  targets = 4;
  state_records = 8;
  state_bytes = 4096;
  transaction_directories = 2;
  recovery_bytes = 4096;
  projected_disk_bytes = 65536;
}

abbrev ascii_zeros : ℕ → Bytes
ascii_zeros zero = []
ascii_zeros (suc n) = 48 ∷ ascii_zeros n

abbrev pub hashed : Bytes
hashed = digest_prefix ++ (53 ∷ 51 ∷ ascii_zeros 62)

abbrev pub staged_target : CandidateState → CommitState → RollbackState → TargetState
staged_target c m r = record { target_index = 0; candidate = c; commit = m; rollback = r }

abbrev file : Option PersistedIdentity
file = some (record { device = 1; inode = 9 })

abbrev empty_candidate : CandidateState
empty_candidate = record { kind = missing; identity = none }

abbrev pub ready_candidate : CandidateState
ready_candidate = record { kind = ready; identity = file }

abbrev pub no_commit : CommitState
no_commit = record { kind = untouched; identity = none; preserved_mode = none }

abbrev pub full_commit : CommitState
full_commit = record { kind = installed; identity = file; preserved_mode = some 420 }

abbrev pub no_rollback : RollbackState
no_rollback = record { kind = not_restored; identity = none }

abbrev full_rollback : RollbackState
full_rollback = record { kind = original_restored; identity = file }

abbrev pub snapshot : ℕ → Option Bytes → GlobalState → TargetState → StateSnapshot
snapshot sequence prior global target = record {
  transaction_version = 1;
  sequence = sequence;
  manifest_checksum = hashed;
  prior_state_checksum = prior;
  global_state = global;
  targets = target ∷ [];
}

abbrev first_state : StateSnapshot
first_state = snapshot 0 none preparing (staged_target empty_candidate no_commit no_rollback)

abbrev second_state : StateSnapshot
second_state =
    snapshot 1 (some hashed) prepared (staged_target ready_candidate no_commit no_rollback)

abbrev rolled_back_state : StateSnapshot
rolled_back_state =
    snapshot 4 (some hashed) rolled_back (staged_target ready_candidate no_commit full_rollback)

first_step : validate_state_transition_with_limits first_state second_state roomy ≡ ok tt
unfolding validate_state_transition_with_limits validate_state_shape validate_digest strip_prefix
    validate_prior validate_targets validate_target_fields validate_global_constraints
    global_constraints is_allowed validate_progress validate_target_progress candidate_eq commit_eq
    rollback_eq commit_rank
first_step = refl

abbrev one_step : History roomy first_state second_state 1
one_step = extend here first_step

History-AllProgressed_example : AllProgressed first_state.targets second_state.targets
History-AllProgressed_example = History-AllProgressed one_step

History-may_reach_example : may_reach preparing prepared ≡ true
History-may_reach_example = History-may_reach one_step

History-bounded_example : 0 + 1 < 8
History-bounded_example = History-bounded (omega arith) one_step

rolled_back-IsRestored_example :
    AllWith (λ o t. IsRestored o t) (true ∷ []) rolled_back_state.targets
unfolding validate_state_shape validate_digest strip_prefix validate_prior validate_targets
    validate_target_fields validate_global_constraints global_constraints
    validate_state_against_originals fit_originals
rolled_back-IsRestored_example =
    rolled_back-IsRestored rolled_back_state roomy (true ∷ []) refl refl refl

-- One payload, which is the first state.
abbrev one_state : Codec StateSnapshot
one_state = record {
  to_vec = λ state. some (7 ∷ []);
  deserialize = λ bytes. if bytes_eq bytes (7 ∷ []) then some (first_state, true) else none;
}

abbrev pub formats : Formats
formats = record { sha256_of = length_digest; state_codec = one_state }

length_digest_32 : (content : Bytes) → length (length_digest content) ≡ 32
length_digest_32 content = refl

abbrev first_body : Bytes
first_body = state_magic ++ (0 ∷ 0 ∷ 0 ∷ 1 ∷ 0 ∷ 0 ∷ 0 ∷ 0 ∷ 0 ∷ 0 ∷ 0 ∷ 1 ∷ 7 ∷ [])

abbrev first_record : Bytes
first_record = first_body ++ (25 ∷ zeros 31)

first_encoded :
    encode_record length_digest one_state state_magic first_state roomy ≡ ok first_record
unfolding encode_record checked_record_length be_bytes
first_encoded = refl

decode_record-encode_record_example :
    decode_record length_digest one_state first_record state_magic roomy
    ≡ ok (record {
      payload = first_state;
      checksum = length_digest (record_body state_magic (7 ∷ []));
    })
decode_record-encode_record_example =
    decode_record-encode_record length_digest one_state state_magic first_state roomy first_record
      (7 ∷ []) length_digest_32 refl refl first_encoded

abbrev first_decoded : DecodedRecord StateSnapshot
first_decoded = record {
  payload = first_state;
  checksum = length_digest (record_body state_magic (7 ∷ []));
}

decode_record-checksum_example :
    (payload_end : ℕ) × (first_record ≡ take payload_end first_record ++ first_decoded.checksum)
    × (first_decoded.checksum ≡ length_digest (take payload_end first_record))
    × (take (length state_magic) first_record ≡ state_magic)
decode_record-checksum_example =
    decode_record-checksum length_digest one_state state_magic roomy first_record first_decoded
      decode_record-encode_record_example

abbrev empty_journal : TransactionJournal
empty_journal = record {
  manifest_checksum = hashed;
  original_existence = true ∷ [];
  limits = roomy;
  projected_disk_bytes = 100;
  state_record_bytes = 0;
  last_state = none;
  last_checksum = none;
}

-- "sha256:19" and 62 zeros.
abbrev first_checksum : Bytes
first_checksum = digest_prefix ++ (49 ∷ 57 ∷ ascii_zeros 62)

abbrev first_journal : TransactionJournal
first_journal = record empty_journal {
  last_state = some first_state;
  last_checksum = some first_checksum;
  projected_disk_bytes = 157;
  state_record_bytes = 57;
}

first_published :
    publish_state formats (ok tt) empty_journal first_state ≡ ok (first_journal, first_checksum)
unfolding publish_state validate_next charge_bytes encode_state_record record_checksum encode_record
    checked_record_length be_bytes validate_state_shape validate_digest strip_prefix validate_prior
    validate_targets validate_target_fields validate_global_constraints global_constraints
    validate_state_against_originals fit_originals to_prefixed_hex hex_bytes
first_published = refl

publish_state-Records_example : Records first_journal
publish_state-Records_example =
    publish_state-Records formats (ok tt) empty_journal first_state (first_journal, first_checksum)
      (nothing refl) first_published

zeros_small : (n : ℕ) → All (λ b. b < 256) (zeros n)
zeros_small zero = tt
zeros_small (suc n) = (omega arith, zeros_small n)

validate_digest-to_prefixed_hex_example :
    validate_digest (to_prefixed_hex (length_digest [])) ≡ ok tt
validate_digest-to_prefixed_hex_example =
    validate_digest-to_prefixed_hex (length_digest []) refl (omega arith, zeros_small 31)
