-- ===== src/Journal/RoundTrip.antt =====
-- A record that was encoded is decoded again, and what is decoded carries its checksum.
use srcmv.Base.{
  if◌then◌else◌, length, take, drop, length-append, take-append-drop, Bytes, bytes_eq, bytes_eq→eq,
  bytes_eq_refl, ℕ, ◌+◌, ◌-◌, ◌≤◌, ◌≡◌, refl, sym, ap, ◌∙◌, true, some, List, [], ◌∷◌, ◌++◌,
  append_assoc, arith, subst,
}
use srcmv.Fs.Errors.{record_checksum_invalid, record_payload_invalid, ok, err, ok_or, >>=-eq-ok}
use srcmv.PlanHash.Cbor.{be_bytes}
use srcmv.PlanHash.Decode.{value_of, value_of-be_bytes, length-be_bytes}
use srcmv.Journal.State.{TransactionLimits, corrupt}
use srcmv.Journal.Envelope.{
  Codec, DecodedRecord, record_format_version, checked_record_length, record_body, encode_record,
  range_of, decode_header, decode_record,
}

drop-length {ℓ} : {A : Type ℓ} (xs ys : List A) → drop (length xs) (xs ++ ys) ≡ ys
drop-length [] ys = refl
drop-length (x ∷ xs) ys = drop-length xs ys

take-length {ℓ} : {A : Type ℓ} (xs ys : List A) → take (length xs) (xs ++ ys) ≡ xs
take-length [] ys = refl
take-length (x ∷ xs) ys = ap (◌∷◌ x) (take-length xs ys)

-- A piece of a concatenation.
range_of-middle :
    (before piece after : Bytes) (start end : ℕ)
    → start ≡ length before
    → end ≡ length before + length piece
    → range_of start end (before ++ (piece ++ after)) ≡ piece
range_of-middle before piece after start end s e =
    let width : end - start ≡ length piece = omega arith in
    rw (width, s, drop-length before (piece ++ after)) (take-length piece after)

module _ {T : Type 0} (sha256_of : Bytes → Bytes) (codec : Codec T) (magic payload : Bytes)
    (small : length magic + 44 + length payload ≤ 18446744073709551615)
    (digest_length : (content : Bytes) → length (sha256_of content) ≡ 32) where
  abbrev sealed : Bytes
  sealed = record_body magic payload ++ sha256_of (record_body magic payload)

  body-length : length (record_body magic payload) ≡ length magic + 12 + length payload
  body-length = omega (
    arith,
    length-append magic
        (be_bytes 4 record_format_version ++ (be_bytes 8 (length payload) ++ payload)),
    length-append (be_bytes 4 record_format_version) (be_bytes 8 (length payload) ++ payload),
    length-append (be_bytes 8 (length payload)) payload,
    length-be_bytes 4 record_format_version,
    length-be_bytes 8 (length payload),
  )

  sealed-length : length sealed ≡ length magic + 44 + length payload
  sealed-length = omega (
    arith,
    body-length,
    digest_length (record_body magic payload),
    length-append (record_body magic payload) (sha256_of (record_body magic payload)),
  )

  version_bytes :
      range_of (length magic) (length magic + 4) sealed ≡ be_bytes 4 record_format_version
  version_bytes =
      rw
        (
          append_assoc magic _ (sha256_of (record_body magic payload)),
          append_assoc (be_bytes 4 record_format_version) _ (sha256_of (record_body magic payload)),
        )
        (range_of-middle magic (be_bytes 4 record_format_version) _ _ _ refl
          (omega (arith, length-be_bytes 4 record_format_version)))

  length_bytes :
      range_of (length magic + 4) (length magic + 12) sealed ≡ be_bytes 8 (length payload)
  length_bytes =
      let four = length-be_bytes 4 record_format_version in
      let eight = length-be_bytes 8 (length payload) in
      let front = length-append magic (be_bytes 4 record_format_version) in
      let split : sealed
          ≡ (magic ++ be_bytes 4 record_format_version)
            ++ (be_bytes 8 (length payload) ++ (payload ++ sha256_of (record_body magic payload))) =
        simp append_assoc in
      rw split (
        range_of-middle (magic ++ be_bytes 4 record_format_version) (be_bytes 8 (length payload)) _
          _ _ (omega (arith, front, four)) (omega (arith, front, four, eight)))

  payload_bytes : range_of (length magic + 12) (length magic + 12 + length payload) sealed ≡ payload
  payload_bytes =
      let four = length-be_bytes 4 record_format_version in
      let eight = length-be_bytes 8 (length payload) in
      let front =
        length-append (magic ++ be_bytes 4 record_format_version) (be_bytes 8 (length payload)) in
      let front' = length-append magic (be_bytes 4 record_format_version) in
      let split : sealed
          ≡ ((magic ++ be_bytes 4 record_format_version) ++ be_bytes 8 (length payload))
            ++ (payload ++ sha256_of (record_body magic payload)) =
        simp append_assoc in
      rw split (
        range_of-middle ((magic ++ be_bytes 4 record_format_version) ++ be_bytes 8 (length payload))
          payload _ _ _ (omega (arith, front, front', four, eight))
          (omega (arith, front, front', four, eight)))

  digest_bytes :
      drop (length magic + 12 + length payload) sealed ≡ sha256_of (record_body magic payload)
  digest_bytes =
      rw (sym body-length)
        (drop-length (record_body magic payload) (sha256_of (record_body magic payload)))

  body_bytes : take (length magic + 12 + length payload) sealed ≡ record_body magic payload
  body_bytes =
      rw (sym body-length)
        (take-length (record_body magic payload) (sha256_of (record_body magic payload)))

  magic_bytes : take (length magic) sealed ≡ magic
  magic_bytes =
      rw (append_assoc magic _ (sha256_of (record_body magic payload))) (take-length magic _)

  decode_header-sealed :
      (limits : TransactionLimits)
      → length magic + 44 + length payload ≤ limits.record_bytes
      → decode_header sealed magic limits ≡ ok (length magic + 12 + length payload)
  unfolding decode_header
  decode_header-sealed limits fits =
      let version : value_of 0 (be_bytes 4 record_format_version) ≡ record_format_version =
        value_of-be_bytes 4 record_format_version (omega arith) in
      let size : value_of 0 (be_bytes 8 (length payload)) ≡ length payload =
        value_of-be_bytes 8 (length payload) (omega arith) in
      rw
        (
          sealed-length,
          magic_bytes,
          bytes_eq_refl magic,
          version_bytes,
          version,
          length_bytes,
          size,
        )
        (ground arith)

  decode_record-sealed :
      (value : T) (limits : TransactionLimits)
      → length magic + 44 + length payload ≤ limits.record_bytes
      → codec.deserialize payload ≡ some (value, true)
      → decode_record sha256_of codec sealed magic limits
        ≡ ok (record { payload = value; checksum = sha256_of (record_body magic payload) })
  unfolding decode_record
  decode_record-sealed value limits fits read = rw (
    decode_header-sealed limits fits,
    digest_bytes,
    body_bytes,
    bytes_eq_refl (sha256_of (record_body magic payload)),
    payload_bytes,
    read,
  )

-- A record that is encoded within its limits is decoded to its value and to the digest of what
-- precedes the digest, if the digest has 32 bytes and the payload's text is read back as the value
-- with nothing behind it.
pub decode_record-encode_record :
    {T : Type 0} (sha256_of : Bytes → Bytes) (codec : Codec T) (magic : Bytes) (value : T)
    (limits : TransactionLimits) (bytes payload : Bytes)
    → ((content : Bytes) → length (sha256_of content) ≡ 32)
    → codec.to_vec value ≡ some payload
    → codec.deserialize payload ≡ some (value, true)
    → encode_record sha256_of codec magic value limits ≡ ok bytes
    → decode_record sha256_of codec bytes magic limits
      ≡ ok (record { payload = value; checksum = sha256_of (record_body magic payload) })
unfolding encode_record checked_record_length
decode_record-encode_record sha256_of codec magic value limits bytes payload digest written read h =
    let all = rw written at h in
    let small : length magic + 44 + length payload ≤ 18446744073709551615 = ground arith in
    let fits : length magic + 44 + length payload ≤ limits.record_bytes = ground arith in
    let same : record_body magic payload ++ sha256_of (record_body magic payload) ≡ bytes =
      ground arith in
    subst
      (λ b.
        decode_record sha256_of codec b magic limits
        ≡ ok (record { payload = value; checksum = sha256_of (record_body magic payload) }))
      same (decode_record-sealed sha256_of codec magic payload small digest value limits fits read)

-- Bytes that are decoded begin with the magic and consist of a front and the digest of that front,
-- which is the checksum that is returned.
pub decode_record-checksum :
    {T : Type 0} (sha256_of : Bytes → Bytes) (codec : Codec T) (magic : Bytes)
    (limits : TransactionLimits) (bytes : Bytes) (result : DecodedRecord T)
    → decode_record sha256_of codec bytes magic limits ≡ ok result
    → (payload_end : ℕ) × (bytes ≡ take payload_end bytes ++ result.checksum)
      × (result.checksum ≡ sha256_of (take payload_end bytes))
      × (take (length magic) bytes ≡ magic)
unfolding decode_record decode_header
decode_record-checksum sha256_of codec magic limits bytes result h =
    let (payload_end, header, h1) = >>=-eq-ok (decode_header bytes magic limits) _ h in
    let (a, sum, h2) =
      >>=-eq-ok
        (if bytes_eq (drop payload_end bytes) (sha256_of (take payload_end bytes))
          then ok tt
          else err (corrupt record_checksum_invalid))
        _ h1 in
    let (decoded, b, h3) =
      >>=-eq-ok
        (ok_or (corrupt record_payload_invalid)
          (codec.deserialize (range_of (length magic + 12) payload_end bytes)))
        _ h2 in
    let kept : result.checksum ≡ sha256_of (take payload_end bytes) = ground arith in
    let tail : drop payload_end bytes ≡ result.checksum =
      ground (arith, bytes_eq→eq (drop payload_end bytes) (sha256_of (take payload_end bytes))) in
    (
      payload_end,
      sym (take-append-drop payload_end bytes) ∙ ap (λ x. take payload_end bytes ++ x) tail,
      kept,
      ground (arith, bytes_eq→eq (take (length magic) bytes) magic),
    )
