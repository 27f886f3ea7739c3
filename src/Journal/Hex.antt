-- ===== src/Journal/Hex.antt =====
-- crates/srcmv-core/src/lib.rs: the protocol spelling of a digest.
use srcmv.Base.{
  ltb, if◌then◌else◌, length, All, Bytes, ℕ, ◌+◌, ◌*◌, ◌/◌, ◌%◌, ◌<◌, ◌≡◌, refl, true, [], ◌∷◌,
  ◌++◌, arith,
}
use srcmv.Fs.Errors.{ok}
use srcmv.Journal.Shape.{all_of, is_hex, digest_prefix, strip_prefix, validate_digest}

-- The table `HEX` of `to_prefixed_hex`.
abbrev pub hex_digit : ℕ → ℕ
hex_digit nibble = if ltb nibble 10 then 48 + nibble else 87 + nibble

unfoldable pub hex_bytes : Bytes → Bytes
hex_bytes [] = []
hex_bytes (byte ∷ rest) = hex_digit (byte / 16) ∷ hex_digit (byte % 16) ∷ hex_bytes rest

-- `Sha256Digest::to_prefixed_hex`.
unfoldable pub to_prefixed_hex : Bytes → Bytes
unfolding hex_bytes
to_prefixed_hex digest = digest_prefix ++ hex_bytes digest

length-hex_bytes : (digest : Bytes) → length (hex_bytes digest) ≡ 2 * length digest
unfolding hex_bytes
length-hex_bytes [] = refl
length-hex_bytes (byte ∷ rest) = omega (arith, length-hex_bytes rest)

hex_bytes-is_hex :
    (digest : Bytes) → All (λ b. b < 256) digest → all_of is_hex (hex_bytes digest) ≡ true
unfolding hex_bytes
hex_bytes-is_hex [] h = refl
hex_bytes-is_hex (byte ∷ rest) (small, h) =
    let high : byte / 16 < 16 = omega arith in
    let low : byte % 16 < 16 = omega arith in ground (arith, hex_bytes-is_hex rest h)

-- The text of a digest of 32 bytes passes the validation of digests in records.
pub validate_digest-to_prefixed_hex :
    (digest : Bytes)
    → length digest ≡ 32
    → All (λ b. b < 256) digest
    → validate_digest (to_prefixed_hex digest) ≡ ok tt
unfolding validate_digest to_prefixed_hex strip_prefix
validate_digest-to_prefixed_hex digest whole small =
    ground (arith, length-hex_bytes digest, hex_bytes-is_hex digest small)
