-- ===== src/PlanHash/Cbor.antt =====
-- crates/srcmv-core/src/plan_hash.rs: `CborEncoder`. The encoder only ever appends, so each
-- method is given as the bytes that it appends; lengths fit `u64` on the qualified targets.
use srcmv.Base.{leb, if◌then◌else◌, length, Bytes, ℕ, zero, suc, ◌+◌, ◌*◌, ◌/◌, ◌%◌, [], ◌∷◌, ◌++◌}

-- `to_be_bytes` of the low `8 * count` bits.
unfoldable pub be_bytes : ℕ → ℕ → Bytes
be_bytes zero value = []
be_bytes (suc count) value = be_bytes count (value / 256) ++ ((value % 256) ∷ [])

-- `CborEncoder::major_value`. The low five bits of `major << 5` are zero, so `|` adds.
unfoldable pub major_value : ℕ → ℕ → Bytes
major_value major value =
    let prefix = (major * 32) % 256 in
    if leb value 23
    then (prefix + value) ∷ []
    else if leb value 0xff
    then (prefix + 24) ∷ value ∷ []
    else if leb value 0xffff
    then (prefix + 25) ∷ be_bytes 2 value
    else if leb value 0xffff_ffff
    then (prefix + 26) ∷ be_bytes 4 value
    else (prefix + 27) ∷ be_bytes 8 value

-- `unsigned`, `array` and `array_infallible`, `text`, `byte_string`, `null`.
abbrev pub unsigned : ℕ → Bytes
unsigned value = major_value 0 value

abbrev pub array : ℕ → Bytes
array count = major_value 4 count

abbrev pub text : Bytes → Bytes
text value = major_value 3 (length value) ++ value

abbrev pub byte_string : Bytes → Bytes
byte_string value = major_value 2 (length value) ++ value

abbrev pub null : Bytes
null = 0xf6 ∷ []
