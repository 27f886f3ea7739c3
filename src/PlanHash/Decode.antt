-- ===== src/PlanHash/Decode.antt =====
-- A reader of the encoder's heads after RFC 8949, and that it reads back what was written.
use srcmv.Base.{
  leb, ◌==◌, if◌then◌else◌, Bool-cases, length, length-append, Bytes, ℕ, zero, suc, ◌+◌, ◌*◌, ◌/◌,
  ◌%◌, ◌≤◌, ◌<◌, ◌≡◌, refl, ◌∙◌, ◌⊎◌, inl, inr, Option, none, some, [], ◌∷◌, ◌++◌, arith, subst,
}
use srcmv.PlanHash.Cbor.{be_bytes, major_value}

-- A big-endian number of `count` bytes behind `seen`, with the bytes that follow.
read_be : ℕ → ℕ → Bytes → Option (ℕ × Bytes)
read_be zero seen rest = some (seen, rest)
read_be (suc count) seen [] = none
read_be (suc count) seen (b ∷ rest) = read_be count (seen * 256 + b) rest

with_major : ℕ → Option (ℕ × Bytes) → Option (ℕ × ℕ × Bytes)
with_major major none = none
with_major major (some (value, rest)) = some (major, value, rest)

-- The major type and the argument of a head, with the bytes that follow.
pub read_head : Bytes → Option (ℕ × ℕ × Bytes)
unfolding read_be
read_head [] = none
read_head (b ∷ rest) =
    let info = b % 32 in
    if leb info 23
    then some (b / 32, info, rest)
    else if info == 24
    then with_major (b / 32) (read_be 1 0 rest)
    else if info == 25
    then with_major (b / 32) (read_be 2 0 rest)
    else if info == 26
    then with_major (b / 32) (read_be 4 0 rest)
    else if info == 27
    then with_major (b / 32) (read_be 8 0 rest)
    else none

abbrev pub value_of : ℕ → Bytes → ℕ
value_of seen [] = seen
value_of seen (b ∷ rest) = value_of (seen * 256 + b) rest

read_be-value_of :
    (content : Bytes) (seen : ℕ) (rest : Bytes)
    → read_be (length content) seen (content ++ rest) ≡ some (value_of seen content, rest)
unfolding read_be
read_be-value_of [] seen rest = refl
read_be-value_of (b ∷ content) seen rest = read_be-value_of content (seen * 256 + b) rest

value_of-append :
    (content : Bytes) (seen b : ℕ)
    → value_of seen (content ++ (b ∷ [])) ≡ value_of seen content * 256 + b
value_of-append [] seen b = refl
value_of-append (c ∷ content) seen b = value_of-append content (seen * 256 + c) b

-- 256 to a power, as a product.
abbrev pub top : ℕ → ℕ
top zero = 1
top (suc count) = 256 * top count

pub value_of-be_bytes :
    (count value : ℕ) → value < top count → value_of 0 (be_bytes count value) ≡ value
unfolding be_bytes
value_of-be_bytes zero value h = omega arith
value_of-be_bytes (suc count) value h = omega (
  arith,
  value_of-append (be_bytes count (value / 256)) 0 (value % 256),
  value_of-be_bytes count (value / 256) (omega arith),
)

pub length-be_bytes : (count value : ℕ) → length (be_bytes count value) ≡ count
unfolding be_bytes
length-be_bytes zero value = refl
length-be_bytes (suc count) value = omega (
  arith,
  length-append (be_bytes count (value / 256)) ((value % 256) ∷ []),
  length-be_bytes count (value / 256),
)

read_be-be_bytes :
    (count value : ℕ) (rest : Bytes)
    → value < top count
    → read_be count 0 (be_bytes count value ++ rest) ≡ some (value, rest)
read_be-be_bytes count value rest h =
    subst (λ n. read_be n 0 (be_bytes count value ++ rest) ≡ some (value, rest))
      (length-be_bytes count value)
      (read_be-value_of (be_bytes count value) 0 rest ∙ rw (value_of-be_bytes count value h))

-- A head of one byte, or of a marker byte with a number behind it.
read_head-short :
    (major value : ℕ) (rest : Bytes)
    → major < 8
    → value ≤ 23
    → read_head ((major * 32 % 256 + value) ∷ rest) ≡ some (major, value, rest)
unfolding read_head
read_head-short major value rest h k = ground arith

read_head-long :
    (major count marker value : ℕ) (rest : Bytes)
    → major < 8
    → ((count ≡ 1) × (marker ≡ 24))
      ⊎ ((count ≡ 2) × (marker ≡ 25))
      ⊎ ((count ≡ 4) × (marker ≡ 26))
      ⊎ ((count ≡ 8) × (marker ≡ 27))
    → value < top count
    → read_head ((major * 32 % 256 + marker) ∷ (be_bytes count value ++ rest))
      ≡ some (major, value, rest)
unfolding read_head with_major
read_head-long major count marker value rest h m k =
    ground (arith, read_be-be_bytes count value rest k)

one_byte : (value : ℕ) → value < 256 → be_bytes 1 value ≡ value ∷ []
unfolding be_bytes
one_byte value h = let e : value % 256 ≡ value = omega arith in rw e

-- For a major type below 8 and a value below 2^64, the head that the CBOR encoder writes is read
-- back by a decoder of heads, whatever follows it.
pub read_head-major_value :
    (major value : ℕ) (rest : Bytes)
    → major < 8
    → value < 18446744073709551616
    → read_head (major_value major value ++ rest) ≡ some (major, value, rest)
unfolding major_value
read_head-major_value major value rest h k = elim (Bool-cases (leb value 23)) [
  | inl s ↦ rw s (read_head-short major value rest h (ground arith))
  | inr a ↦ elim (Bool-cases (leb value 0xff)) [
    | inl s ↦
        rw (a, s)
          (subst
            (λ x. read_head ((major * 32 % 256 + 24) ∷ (x ++ rest)) ≡ some (major, value, rest))
            (one_byte value (ground arith))
            (read_head-long major 1 24 value rest h (inl (refl, refl)) (ground arith)))
    | inr b ↦ elim (Bool-cases (leb value 0xffff)) [
      | inl s ↦
          rw (a, b, s)
            (read_head-long major 2 25 value rest h (inr (inl (refl, refl))) (ground arith))
      | inr c ↦ elim (Bool-cases (leb value 0xffff_ffff)) [
        | inl s ↦
            rw (a, b, c, s)
              (read_head-long major 4 26 value rest h (inr (inr (inl (refl, refl)))) (ground arith))
        | inr d ↦
            rw (a, b, c, d)
              (read_head-long major 8 27 value rest h (inr (inr (inr (refl, refl)))) (omega arith))
      ]
    ]
  ]
]
