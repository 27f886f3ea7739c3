-- ===== src/Planner/Output/Streaming.antt =====
-- `stream_output` measures, digests and compares the rendered bytes without building them.
use srcmv.Base.{
  leb, ◌==◌, length, take, drop, All, length-append, length-drop, Bytes, bytes_eq, ℕ, ◌+◌, ◌≤◌, ◌≡◌,
  refl, sym, ◌∙◌, Bool, true, false, ◌&&◌, Option, none, some, List, [], ◌∷◌, ◌++◌, append-nil,
  append_assoc, arith,
}
use srcmv.Base.Ordered.{nat_key, bytes_key}
use srcmv.Domain.Errors.{Resource, ok, u64_max, checked_add-eq-ok}
use srcmv.Domain.Types.{Sha256Digest, SnapshotFileId, OutputSegment}
use srcmv.Planner.Resolve.{FilesById}
use srcmv.Planner.Stream.{
  Stream, segment_bytes, matches_at, compare_segment, stream_segments, original_bytes, start_stream,
  ends_at, stream_output,
}
use srcmv.Planner.Splice.Spec.{render}

is_prefix : Bytes → Bytes → Bool
is_prefix [] ys = true
is_prefix (x ∷ xs) [] = false
is_prefix (x ∷ xs) (y ∷ ys) = (x == y) && is_prefix xs ys

is_prefix-append :
    (xs ys content : Bytes)
    → is_prefix (xs ++ ys) content
      ≡ (is_prefix xs content && is_prefix ys (drop (length xs) content))
unfolding is_prefix
is_prefix-append [] ys content = refl
is_prefix-append (x ∷ xs) ys [] = refl
is_prefix-append (x ∷ xs) ys (c ∷ content) = ground (arith, is_prefix-append xs ys content)

is_prefix-length : (xs ys : Bytes) → is_prefix xs ys ≡ true → length xs ≤ length ys
unfolding is_prefix
is_prefix-length [] ys h = omega arith
is_prefix-length (x ∷ xs) [] h = cc
is_prefix-length (x ∷ xs) (y ∷ ys) h = ground (arith, is_prefix-length xs ys)

is_prefix-take :
    (xs ys : Bytes)
    → (leb (length xs) (length ys) && bytes_eq (take (length xs) ys) xs) ≡ is_prefix xs ys
unfolding is_prefix
is_prefix-take [] ys = ground arith
is_prefix-take (x ∷ xs) [] = ground arith
is_prefix-take (x ∷ xs) (y ∷ ys) = ground (arith, is_prefix-take xs ys)

is_prefix-bytes_eq :
    (xs ys : Bytes) → (is_prefix xs ys && (length xs == length ys)) ≡ bytes_eq xs ys
unfolding is_prefix
is_prefix-bytes_eq [] [] = ground arith
is_prefix-bytes_eq [] (y ∷ ys) = ground arith
is_prefix-bytes_eq (x ∷ xs) [] = ground arith
is_prefix-bytes_eq (x ∷ xs) (y ∷ ys) = ground (arith, is_prefix-bytes_eq xs ys)

matches_at-is_prefix :
    (original : Bytes) (offset : ℕ) (content : Bytes)
    → offset ≤ length original
    → matches_at original offset content ≡ is_prefix content (drop offset original)
matches_at-is_prefix original offset content h =
    let dropped = length-drop offset original in
    ground (arith, is_prefix-take content (drop offset original), dropped)

-- The loop's state is that of the bytes fed so far.
abbrev Fed : Option Bytes → Stream → Type 0
Fed none stream =
    (stream.resulting_length ≡ length stream.hasher) × (stream.equals_original ≡ false)
Fed (some original) stream =
    (stream.resulting_length ≡ length stream.hasher)
    × (stream.comparison_offset ≡ length stream.hasher)
    × (stream.equals_original ≡ is_prefix stream.hasher original)

abbrev feed : Option Bytes → Bytes → Stream → Stream
feed original content stream = compare_segment original content (record stream {
  hasher = stream.hasher ++ content;
  resulting_length = stream.resulting_length + length content;
})

feed-Fed :
    (original : Option Bytes) (content : Bytes) (stream : Stream)
    → Fed original stream
    → Fed original (feed original content stream)
feed-Fed none content stream (l, e) = (omega (arith, length-append stream.hasher content), e)
feed-Fed (some original) content stream (l, o, e) = (
  omega (arith, length-append stream.hasher content),
  omega (arith, length-append stream.hasher content),
  ground (
    arith,
    is_prefix-append stream.hasher content original,
    is_prefix-length stream.hasher original,
    matches_at-is_prefix original stream.comparison_offset content,
  ),
)

feed-length :
    (original : Option Bytes) (content : Bytes) (stream : Stream)
    → (feed original content stream).resulting_length ≡ stream.resulting_length + length content
feed-length none content stream = refl
feed-length (some original) content stream = refl

feed-hasher :
    (original : Option Bytes) (content : Bytes) (stream : Stream)
    → (feed original content stream).hasher ≡ stream.hasher ++ content
feed-hasher none content stream = refl
feed-hasher (some original) content stream = refl

start_length : (original : Option Bytes) → (start_stream original).resulting_length ≡ 0
start_length original = refl

start_stream-Fed : (original : Option Bytes) → Fed original (start_stream original)
unfolding is_prefix
start_stream-Fed none = (refl, refl)
start_stream-Fed (some original) = (refl, refl, refl)

-- Whether there is an original with these bytes.
abbrev pub is_same : Option Bytes → Bytes → Bool
is_same none output = false
is_same (some original) output = bytes_eq output original

ends_at-is_same :
    (original : Option Bytes) (stream : Stream)
    → Fed original stream
    → ends_at original stream ≡ is_same original stream.hasher
ends_at-is_same none stream fed = fed.1
ends_at-is_same (some original) stream (l, o, e) =
    rw (e, o) (is_prefix-bytes_eq stream.hasher original)

Fed-length :
    (original : Option Bytes) (stream : Stream)
    → Fed original stream
    → stream.resulting_length ≡ length stream.hasher
Fed-length none stream fed = fed.0
Fed-length (some original) stream fed = fed.0

-- The segments refer to files that the snapshot holds, and `view` shows their bytes.
abbrev pub Resolves : FilesById → (OutputSegment → Bytes) → List OutputSegment → Type 0
Resolves files_by_id view = All (λ s. segment_bytes files_by_id s ≡ ok (view s))

stream_segments-Fed :
    (files_by_id : FilesById) (view : OutputSegment → Bytes) (original : Option Bytes)
    (segments : List OutputSegment) (stream : Stream)
    → Resolves files_by_id view segments
    → Fed original stream
    → stream.resulting_length + length (render view segments) ≤ u64_max
    → (final : Stream) × (stream_segments files_by_id original segments stream ≡ ok final)
      × (final.hasher ≡ stream.hasher ++ render view segments)
      × Fed original final
unfolding stream_segments render
stream_segments-Fed files_by_id view original [] stream resolves fed small =
    (stream, refl, sym (append-nil stream.hasher), fed)
stream_segments-Fed files_by_id view original (segment ∷ segments) stream resolves fed small =
    let sum = length-append (view segment) (render view segments) in
    let added =
      checked_add-eq-ok stream.resulting_length (length (view segment))
        Resource.planned_output_bytes (omega (arith, sum)) in
    let next = feed original (view segment) stream in
    let length_next = feed-length original (view segment) stream in
    let (final, ran, bytes, fed') =
      stream_segments-Fed files_by_id view original segments next resolves.1
        (feed-Fed original (view segment) stream fed) (omega (arith, sum, length_next)) in
    (
      final,
      rw (resolves.0, added) ran,
      bytes ∙ rw (feed-hasher original (view segment) stream) (append_assoc stream.hasher _ _),
      fed',
    )

-- For segments that the snapshot resolves and that have at most `u64::MAX` bytes in all,
-- `stream_output` returns the length and the digest of the rendered bytes and whether there is an
-- original with the same bytes.
pub stream_output-render :
    (sha256_of : Bytes → Sha256Digest) (files_by_id : FilesById) (view : OutputSegment → Bytes)
    (segments : List OutputSegment) (original_file_id : Option SnapshotFileId)
    (original : Option Bytes)
    → original_bytes files_by_id original_file_id ≡ ok original
    → Resolves files_by_id view segments
    → length (render view segments) ≤ u64_max
    → let output = render view segments in
      stream_output sha256_of segments files_by_id original_file_id
      ≡ ok (length output, sha256_of output, is_same original output)
unfolding stream_output
stream_output-render sha256_of files_by_id view segments original_file_id original found resolves
      small =
    let (final, ran, bytes, fed) =
      stream_segments-Fed files_by_id view original segments (start_stream original) resolves
        (start_stream-Fed original) (omega (arith, start_length original)) in
    rw (found, ran, ends_at-is_same original final fed, Fed-length original final fed, bytes)
