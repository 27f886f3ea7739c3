-- ===== src/Lines/Append.antt =====
-- `LineMetrics`: what a scan finds, and that appended chunks give the metrics of the whole text.
use srcmv.Base.{
  length, last?, first?, length-append, Bytes, ℕ, suc, ◌+◌, ◌-◌, ◌≤◌, ◌<◌, ◌≡◌, refl, Option, none,
  some, [], ◌∷◌, ◌++◌, append-nil, arith,
}
use srcmv.Domain.Errors.{Resource, ok, ◌>>=◌, u64_max, checked_add-eq-ok}
use srcmv.Lines.Scan.{line_feed, is_terminator_byte}
use srcmv.Lines.Metrics.{
  LineMetrics, try_from_bytes, is_unterminated, metrics_line_count, try_append, try_append_bytes,
}
use srcmv.Lines.Split.{split_lines, is_open}
use srcmv.Lines.Boundaries.{length-split_lines}
use srcmv.Lines.Counts.{
  term_count, term_count-length, term_count-append, term_count-behind, term_count-le,
  count_terminators-term_count,
}

-- The metrics of a text, from the rule on neighbouring bytes.
abbrev pub metrics_of : Bytes → LineMetrics
metrics_of content = record {
  byte_count = length content;
  terminator_count = term_count content none;
  first_byte = first? content;
  last_byte = last? content;
}

pub try_from_bytes-metrics_of :
    (content : Bytes) → length content ≤ u64_max → try_from_bytes content ≡ ok (metrics_of content)
unfolding try_from_bytes term_count
try_from_bytes-metrics_of [] h = refl
try_from_bytes-metrics_of (b ∷ rest) h =
    let counted =
      count_terminators-term_count (length (b ∷ rest)) (b ∷ rest) 0 0 (omega arith) (omega arith) in
    let zero_add : 0 + term_count (b ∷ rest) none ≡ term_count (b ∷ rest) none = omega arith in
    rw (counted, zero_add)

pub is_open-last : (b : ℕ) (rest : Bytes) → is_unterminated (last? (b ∷ rest)) ≡ is_open (b ∷ rest)
unfolding is_open is_terminator_byte
is_open-last b [] = ground arith
is_open-last b (c ∷ rest) = is_open-last c rest

-- For fewer than `u64::MAX` bytes, the scan of a byte slice succeeds and counts its bytes and the
-- lines it splits into.
pub try_from_bytes-split_lines :
    (content : Bytes)
    → length content < u64_max
    → (metrics : LineMetrics) × (try_from_bytes content ≡ ok metrics)
      × (metrics.byte_count ≡ length content)
      × (metrics_line_count metrics ≡ length (split_lines content))
unfolding metrics_line_count
try_from_bytes-split_lines [] h = (
  metrics_of [],
  try_from_bytes-metrics_of [] (omega arith),
  refl,
  unfold split_lines term_count is_terminator_byte in ground arith,
)
try_from_bytes-split_lines (b ∷ rest) h =
    let content = b ∷ rest in
    let counts = term_count-length 0 content none in
    let total = length-split_lines content in
    let few = term_count-le content none in
    (
      metrics_of content,
      try_from_bytes-metrics_of content (omega arith),
      refl,
      rw (is_open-last b rest) (ground (arith, counts, total, few)),
    )

last-append : (x y : ℕ) (xs ys : Bytes) → last? (x ∷ (xs ++ y ∷ ys)) ≡ last? (y ∷ ys)
last-append x y [] ys = refl
last-append x y (z ∷ xs) ys = last-append z y xs ys

term_count-lf : (y : ℕ) (ys : Bytes) (c : Option ℕ) → y ≡ line_feed → 0 < term_count (y ∷ ys) c
unfolding term_count
term_count-lf y ys c h = ground arith

try_append-metrics_of :
    (xs ys : Bytes)
    → length xs + length ys ≤ u64_max
    → try_append (metrics_of xs) (metrics_of ys) ≡ ok (metrics_of (xs ++ ys))
unfolding try_append
try_append-metrics_of xs [] h = rw append-nil
try_append-metrics_of [] (y ∷ ys) h = ground arith
try_append-metrics_of (x ∷ xs) (y ∷ ys) h = ground (
  arith,
  length-append xs (y ∷ ys),
  term_count-append (x ∷ xs) (y ∷ ys) none,
  term_count-behind x xs (some y),
  term_count-lf y ys none,
  term_count-le (x ∷ xs) none,
  term_count-le (y ∷ ys) none,
  last-append x y xs ys,
  checked_add-eq-ok (suc (length xs)) (suc (length ys)) Resource.line_metric_bytes,
  checked_add-eq-ok (term_count (x ∷ xs) none) (term_count (y ∷ ys) none) Resource.line_count,
  checked_add-eq-ok (term_count (x ∷ xs) none) (term_count (y ∷ ys) none - 1) Resource.line_count,
)

-- For two chunks of at most `u64::MAX` bytes together, appending the second to the metrics of the
-- first gives the metrics of the joined bytes, also where a CRLF is divided between them.
pub try_append_bytes-append :
    (xs ys : Bytes)
    → length xs + length ys ≤ u64_max
    → (try_from_bytes xs >>= λ metrics. try_append_bytes metrics ys) ≡ try_from_bytes (xs ++ ys)
unfolding try_append_bytes
try_append_bytes-append xs ys h =
    let sum = length-append xs ys in
    rw
      (
        try_from_bytes-metrics_of xs (omega arith),
        try_from_bytes-metrics_of ys (omega arith),
        try_from_bytes-metrics_of (xs ++ ys) (omega (arith, sum)),
      )
      (try_append-metrics_of xs ys h)
