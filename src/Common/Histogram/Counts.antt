-- ===== src/Common/Histogram/Counts.antt =====
-- The samples of a histogram, counted up to a bucket.
use native.Mathlib.Nat.{mod-eq_of_lt, mul-le-mul_left}
use native.Mathlib.Decide.{dec_le}
use fastbook.Prelude.{
  ℕ, zero, suc, ◌+◌, ◌*◌, ◌/◌, ◌%◌, ◌^◌, ◌≤◌, ◌<◌, min, max, ◌≡◌, ap, ◌∙◌, arith, List, [], ◌∷◌,
  length, length-set, set, get_or, take, Bool-cases, inl, inr, leb, ◌==◌, if◌then◌else◌,
}
use fastbook.Common.Histogram.{
  value_limit, max_buckets, value_to_bucket, bucket_to_value, Histogram, record_value, Percentile,
  infinity, at_most, percentile_from, percentile,
}
use fastbook.Common.Histogram.Buckets.{bucket-to-value-bounds, overflow-bucket}

unfoldable pub sum : List ℕ → ℕ
sum [] = 0
sum (n ∷ ns) = n + sum ns

-- No counter has wrapped.
pub record Consistent (h : Histogram) : Type 0 where
  pub buckets : length h.samples ≡ max_buckets + 1
  pub total : h.total_samples ≡ sum h.samples
  pub fits : sum h.samples < 2 ^ 64

bucket_lt : (v : ℕ) → value_to_bucket v < max_buckets + 1
bucket_lt v = elim (dec_le value_limit v) [
  | yes big ↦ omega (arith, overflow-bucket v big)
  | no small ↦ omega (arith, (bucket-to-value-bounds v (omega (arith, small))).0)
]

get_or-le : (ns : List ℕ) (i : ℕ) → get_or ns i 0 ≤ sum ns
unfolding sum
get_or-le [] i = omega arith
get_or-le (n ∷ ns) zero = omega arith
get_or-le (n ∷ ns) (suc i) = omega (arith, get_or-le ns i)

sum-set : (ns : List ℕ) (i v : ℕ) → i < length ns → sum (set ns i v) + get_or ns i 0 ≡ sum ns + v
unfolding sum
sum-set [] i v h = absurd (omega arith)
sum-set (n ∷ ns) zero v h = omega arith
sum-set (n ∷ ns) (suc i) v h = omega (arith, sum-set ns i v (omega arith))

-- `record` counts one more sample, whatever the value, unless there are 2 ^ 64 - 1 of them.
pub record_value-Consistent :
    (h : Histogram) (v : ℕ)
    → Consistent h
    → h.total_samples + 1 < 2 ^ 64
    → Consistent (record_value h v) × ((record_value h v).total_samples ≡ h.total_samples + 1)
unfolding record_value
record_value-Consistent h v c room =
    let b = value_to_bucket v in
    let old = get_or h.samples b 0 in
    let whole : (old + 1) % 2 ^ 64 ≡ old + 1 =
      mod-eq_of_lt (omega (arith, get_or-le h.samples b, c.total, room)) in
    let added = sum-set h.samples b ((old + 1) % 2 ^ 64) (omega (arith, bucket_lt v, c.buckets)) in
    let more : sum (set h.samples b ((old + 1) % 2 ^ 64)) ≡ sum h.samples + 1 =
      omega (arith, added, whole) in
    let one : (h.total_samples + 1) % 2 ^ 64 ≡ h.total_samples + 1 = mod-eq_of_lt room in
    (
      record {
        buckets = length-set h.samples b _ ∙ c.buckets;
        total = omega (arith, one, more, c.total);
        fits = omega (arith, more, c.total, room);
      },
      one,
    )

abbrev found : ℕ → ℕ → Percentile
found top i = if i == max_buckets then infinity else at_most (min (bucket_to_value i) top)

-- The first bucket up to which `threshold` samples are counted.
pub record First (threshold start : ℕ) (ns : List ℕ) (j : ℕ) : Type 0 where
  pub inside : j < length ns
  pub below : start + sum (take j ns) < threshold
  pub reached : threshold ≤ start + sum (take (suc j) ns)

percentile_from-cons :
    (threshold top i s n : ℕ) (ns : List ℕ)
    → s + n < 2 ^ 64
    → percentile_from threshold top i s (n ∷ ns) ≡ (
        if leb threshold (s + n)
        then found top i
        else percentile_from threshold top (i + 1) (s + n) ns)
unfolding percentile_from
percentile_from-cons threshold top i s n ns fits =
    ap
      (λ sum.
        if leb threshold sum then found top i else percentile_from threshold top (i + 1) sum ns)
      (mod-eq_of_lt fits)

percentile_from-First :
    (threshold top i s : ℕ) (ns : List ℕ)
    → s < threshold
    → threshold ≤ s + sum ns
    → s + sum ns < 2 ^ 64
    → (j : ℕ) × First threshold s ns j × (percentile_from threshold top i s ns ≡ found top (i + j))
unfolding sum
percentile_from-First threshold top i s [] low high fits = absurd (omega arith)
percentile_from-First threshold top i s (n ∷ ns) low high fits =
    let once = percentile_from-cons threshold top i s n ns (omega arith) in
    let later = percentile_from threshold top (i + 1) (s + n) ns in
    elim (Bool-cases (leb threshold (s + n))) [
      | inl there ↦ (
        0,
        record { inside = omega arith; below = omega arith; reached = ground arith },
        once
            ∙ ap (λ t. if t then found top i else later) there
            ∙ (ap (found top) {x = i} {y = i + 0} (omega arith)),
      )
      | inr short ↦
          let (j, first, same) =
            percentile_from-First threshold top (i + 1) (s + n) ns (ground arith) (omega arith)
              (omega arith) in
          let inside = first.inside in
          let below = first.below in
          let reached = first.reached in
          (
            suc j,
            record { inside = omega arith; below = omega arith; reached = omega arith },
            once
                ∙ ap (λ t. if t then found top i else later) short
                ∙ (same ∙ ap (found top) {x = i + 1 + j} {y = i + suc j} (omega arith)),
          )
    ]

-- The number of samples that a percentile asks for, rounded up, one at least.
abbrev pub threshold_of : ℕ → ℕ → ℕ
threshold_of total per_100k = max ((total * per_100k + 99999) % 2 ^ 64 / 100000) 1

-- With a sample, and the product for the threshold in 64 bits, a percentile of 100 at most is the value
-- of the first bucket up to which enough samples are counted, or the greatest value recorded if that is
-- less, or infinity in the bucket of overflow.
pub percentile-First :
    (per_100k : ℕ) (h : Histogram)
    → Consistent h
    → 0 < h.total_samples
    → per_100k ≤ 100000
    → h.total_samples * per_100k + 99999 < 2 ^ 64
    → (i : ℕ) × First (threshold_of h.total_samples per_100k) 0 h.samples i
      × (percentile per_100k h
          ≡ (if i == max_buckets then infinity else at_most (min (bucket_to_value i) h.max_value)))
unfolding percentile
percentile-First per_100k h c some_samples le fits =
    let product = mul-le-mul_left h.total_samples le in
    let whole = mod-eq_of_lt fits in
    let t = threshold_of h.total_samples per_100k in
    let few : t ≤ h.total_samples = omega (arith, product, whole, some_samples) in
    let (i, first, same) =
      percentile_from-First t h.max_value 0 0 h.samples (omega arith) (omega (arith, few, c.total))
        (omega (arith, c.fits)) in
    (i, first, same ∙ ap (found h.max_value) {x = 0 + i} {y = i} (omega arith))
