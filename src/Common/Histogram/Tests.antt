-- ===== src/Common/Histogram/Tests.antt =====
-- A value of a thousand, and the median of one sample.
use fastbook.Prelude.{ℕ, ◌*◌, ◌≤◌, ◌<◌, min, ◌≡◌, refl, arith, ◌==◌, if◌then◌else◌}
use fastbook.Common.Histogram.{
  max_buckets, value_to_bucket, bucket_to_value, Histogram, empty, record_value, infinity, at_most,
  percentile,
}
use fastbook.Common.Histogram.Buckets.{bucket-to-value-bounds}
use fastbook.Common.Histogram.Counts.{
  sum, Consistent, First, threshold_of, record_value-Consistent, percentile-First,
}

bucket-to-value-bounds_example :
    (value_to_bucket 1000 < max_buckets)
    × (1000 ≤ bucket_to_value (value_to_bucket 1000))
    × (bucket_to_value (value_to_bucket 1000) * 16 ≤ 1000 * 17)
bucket-to-value-bounds_example = bucket-to-value-bounds 1000 (omega arith)

thousand : bucket_to_value (value_to_bucket 1000) ≡ 1023
unfolding value_to_bucket bucket_to_value
thousand = refl

empty-Consistent : Consistent empty
unfolding empty sum
empty-Consistent = record { buckets = refl; total = refl; fits = omega arith }

empty-total : empty.total_samples ≡ 0
unfolding empty
empty-total = refl

abbrev one_sample : Histogram
one_sample = record_value empty 1000

one_sample_total : one_sample.total_samples ≡ 1
unfolding empty record_value
one_sample_total = refl

percentile-First_example :
    (i : ℕ) × First (threshold_of one_sample.total_samples 50000) 0 one_sample.samples i
    × (percentile 50000 one_sample ≡ (
        if i == max_buckets
        then infinity
        else at_most (min (bucket_to_value i) one_sample.max_value)))
percentile-First_example =
    percentile-First 50000 one_sample
      (record_value-Consistent empty 1000 empty-Consistent (omega (arith, empty-total))).0
      (omega (arith, one_sample_total)) (omega arith) (omega (arith, one_sample_total))
