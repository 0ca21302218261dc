-- ===== src/Common/Histogram.antt =====
-- src/common/profiling.hpp: the histogram of delays, with sixteen buckets for each power of two. A
-- percentile is a bucket's value or infinity; how it is scaled and printed is left out.
pub mod Width
pub mod Buckets
pub mod Counts
mod Tests
use Prim.Native.Nat.{bit_and}
use fastbook.Prelude.{
  ℕ, zero, suc, ◌+◌, ◌-◌, ◌*◌, ◌/◌, ◌%◌, ◌^◌, min, max, List, [], ◌∷◌, Option, none, some, ltb, leb,
  ◌==◌, set, get_or, replicate, if◌then◌else◌,
}

abbrev pub accuracy_bits : ℕ
accuracy_bits = 4

abbrev pub range_bits : ℕ
range_bits = 32

abbrev pub slice_mask : ℕ
slice_mask = 2 ^ accuracy_bits - 1

abbrev pub exact_limit : ℕ
exact_limit = 2 ^ accuracy_bits

abbrev pub value_limit : ℕ
value_limit = 2 ^ range_bits

abbrev pub max_buckets : ℕ
max_buckets = (range_bits - accuracy_bits + 1) * 2 ^ accuracy_bits

-- `std::bit_width` of a number of at most `n` bits.
pub bit_width : ℕ → ℕ → ℕ
bit_width zero value = 0
bit_width (suc n) value = let rest = bit_width n (value / 2) in if value == 0 then 0 else suc rest

unfoldable pub value_to_bucket : ℕ → ℕ
unfolding bit_width
value_to_bucket value =
    let range_bit = bit_width 64 value - 1 in
    let d = range_bit - accuracy_bits in
    if ltb value exact_limit
    then value
    else if ltb value value_limit
    then d * 2 ^ accuracy_bits + value / 2 ^ d
    else max_buckets

unfoldable pub bucket_to_value : ℕ → ℕ
bucket_to_value bucket =
    let slice = bit_and bucket slice_mask in
    let d = bucket / 2 ^ accuracy_bits - 1 in
    let kept = 2 ^ accuracy_bits + slice in
    if ltb bucket exact_limit
    then bucket
    else if ltb bucket max_buckets
    then kept * 2 ^ d + 2 ^ d - 1
    else value_limit

pub record Histogram : Type 0 where
  pub samples : List ℕ
  pub total_samples : ℕ
  pub min_value : ℕ
  pub max_value : ℕ

unfoldable pub empty : Histogram
empty = record {
  samples = replicate (max_buckets + 1) 0;
  total_samples = 0;
  min_value = 2 ^ 64 - 1;
  max_value = 0;
}

-- `Histogram::record`
unfoldable pub record_value : Histogram → ℕ → Histogram
unfolding value_to_bucket
record_value h value =
    let b = value_to_bucket value in
    record {
      samples = set h.samples b ((get_or h.samples b 0 + 1) % 2 ^ 64);
      total_samples = (h.total_samples + 1) % 2 ^ 64;
      min_value = min h.min_value value;
      max_value = max h.max_value value;
    }

unfoldable pub add_samples : List ℕ → List ℕ → List ℕ
add_samples [] others = []
add_samples (n ∷ ns) [] = n ∷ ns
add_samples (n ∷ ns) (m ∷ ms) = (n + m) % 2 ^ 64 ∷ add_samples ns ms

unfoldable pub merge : Histogram → Histogram → Histogram
unfolding add_samples
merge h other = record {
  samples = add_samples h.samples other.samples;
  total_samples = (h.total_samples + other.total_samples) % 2 ^ 64;
  min_value = min h.min_value other.min_value;
  max_value = max h.max_value other.max_value;
}

-- What `percentile` returns.
pub data Percentile : Type 0 where
  nothing infinity : Percentile
  at_most : ℕ → Percentile

-- The loop, at bucket `i`.
unfoldable pub percentile_from : ℕ → ℕ → ℕ → ℕ → List ℕ → Percentile
unfolding bucket_to_value
percentile_from threshold top i samples_s [] = nothing
percentile_from threshold top i samples_s (n ∷ ns) =
    let sum = (samples_s + n) % 2 ^ 64 in
    let rest = percentile_from threshold top (i + 1) sum ns in
    if leb threshold sum
    then if i == max_buckets then infinity else at_most (min (bucket_to_value i) top)
    else rest

-- `percentile<P>`, with `P` in units of 1 / 1000.
unfoldable pub percentile : ℕ → Histogram → Percentile
unfolding percentile_from
percentile per_100k h =
    let threshold = max ((h.total_samples * per_100k + 99999) % 2 ^ 64 / 100000) 1 in
    percentile_from threshold h.max_value 0 0 h.samples
