-- ===== src/Common/Histogram/Buckets.antt =====
-- A value and its bucket: the bucket holds it, and stands for one that is little more.
use native.Mathlib.Nat.{div-add-mod', mod-lt, div-lt_iff_lt-mul, pow-le-pow_right, mul-le-mul_right}
use native.Mathlib.Decide.{dec_le}
use fastbook.Prelude.{
  ℕ, suc, ◌+◌, ◌-◌, ◌*◌, ◌/◌, ◌%◌, ◌^◌, ◌≤◌, ◌<◌, ◌≡◌, sym, ap, ◌∙◌, arith, ltb, if◌then◌else◌,
}
use fastbook.Prelude.Bits.{bit_and-mask, two-pow_pos}
use fastbook.Common.Table.Ring.{two-pow_split}
use fastbook.Common.Histogram.{
  exact_limit, value_limit, max_buckets, bit_width, value_to_bucket, bucket_to_value,
}
use fastbook.Common.Histogram.Width.{bit-width-pow}

-- The numbers of a value that is not stored exactly: `v` is `m * w + low` with `w` a power of two.
record Split (v : ℕ) : Type 0 where
  d : ℕ
  m : ℕ
  low : ℕ
  whole : v ≡ m * 2 ^ d + low
  low_lt : low < 2 ^ d
  m_ge : 16 ≤ m
  m_lt : m < 32
  d_lt : d < 28
  bucket : value_to_bucket v ≡ d * 16 + m

choose :
    (v x : ℕ)
    → exact_limit ≤ v
    → v < value_limit
    → (if ltb v exact_limit then v else if ltb v value_limit then x else max_buckets) ≡ x
choose v x big small = ground arith

split : (v : ℕ) → exact_limit ≤ v → v < value_limit → Split v
unfolding value_to_bucket
split v big small =
    let (k, bits, low, high) = bit-width-pow 64 v (omega arith) (omega arith) in
    let k_ge : 4 ≤ k = elim (dec_le 4 k) [
      | yes h ↦ h
      | no h ↦ absurd (
          omega (
            arith,
            pow-le-pow_right {n = 2} (omega arith) {i = k} {j = 3} (omega (arith, h)),
            high,
          ))
    ] in
    let k_lt : k < 32 = elim (dec_le (suc k) 32) [
      | yes h ↦ h
      | no h ↦ absurd (
          omega (
            arith,
            pow-le-pow_right {n = 2} (omega arith) {i = 32} {j = k} (omega (arith, h)),
            low,
          ))
    ] in
    let d = k - 4 in
    let w = 2 ^ d in
    let pos = two-pow_pos d in
    let sixteen : 2 ^ k ≡ 16 * w =
      two-pow_split d k (omega arith) ∙ ap (λ i. 2 ^ i * w) {y = 4} (omega (arith, k_ge)) in
    record {
      d = d;
      m = v / w;
      low = v % w;
      whole = sym (div-add-mod' v w);
      low_lt = mod-lt v pos;
      m_ge = elim (dec_le 16 (v / w)) [
        | yes h ↦ h
        | no h ↦ absurd (
            omega
              (arith, (div-lt_iff_lt-mul {x = v} {y = 16} pos).0 (omega (arith, h)), low, sixteen))
      ];
      m_lt = (div-lt_iff_lt-mul {x = v} {y = 32} pos).1 (omega (arith, high, sixteen));
      d_lt = omega (arith, k_lt, k_ge);
      bucket =
          ap
            (λ b.
              if ltb v exact_limit
              then v
              else if ltb v value_limit
              then (b - 1 - 4) * 16 + v / 2 ^ (b - 1 - 4)
              else max_buckets)
            bits
          ∙ ap
              (λ i.
                if ltb v exact_limit
                then v
                else if ltb v value_limit
                then i * 16 + v / 2 ^ i
                else max_buckets)
              {y = k - 4} (omega arith)
          ∙ choose v (d * 16 + v / w) big small;
    }

-- The greatest value of a bucket.
bucket_top :
    (d m : ℕ) → 16 ≤ m → m < 32 → d < 28 → bucket_to_value (d * 16 + m) ≡ m * 2 ^ d + 2 ^ d - 1
unfolding bucket_to_value
bucket_top d m low high small =
    let b = d * 16 + m in
    let value : ℕ → ℕ → ℕ = λ kept d.
      if ltb b exact_limit
      then b
      else if ltb b max_buckets
      then kept * 2 ^ d + 2 ^ d - 1
      else value_limit in
    ap (λ slice. value (16 + slice) (b / 16 - 1)) (bit_and-mask b 4)
    ∙ ap (λ kept. value kept (b / 16 - 1)) {y = m} (omega arith)
    ∙ ap (λ d. value m d) {y = d} (omega arith)
    ∙ ground arith

exact-bucket : (v : ℕ) → v < exact_limit → value_to_bucket v ≡ v
unfolding value_to_bucket
exact-bucket v small = ground arith

exact-value : (b : ℕ) → b < exact_limit → bucket_to_value b ≡ b
unfolding bucket_to_value
exact-value b small = ground arith

scaled : (m w low : ℕ) → 16 ≤ m → low < w → (m * w + w - 1) * 16 ≤ (m * w + low) * 17
scaled m w low h l = omega (arith, mul-le-mul_right w h)

-- Every value below 2 ^ 32 has a bucket of its own range; the value that the bucket stands for is at
-- least as great, and greater by a sixteenth at most.
pub bucket-to-value-bounds :
    (v : ℕ)
    → v < value_limit
    → (value_to_bucket v < max_buckets)
      × (v ≤ bucket_to_value (value_to_bucket v))
      × (bucket_to_value (value_to_bucket v) * 16 ≤ v * 17)
bucket-to-value-bounds v small = elim (dec_le exact_limit v) [
  | no exact ↦
      let bucket = exact-bucket v (omega (arith, exact)) in
      let value = ap bucket_to_value bucket ∙ exact-value v (omega (arith, exact)) in
      (omega (arith, bucket, exact), omega (arith, value), omega (arith, value))
  | yes big ↦
      let s = split v big small in
      let w = 2 ^ s.d in
      let top = ap bucket_to_value s.bucket ∙ bucket_top s.d s.m s.m_ge s.m_lt s.d_lt in
      (
        omega (arith, s.bucket, s.m_lt, s.d_lt),
        omega (arith, top, s.whole, s.low_lt),
        omega (arith, top, s.whole, scaled s.m w s.low s.m_ge s.low_lt),
      )
]

too_big :
    (v x : ℕ)
    → value_limit ≤ v
    → (if ltb v exact_limit then v else if ltb v value_limit then x else max_buckets) ≡ max_buckets
too_big v x big = ground arith

-- Greater values share one bucket.
pub overflow-bucket : (v : ℕ) → value_limit ≤ v → value_to_bucket v ≡ max_buckets
unfolding value_to_bucket
overflow-bucket v big =
    too_big v ((bit_width 64 v - 1 - 4) * 16 + v / 2 ^ (bit_width 64 v - 1 - 4)) big
