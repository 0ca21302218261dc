-- ===== src/Common/Histogram/Width.antt =====
-- The bit width of a number lies between two powers of two.
use native.Mathlib.Nat.{pow-suc}
use fastbook.Prelude.{
  ℕ, zero, suc, ◌*◌, ◌/◌, ◌^◌, ◌≤◌, ◌<◌, ◌≡◌, refl, ap, ◌∙◌, arith, Bool-cases, inl, inr, ◌==◌,
  if◌then◌else◌,
}
use fastbook.Common.Histogram.{bit_width}

bit_width-zero : (n : ℕ) → bit_width n 0 ≡ 0
unfolding bit_width
bit_width-zero zero = refl
bit_width-zero (suc n) = refl

not_zero : (v rest : ℕ) → 0 < v → (if v == 0 then 0 else suc rest) ≡ suc rest
not_zero v rest pos = ground arith

pub bit-width-pow :
    (n v : ℕ)
    → 0 < v
    → v < 2 ^ n
    → (k : ℕ) × (bit_width n v ≡ suc k) × (2 ^ k ≤ v) × (v < 2 ^ k * 2)
unfolding bit_width
bit-width-pow zero v pos small = absurd (omega arith)
bit-width-pow (suc n) v pos small = elim (Bool-cases (v / 2 == 0)) [
  | inl one ↦
      let half : v / 2 ≡ 0 = ground arith in
      let rest : bit_width n (v / 2) ≡ 0 = ap (bit_width n) half ∙ bit_width-zero n in
      (0, not_zero v (bit_width n (v / 2)) pos ∙ ap suc rest, omega arith, omega (arith, half))
  | inr more ↦
      let (k, width, low, high) =
        bit-width-pow n (v / 2) (ground arith) (omega (arith, pow-suc 2 n)) in
      (
        suc k,
        not_zero v (bit_width n (v / 2)) pos ∙ ap suc width,
        omega (arith, low, pow-suc 2 k),
        omega (arith, high, pow-suc 2 k),
      )
]
