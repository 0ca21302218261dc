-- ===== src/Prelude/Bits.antt =====
-- `x & (2 ^ k - 1)` is `x % 2 ^ k`.
use Prim.Native.Nat.{
  ℕ, zero, suc, ◌+◌, ◌-◌, ◌*◌, ◌/◌, ◌%◌, ◌^◌, ◌≤◌, ◌<◌, min, bit_and, digits, bit_and-bitwise,
}
use mathlib.Core.Path.{◌≡◌, ap, ◌∙◌}
use native.Mathlib.Nat.{
  pow-suc, one-le-pow, mod-lt, mod-eq_of_lt, mul-add-mod_self_right, div-add-mod',
}
use native.Mathlib.Omega.{arith}

pub two-pow_pos : (k : ℕ) → 0 < 2 ^ k
two-pow_pos k = one-le-pow k 2 (omega arith)

-- The remainder by an even number, from that of the half.
mod_double : (x m : ℕ) → 0 < m → x % (m * 2) ≡ x / 2 % m * 2 + x % 2
mod_double x m h =
    let c = x / 2 % m * 2 + x % 2 in
    let whole : x ≡ x / 2 / m * (m * 2) + c =
      omega (arith, ap (λ (t : ℕ). t * 2) (div-add-mod' (x / 2) m)) in
    let small : c < m * 2 = omega (arith, mod-lt (x / 2) h) in
    ap (λ t. t % (m * 2)) whole ∙ mul-add-mod_self_right (x / 2 / m) (m * 2) c ∙ mod-eq_of_lt small

digits-mask : (n a k : ℕ) → a ≤ n → digits (λ b. zero) min n a (2 ^ k - 1) ≡ a % 2 ^ k
digits-mask zero zero k h = omega (arith, two-pow_pos k)
digits-mask zero (suc a) k h = absurd (omega arith)
digits-mask (suc n) zero k h = omega (arith, two-pow_pos k)
digits-mask (suc n) (suc a) zero h = omega (arith, digits-mask n (suc a / 2) zero (omega arith))
digits-mask (suc n) (suc a) (suc k) h =
    let p = two-pow_pos k in
    let half : (2 ^ suc k - 1) / 2 ≡ 2 ^ k - 1 = omega (arith, pow-suc 2 k) in
    let odd : (2 ^ suc k - 1) % 2 ≡ 1 = omega (arith, pow-suc 2 k) in
    rw (half, odd)
      (omega (
        arith,
        digits-mask n (suc a / 2) k (omega arith),
        mod_double (suc a) (2 ^ k) p,
        ap (λ (t : ℕ). suc a % t) (pow-suc 2 k),
      ))

pub bit_and-mask : (a k : ℕ) → bit_and a (2 ^ k - 1) ≡ a % 2 ^ k
bit_and-mask a k = bit_and-bitwise a (2 ^ k - 1) ∙ digits-mask a a k (omega arith)
