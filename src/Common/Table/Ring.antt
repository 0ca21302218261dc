-- ===== src/Common/Table/Ring.antt =====
-- Slots as positions on a ring of `n`: the distance from one to another, and the step from one on.
use native.Mathlib.Nat.{mod-eq_of_lt, add-mod_right, pow-suc, mul-add-mod_self_right, div-add-mod'}
use Prim.Native.Nat.{bit_and}
use fastbook.Prelude.{
  ℕ, zero, suc, ◌+◌, ◌-◌, ◌*◌, ◌/◌, ◌%◌, ◌^◌, ◌≤◌, ◌<◌, ◌≡◌, ◌≢◌, sym, ap, arith, ◌∙◌, leb, ltb,
  if◌then◌else◌,
}
use fastbook.Prelude.Bits.{bit_and-mask, two-pow_pos}

abbrev pub off : ℕ → ℕ → ℕ → ℕ
off n a b = if leb a b then b - a else b + n - a

abbrev pub step : ℕ → ℕ → ℕ → ℕ
step n a i = if ltb (a + i) n then a + i else a + i - n

pub step-lt : (n a i : ℕ) → a < n → i ≤ n → step n a i < n
step-lt n a i ha hi = ground arith

pub off-lt : (n a b : ℕ) → a < n → b < n → off n a b < n
off-lt n a b ha hb = ground arith

pub off-step : (n a i : ℕ) → a < n → i < n → off n a (step n a i) ≡ i
off-step n a i ha hi = ground arith

pub step-off : (n a b : ℕ) → a < n → b < n → step n a (off n a b) ≡ b
step-off n a b ha hb = ground arith

pub off_inj : (n a b c : ℕ) → a < n → b < n → c < n → off n a b ≡ off n a c → b ≡ c
off_inj n a b c ha hb hc e = ground arith

pub add-mod_step : (n a i : ℕ) → a < n → i ≤ n → (a + i) % n ≡ step n a i
add-mod_step n a i ha hi = grind (arith, mod-eq_of_lt, add-mod_right (a + i - n) n)

-- A multiple of the modulus under a remainder by a multiple of it.
pub mod-mod_mul : (x n m : ℕ) → 0 < n → 0 < m → x % (m * n) % n ≡ x % n
mod-mod_mul x n m hn hm =
    let whole = div-add-mod' x (m * n) in
    let q = x / (m * n) in
    let e : x ≡ q * m * n + x % (m * n) = grind (arith, whole) in
    sym (ap (λ t. t % n) e ∙ mul-add-mod_self_right (q * m) n (x % (m * n)))

mul-two : (x y : ℕ) → x * y * 2 ≡ x * 2 * y
mul-two x y = grind arith

add-one_mul : (m n : ℕ) → (m + 1) * n ≡ m * n + n
add-one_mul m n = grind arith

mul_pred : (m n : ℕ) → 0 < m → m * n ≡ (m - 1) * n + n
mul_pred m n h = let e : m ≡ m - 1 + 1 = omega arith in ap (λ t. t * n) e ∙ add-one_mul (m - 1) n

two-pow-add : (k i : ℕ) → 2 ^ (k + i) ≡ 2 ^ k * 2 ^ i
two-pow-add zero i = ap (λ t. 2 ^ t) {y = i} (omega arith) ∙ omega arith
two-pow-add (suc k) i =
    let shift : suc k + i ≡ suc (k + i) = omega arith in
    ap (λ t. 2 ^ t) shift
    ∙ pow-suc 2 (k + i)
    ∙ ap (λ t. t * 2) (two-pow-add k i)
    ∙ mul-two (2 ^ k) (2 ^ i)
    ∙ ap (λ t. t * 2 ^ i) (sym (pow-suc 2 k))

pub two-pow_split : (k j : ℕ) → k ≤ j → 2 ^ j ≡ 2 ^ (j - k) * 2 ^ k
two-pow_split k j h = ap (λ t. 2 ^ t) {y = j - k + k} (omega arith) ∙ two-pow-add (j - k) k

pub mask-add_step :
    (k a i : ℕ) → a < 2 ^ k → i ≤ 2 ^ k → bit_and (a + i) (2 ^ k - 1) ≡ step (2 ^ k) a i
mask-add_step k a i ha hi = bit_and-mask (a + i) k ∙ add-mod_step (2 ^ k) a i ha hi

wrap_sub : (n a b : ℕ) → a < n → b < n → (b + n - a) % n ≡ off n a b
wrap_sub n a b ha hb = grind (arith, mod-eq_of_lt, λ (h : a ≤ b). add-mod_right (b - a) n)

-- Both subtractions of `erase`: of 64 bits, and then masked.
pub mask-sub_off :
    (k a b : ℕ)
    → k ≤ 64
    → a < 2 ^ k
    → b < 2 ^ k
    → bit_and ((b + 2 ^ 64 - a) % 2 ^ 64) (2 ^ k - 1) ≡ off (2 ^ k) a b
mask-sub_off k a b hk ha hb =
    let n = 2 ^ k in
    let m = 2 ^ (64 - k) in
    let pm = two-pow_pos (64 - k) in
    let pn = two-pow_pos k in
    let split : 2 ^ 64 ≡ m * n = two-pow_split k 64 hk in
    let rest : b + 2 ^ 64 - a ≡ (m - 1) * n + (b + n - a) = omega (arith, split, mul_pred m n pm) in
    bit_and-mask _ k
    ∙ ap (λ t. (b + 2 ^ 64 - a) % t % n) split
    ∙ mod-mod_mul (b + 2 ^ 64 - a) n m pn pm
    ∙ ap (λ t. t % n) rest
    ∙ mul-add-mod_self_right (m - 1) n (b + n - a)
    ∙ wrap_sub n a b ha hb

-- Going round from `h`, `c` comes before `p` if `e` does and `c` lies between `e` and `p`.
pub off_between :
    (n h e c p : ℕ)
    → h < n
    → e < n
    → c < n
    → p < n
    → off n h e < off n h p
    → off n e c < off n e p
    → off n h c < off n h p
off_between n h e c p hh he hc hp a b = ground arith

pub off-next :
    (n e c : ℕ) → e < n → c < n → off n e c + 1 < n → off n e (step n c 1) ≡ off n e c + 1
off-next n e c he hc h = ground arith

pub off_down : (n c z : ℕ) → c < n → z < n → c ≢ z → off n (step n c 1) z + 1 ≡ off n c z
off_down n c z hc hz h = ground arith

pub off_pos : (n a b : ℕ) → a < n → b < n → a ≢ b → 0 < off n a b
off_pos n a b ha hb h = ground arith

pub off_self : (n a : ℕ) → off n a a ≡ 0
off_self n a = ground arith

pub off-one : (n a b : ℕ) → a < n → b < n → a ≢ b → off n a (step n a 1) ≡ 1
off-one n a b ha hb h = ground arith
