-- ===== src/Common/Spsc/Window.antt =====
-- Positions that are fewer than `N` apart have different slots.
use native.Mathlib.Nat.{div-add-mod', add-mod_right, mod-add-mod}
use native.Mathlib.Decide.{dec_le}
use fastbook.Prelude.{ℕ, ◌+◌, ◌%◌, ◌^◌, ◌≤◌, ◌<◌, ◌≡◌, ◌≢◌, ap, arith, ◌∙◌}
use fastbook.Prelude.Bits.{bit_and-mask}
use fastbook.Common.Spsc.{wrap}

pub mod_apart : (i j n : ℕ) → i < j → j < i + n → i % n ≢ j % n
mod_apart i j n h k e = grind (arith, div-add-mod' i n, div-add-mod' j n)

pub wrap-mod : (k i : ℕ) → wrap k i ≡ i % 2 ^ k
unfolding wrap
wrap-mod k i = bit_and-mask i k

pub suc-mod_step : (i n : ℕ) → (i % n + 1) % n ≡ (i + 1) % n
suc-mod_step i n = mod-add-mod i n 1

-- The next index is not `c`'s, so there is room for one more.
pub room_of_ne : (h c n : ℕ) → h + 1 ≤ c + n → (h % n + 1) % n ≢ c % n → h + 2 ≤ c + n
room_of_ne h c n le ne = elim (dec_le (h + 2) (c + n)) [
  | yes p ↦ p
  | no q ↦
      let e : h + 1 ≡ c + n = omega arith in
      absurd (ne (suc-mod_step h n ∙ ap (λ x. x % n) e ∙ add-mod_right c n))
]
