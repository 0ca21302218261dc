-- ===== src/Common/Table/Fresh.antt =====
-- The Fibonacci hash, and the constructor's table.
use fastbook.Prelude.{
  ℕ, zero, suc, ◌+◌, ◌-◌, ◌*◌, ◌%◌, ◌^◌, ◌≤◌, ◌<◌, ◌≡◌, ◌∙◌, refl, sym, ap, arith, length-replicate,
  replicate,
}
use native.Mathlib.Nat.{mod-lt}
use fastbook.Common.Table.{fib_hash, EraseMode, Slot, blank_slot, slot_at, find, new}
use fastbook.Common.Table.Valid.{Live, Shape}
use fastbook.Common.Table.Find.{find-absent}
use fastbook.Prelude.Bits.{two-pow_pos}
use fastbook.Common.Table.Ring.{two-pow_split}
use fastbook.Common.Table.Live.{count_live}
use fastbook.Common.Table.Store.{IsValid}

pub fib-hash-lt : (key : ℕ) → fib_hash key < 2 ^ 64
unfolding fib_hash
fib-hash-lt key = mod-lt _ (omega arith)

slot-at-replicate : (n p : ℕ) → slot_at (replicate n blank_slot) p ≡ blank_slot
slot-at-replicate zero p = refl
slot-at-replicate (suc n) zero = refl
slot-at-replicate (suc n) (suc p) = slot-at-replicate n p

count-live-replicate : (mode : EraseMode) (n : ℕ) → count_live mode (replicate n blank_slot) ≡ 0
unfolding count_live
count-live-replicate mode zero = refl
count-live-replicate mode (suc n) = omega (arith, count-live-replicate mode n)

at_most : (a b : ℕ) → 0 < b → a ≤ b * a
at_most a b h = grind arith

module _ (mode : EraseMode) (hash : ℕ → ℕ) (word : (key : ℕ) → hash key < 2 ^ 64) where
  blank : (n p : ℕ) → ¬ Live mode (replicate n blank_slot) p
  blank n p live = live.0 (ap (λ (s : Slot). s.value) (slot-at-replicate n p))

  -- Twice `2 ^ k` does not wrap.
  no_wrap : (k : ℕ) → k < 59 → 2 ^ k * 2 % 2 ^ 64 ≡ 2 ^ (k + 1)
  no_wrap k small =
      let split = two-pow_split (k + 1) 63 (omega arith) in
      let doubled = two-pow_split k (k + 1) (omega arith) in
      let two : 2 ^ (k + 1) ≡ 2 * 2 ^ k = doubled ∙ ap (λ i. 2 ^ i * 2 ^ k) {y = 1} (omega arith) in
      let le = at_most (2 ^ (k + 1)) (2 ^ (63 - (k + 1))) (two-pow_pos (63 - (k + 1))) in
      omega (arith, two, split, le)

  pub new_capacity : (k : ℕ) → k < 59 → ((new k).capacity ≡ 2 ^ (k + 1)) × ((new k).size ≡ 0)
  unfolding new
  new_capacity k small = (no_wrap k small, refl)

  -- A new table of `2 ^ (k + 1)` slots of 16 bytes, in all fewer than 2 ^ 64 bytes, is valid and
  -- answers null for every key.
  pub find-new :
      (k : ℕ) → k < 59 → IsValid mode hash (new k) × ((key : ℕ) → find mode hash (new k) key ≡ 0)
  unfolding new
  find-new k small =
      let shape : Shape (new k) = record {
        bits = k + 1;
        bits_le = omega arith;
        capacity = no_wrap k small;
        shift = refl;
        slots = length-replicate (2 ^ k * 2 % 2 ^ 64) blank_slot;
      } in
      (
        record {
          shape = shape;
          probed = record {
            path = λ p q hp hq live. absurd (blank (2 ^ k * 2 % 2 ^ 64) p live);
            unique = λ p q hp hq live. absurd (blank (2 ^ k * 2 % 2 ^ 64) p live);
          };
          size = sym (count-live-replicate mode (2 ^ k * 2 % 2 ^ 64));
        },
        λ key.
            find-absent mode hash word (new k) key shape
              (λ p hp live. absurd (blank (2 ^ k * 2 % 2 ^ 64) p live)),
      )
