-- ===== src/Book/Levels/Rank.antt =====
-- Prices of a side by how good they are: the order in which `better` compares them.
use fastbook.Prelude.{ℕ, ◌-◌, ◌≤◌, ◌<◌, ◌≡◌, ◌≢◌, refl, arith, ltb}
use fastbook.Feed.Event.{Side, bid, ask}
use fastbook.Book.Levels.{u32_max, empty_price, best_possible, better}

abbrev pub rank : Side → ℕ → ℕ
rank bid p = p
rank ask p = u32_max - p

abbrev pub IsPrice : ℕ → Type 0
IsPrice p = p ≤ u32_max

pub better-rank :
    (s : Side) (a b : ℕ) → IsPrice a → IsPrice b → better s a b ≡ ltb (rank s b) (rank s a)
better-rank bid a b h k = refl
better-rank ask a b h k = ground arith

pub rank-injective : (s : Side) (a b : ℕ) → IsPrice a → IsPrice b → rank s a ≡ rank s b → a ≡ b
rank-injective bid a b h k e = e
rank-injective ask a b h k e = omega arith

pub rank-empty_price : (s : Side) → rank s (empty_price s) ≡ 0
rank-empty_price bid = refl
rank-empty_price ask = refl

pub rank-best_possible : (s : Side) → rank s (best_possible s) ≡ u32_max
rank-best_possible bid = refl
rank-best_possible ask = refl

pub empty_price-IsPrice : (s : Side) → IsPrice (empty_price s)
empty_price-IsPrice bid = omega arith
empty_price-IsPrice ask = omega arith

pub best_possible-IsPrice : (s : Side) → IsPrice (best_possible s)
best_possible-IsPrice bid = omega arith
best_possible-IsPrice ask = omega arith

pub rank_pos : (s : Side) (p : ℕ) → IsPrice p → p ≢ empty_price s → 0 < rank s p
rank_pos bid p h k = omega arith
rank_pos ask p h k = omega arith

pub ne_of_rank_pos : (s : Side) (p : ℕ) → 0 < rank s p → p ≢ empty_price s
ne_of_rank_pos bid p h = omega arith
ne_of_rank_pos ask p h = omega arith

pub rank_le : (s : Side) (p : ℕ) → IsPrice p → rank s p ≤ u32_max
rank_le bid p h = h
rank_le ask p h = omega arith
