-- ===== src/Book/Levels/Tests.antt =====
-- The price levels at small sizes: two hot slots and two cold ones.
use fastbook.Prelude.{
  ℕ, ◌+◌, ◌≤◌, ◌≡◌, ◌≢◌, ◌⊎◌, refl, [], ◌∷◌, none, some, arith, false, ◌==◌, if◌then◌else◌,
}
use fastbook.Feed.Event.{bid, ask}
use fastbook.Book.Levels.{
  Entry, Levels, LevelData, Place, in_hot, new, find, load, better, blank_level, best,
  find_or_insert, erase, empty_price,
}
use fastbook.Book.Levels.Valid.{view, IsValid, new-IsValid, find-Shows, Shows, best-view}
use fastbook.Book.Levels.Evict.{find_or_insert-Inserted}
use fastbook.Book.Levels.Insert.{Inserted}
use fastbook.Book.Levels.Refill.{erase-Erased}
use fastbook.Book.Levels.Erase.{Erased}

abbrev level : ℕ → LevelData
level q = record { head = some q; tail = some q; total_qty = q }

abbrev entry : ℕ → ℕ → Entry
entry p q = record { price = p; level = level q }

-- Bids at 105 and 103 in the hot array, at 101 in the cold one.
abbrev bids : Levels
bids = record {
  hot = entry 103 1 ∷ entry 105 2 ∷ [];
  cold = entry 101 3 ∷ [];
  cold_cap = 2;
  best_price = 105;
  best_idx = 1;
}

once_bids :
    (p : ℕ)
    → p ≢ empty_price bid
    → (if 103 == p then 1 else 0)
        + ((if 105 == p then 1 else 0) + 0)
        + ((if 101 == p then 1 else 0) + 0)
      ≤ 1
once_bids p ne = ground arith

bids-IsValid : IsValid bid bids
bids-IsValid = record {
  hot_prices = omega arith;
  cold_prices = omega arith;
  once = once_bids;
  sorted = omega arith;
  proper = omega arith;
  dominates = omega arith;
  fits = omega arith;
  best_entry = entry 105 2;
  best_there = refl;
  best_is = refl;
  best_most = omega arith;
}

new-IsValid_example : IsValid ask (new ask 2 2) × ((p : ℕ) → view ask (new ask 2 2) p ≡ none)
new-IsValid_example = new-IsValid ask 2 2 (omega arith)

find-Shows_example : Shows bids-IsValid 101 (find bid bids 101)
find-Shows_example = find-Shows bids-IsValid 101 (omega arith) (omega arith)

best-view_example :
    (better bid 101 105 ≡ false)
    × (best bid bids ≡ some (in_hot 1))
    × (view bid bids 105 ≡ some (level 2))
best-view_example = best-view 101 {l = level 3} bids-IsValid (omega arith) refl

find_or_insert-Inserted_example :
    ((q : Place) × (find_or_insert bid bids 104 ≡ (bids, some q))
      × (view bid bids 104 ≡ some (load bids q)))
    ⊎ ((view bid bids 104 ≡ none) × Inserted bid bids 104 (find_or_insert bid bids 104))
find_or_insert-Inserted_example =
    find_or_insert-Inserted 104 bids-IsValid (omega arith) (omega arith)

erase-Erased_example : Erased bid bids 105 (erase bid bids 105)
erase-Erased_example = erase-Erased 105 bids-IsValid (omega arith) (omega arith)

-- 104 drives 103 into the cold array, behind 101.
find_or_insert-bids : find_or_insert bid bids 104 ≡ (
  record bids {
    hot = record { price = 104; level = blank_level } ∷ entry 105 2 ∷ [];
    cold = entry 101 3 ∷ entry 103 1 ∷ [];
  },
  some (in_hot 0),
)
unfolding find_or_insert find
find_or_insert-bids = refl

-- The best bid goes, and 101 moves up.
erase-bids : erase bid bids 105 ≡ record bids {
  hot = entry 103 1 ∷ entry 101 3 ∷ [];
  cold = [];
  best_price = 103;
  best_idx = 0;
}
unfolding erase find
erase-bids = refl
