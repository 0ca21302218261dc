-- ===== src/Book/Levels.antt =====
-- src/orderbook/two_tier_levels.hpp: the price levels of one side, the best in a small hot array and
-- the others in a sorted cold array. `prices[i]` and `levels[i]` are one entry; the hot array is a
-- list of `k` entries, and of the cold array the first `size` entries are kept, the only ones that
-- are read. A pointer to a level is the place where it stands.
pub mod Rank
pub mod Lookup
pub mod Cold
pub mod Hot
pub mod Valid
pub mod Insert
pub mod Evict
pub mod Erase
pub mod Refill
mod Tests
use fastbook.Prelude.{
  ℕ, zero, suc, ◌+◌, ◌-◌, ◌^◌, List, [], ◌∷◌, ◌++◌, Option, none, some, Bool, true, false, not, ltb,
  leb, ◌==◌, length, take, drop, set, get_or, get_elem?, replicate, if◌then◌else◌,
}
use fastbook.Feed.Event.{Side, bid, ask}

-- `Order *`: an address, or null.
abbrev pub Ptr : Type 0
Ptr = Option ℕ

pub record LevelData : Type 0 where
  pub head : Ptr
  pub tail : Ptr
  pub total_qty : ℕ

abbrev pub blank_level : LevelData
blank_level = record { head = none; tail = none; total_qty = 0 }

pub record Entry : Type 0 where
  pub price : ℕ
  pub level : LevelData

abbrev pub u32_max : ℕ
u32_max = 2 ^ 32 - 1

abbrev pub empty_price : Side → ℕ
empty_price bid = 0
empty_price ask = u32_max

abbrev pub best_possible : Side → ℕ
best_possible bid = u32_max
best_possible ask = 0

abbrev pub better : Side → ℕ → ℕ → Bool
better bid a b = ltb b a
better ask a b = ltb a b

pub record Levels : Type 0 where
  pub hot : List Entry
  pub cold : List Entry
  pub cold_cap : ℕ
  pub best_price : ℕ
  pub best_idx : ℕ

abbrev pub blank_entry : Side → Entry
blank_entry s = record { price = empty_price s; level = blank_level }

unfoldable pub new : Side → ℕ → ℕ → Levels
new s k cap = record {
  hot = replicate k (blank_entry s);
  cold = [];
  cold_cap = cap;
  best_price = empty_price s;
  best_idx = 0;
}

pub data Place : Type 0 where
  in_hot in_cold : ℕ → Place

-- The first index of a price in the hot array.
pub find_hot : ℕ → ℕ → List Entry → Option ℕ
find_hot price i [] = none
find_hot price i (e ∷ es) = if e.price == price then some i else find_hot price (i + 1) es

-- `std::lower_bound` on prices sorted from the worst to the best: the first that is not worse.
pub lower_bound : Side → ℕ → List Entry → ℕ
lower_bound s price [] = 0
lower_bound s price (e ∷ es) = if better s price e.price then suc (lower_bound s price es) else 0

-- `std::upper_bound`: the first that is better.
pub upper_bound : Side → ℕ → List Entry → ℕ
upper_bound s price [] = 0
upper_bound s price (e ∷ es) = if better s e.price price then 0 else suc (upper_bound s price es)

-- The cold part of `find_idx`.
pub find_cold : Side → ℕ → List Entry → Option ℕ
unfolding lower_bound
find_cold s price cold =
    let i = lower_bound s price cold in
    elim (get_elem? cold i) [ none ↦ none | some e ↦ if e.price == price then some i else none ]

-- `find_idx` and `find`: `none` is `Tier::NONE` and the null pointer.
unfoldable pub find : Side → Levels → ℕ → Option Place
unfolding find_hot find_cold
find s t price = elim (find_hot price 0 t.hot) [
  | some i ↦ some (in_hot i)
  | none ↦ elim (find_cold s price t.cold) [ some i ↦ some (in_cold i) | none ↦ none ]
]

abbrev pub level_at : List Entry → ℕ → LevelData
level_at es i = elim (get_elem? es i) [ none ↦ blank_level | some e ↦ e.level ]

abbrev pub entry_at : Side → List Entry → ℕ → Entry
entry_at s es i = elim (get_elem? es i) [ none ↦ blank_entry s | some e ↦ e ]

-- `*p`, and `*p = v`.
abbrev pub load : Levels → Place → LevelData
load t (in_hot i) = level_at t.hot i
load t (in_cold i) = level_at t.cold i

abbrev put_level : List Entry → ℕ → LevelData → List Entry
put_level es i v = elim (get_elem? es i) [ none ↦ es | some e ↦ set es i (record e { level = v }) ]

abbrev pub store : Levels → Place → LevelData → Levels
store t (in_hot i) v = record t { hot = put_level t.hot i v }
store t (in_cold i) v = record t { cold = put_level t.cold i v }

-- The `shift_right` and the write behind it: the new cold array and the index, unless it is full.
pub insert_to_cold : Side → Levels → Entry → Option (List Entry × ℕ)
unfolding upper_bound
insert_to_cold s t e =
    let diff = upper_bound s e.price t.cold in
    if leb t.cold_cap (length t.cold)
    then none
    else some (take diff t.cold ++ (e ∷ drop diff t.cold), diff)

-- The loop of `belongs_to_hot`: the worst price from index `i` on, and where it stands first.
pub find_worst : Side → List Entry → ℕ → ℕ → ℕ → ℕ × ℕ
find_worst s [] i worst idx = (worst, idx)
find_worst s (e ∷ es) i worst idx =
    let is_worse = better s worst e.price in
    find_worst s es (i + 1) (if is_worse then e.price else worst) (if is_worse then i else idx)

pub belongs_to_hot : Side → Levels → ℕ → Bool × ℕ
unfolding find_worst
belongs_to_hot s t price =
    let (worst, idx) = find_worst s t.hot 0 (best_possible s) 0 in (better s price worst, idx)

-- The writes at the end of `find_or_insert`.
pub place_in_hot : Side → Levels → ℕ → ℕ → Levels
place_in_hot s t price idx =
    let is_better = better s price t.best_price in
    record t {
      hot = set t.hot idx (record { price = price; level = blank_level });
      best_price = if is_better then price else t.best_price;
      best_idx = if is_better then idx else t.best_idx;
    }

pub insert_cold : Side → Levels → ℕ → Levels × Option Place
unfolding insert_to_cold
insert_cold s t price = elim (insert_to_cold s t (record { price = price; level = blank_level })) [
  | none ↦ (t, none)
  | some (cold, i) ↦ (record t { cold = cold }, some (in_cold i))
]

-- The entry `old` of slot `idx`, if it is a level, moves to the cold array.
pub insert_over : Side → Levels → Entry → ℕ → ℕ → Levels × Option Place
unfolding insert_to_cold place_in_hot
insert_over s t old price idx =
    if old.price == empty_price s
    then (place_in_hot s t price idx, some (in_hot idx))
    else elim (insert_to_cold s t old) [
      | none ↦ (t, none)
      | some (cold, _) ↦ (place_in_hot s (record t { cold = cold }) price idx, some (in_hot idx))
    ]

pub insert_hot : Side → Levels → ℕ → ℕ → Levels × Option Place
unfolding insert_over
insert_hot s t price idx = insert_over s t (entry_at s t.hot idx) price idx

pub insert : Side → Levels → ℕ → Levels × Option Place
unfolding belongs_to_hot insert_cold insert_hot
insert s t price =
    let (found, idx) = belongs_to_hot s t price in
    if found then insert_hot s t price idx else insert_cold s t price

unfoldable pub find_or_insert : Side → Levels → ℕ → Levels × Option Place
unfolding find insert
find_or_insert s t price = elim (find s t price) [ some p ↦ (t, some p) | none ↦ insert s t price ]

-- The loop that finds the new best price.
pub find_best : Side → List Entry → ℕ → ℕ → ℕ → ℕ × ℕ
find_best s [] i best idx = (best, idx)
find_best s (e ∷ es) i best idx =
    let is_better = better s e.price best in
    find_best s es (i + 1) (if is_better then e.price else best) (if is_better then i else idx)

pub refresh_best : Side → Levels → ℕ → Levels
unfolding find_best
refresh_best s t idx =
    let (top, top_idx) = find_best s t.hot 0 (empty_price s) 0 in
    if idx == t.best_idx then record t { best_price = top; best_idx = top_idx } else t

-- The place of a hot level is filled with the best cold one, if there is any.
pub fill_hot : Side → Levels → ℕ → Levels
fill_hot s t i =
    if ltb 0 (length t.cold)
    then record t {
      hot = set t.hot i (entry_at s t.cold (length t.cold - 1));
      cold = take (length t.cold - 1) t.cold;
    }
    else record t { hot = set t.hot i (record { price = empty_price s; level = level_at t.hot i }) }

pub erase_at : Side → Levels → Place → Levels
unfolding fill_hot refresh_best
erase_at s t (in_hot i) = refresh_best s (fill_hot s t i) i
erase_at s t (in_cold i) = record t { cold = take i t.cold ++ drop (suc i) t.cold }

unfoldable pub erase : Side → Levels → ℕ → Levels
unfolding find erase_at
erase s t price = elim (find s t price) [ none ↦ t | some p ↦ erase_at s t p ]

abbrev pub best_price : Levels → ℕ
best_price t = t.best_price

abbrev pub best : Side → Levels → Option Place
best s t = if t.best_price == empty_price s then none else some (in_hot t.best_idx)
