-- ===== src/Book/Levels/Erase.antt =====
-- `erase`.
use fastbook.Prelude.{
  ℕ, ◌+◌, ◌≤◌, ◌<◌, ◌≡◌, ◌≢◌, ◌∙◌, List, [], ◌∷◌, none, some, arith, ◌==◌, All, All-map, All-set,
  Bool-cases, inl, inr, length, length-set, set, get_elem?, get_elem?-set_ne, get_elem?-length,
  if◌then◌else◌,
}
use fastbook.Feed.Event.{Side}
use fastbook.Book.Levels.{Entry, Levels, in_cold, empty_price, refresh_best, erase_at}
use fastbook.Book.Levels.Rank.{rank, IsPrice}
use fastbook.Book.Levels.Lookup.{count, lookup-none}
use fastbook.Book.Levels.Cold.{
  ArePrices, Sorted, Below, remove_at, All-remove_at, Sorted-remove_at, length-remove_at,
  count-remove_at, lookup-remove_at,
}
use fastbook.Book.Levels.Hot.{find_best-top}
use fastbook.Book.Levels.Valid.{view, IsValid}

-- The side after an erasure: valid, and without the one level.
abbrev pub Erased : Side → Levels → ℕ → Levels → Type 0
Erased s t p t' = IsValid s t' × ((k : ℕ) → view s t' k ≡ (if k == p then none else view s t k))

pub erase_cold-Erased :
    {s : Side} {t : Levels} {p : ℕ} (i : ℕ) (e : Entry)
    → IsValid s t
    → p ≢ empty_price s
    → count p t.hot ≡ 0
    → get_elem? t.cold i ≡ some e
    → e.price ≡ p
    → Erased s t p (erase_at s t (in_cold i))
unfolding erase_at
erase_cold-Erased {s} {t} {p} i e v ne z at same = (
  record {
    hot_prices = v.hot_prices;
    cold_prices = All-remove_at _ i t.cold v.cold_prices;
    once = λ k kn. ground (arith, v.once k kn, count-remove_at k i t.cold at);
    sorted = Sorted-remove_at s i t.cold v.sorted;
    proper = All-remove_at _ i t.cold v.proper;
    dominates =
        All-map _ (λ (h : Entry). Below s (rank s h.price) (remove_at i t.cold)) t.hot
          (λ h b. All-remove_at _ i t.cold b) v.dominates;
    fits = omega (arith, v.fits, length-remove_at i t.cold (get_elem?-length t.cold i at));
    best_entry = v.best_entry;
    best_there = v.best_there;
    best_is = v.best_is;
    best_most = v.best_most;
  },
  λ k. ground (arith, lookup-remove_at k i t.cold at, v.once k, lookup-none p t.hot z),
)

-- Slot `i` of the hot array takes `x`, and the cold array becomes `c`: what is needed of them.
pub record Refilled (s : Side) (t : Levels) (i : ℕ) (x : Entry) (c : List Entry) : Type 0 where
  pub price : IsPrice x.price
  pub under : rank s x.price ≤ rank s t.best_price
  pub cold_prices : ArePrices c
  pub once : (k : ℕ) → k ≢ empty_price s → count k (set t.hot i x) + count k c ≤ 1
  pub sorted : Sorted s c
  pub proper : All (λ e. 0 < rank s e.price) c
  pub dominates : All (λ h. Below s (rank s h.price) c) (set t.hot i x)
  pub fits : length c ≤ t.cold_cap

abbrev pub refilled : Levels → ℕ → Entry → List Entry → Levels
refilled t i x c = record t { hot = set t.hot i x; cold = c }

pub refresh_best-IsValid :
    {s : Side} {t : Levels} (i : ℕ) (x e : Entry) (c : List Entry)
    → IsValid s t
    → get_elem? t.hot i ≡ some e
    → Refilled s t i x c
    → IsValid s (refresh_best s (refilled t i x c) i)
unfolding refresh_best
refresh_best-IsValid {s} {t} i x e c v at r =
    let prices = All-set _ t.hot i x v.hot_prices r.price in
    let pos : 0 < length (set t.hot i x) =
      omega (arith, length-set t.hot i x, get_elem?-length t.hot i at) in
    elim (Bool-cases (i == t.best_idx)) [
      | inl q ↦
          let (b, there, is, most) = find_best-top s (set t.hot i x) pos prices in
          rw q (record {
            hot_prices = prices;
            cold_prices = r.cold_prices;
            once = r.once;
            sorted = r.sorted;
            proper = r.proper;
            dominates = r.dominates;
            fits = r.fits;
            best_entry = b;
            best_there = there;
            best_is = is;
            best_most = most;
          })
      | inr q ↦
          let apart : i ≢ t.best_idx = ground arith in
          rw q (record {
            hot_prices = prices;
            cold_prices = r.cold_prices;
            once = r.once;
            sorted = r.sorted;
            proper = r.proper;
            dominates = r.dominates;
            fits = r.fits;
            best_entry = v.best_entry;
            best_there = get_elem?-set_ne t.hot x apart ∙ v.best_there;
            best_is = v.best_is;
            best_most =
                All-set (λ (h : Entry). rank s h.price ≤ rank s t.best_price) t.hot i x v.best_most
                  r.under;
          })
    ]

-- The best price is no part of the view.
pub view-refresh_best :
    (s : Side) (t : Levels) (i k : ℕ) → view s (refresh_best s t i) k ≡ view s t k
unfolding refresh_best
view-refresh_best s t i k = ground arith

pub Below-empty : (s : Side) (r : ℕ) (c : List Entry) → length c ≡ 0 → Below s r c
Below-empty s r [] h = tt
Below-empty s r (x ∷ xs) h = absurd (omega arith)
