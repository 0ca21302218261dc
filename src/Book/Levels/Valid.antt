-- ===== src/Book/Levels/Valid.antt =====
-- What the two tiers stand for, and when they are well formed.
use fastbook.Prelude.{
  ℕ, zero, suc, ◌+◌, ◌≤◌, ◌<◌, ◌≡◌, ◌≢◌, refl, ap, sym, subst, List, [], ◌∷◌, Option, none, some,
  arith, ◌==◌, All, All-get, false, Bool-cases, inl, inr, length, replicate, get_elem?,
  if◌then◌else◌, Option-cases,
}
use fastbook.Feed.Event.{Side}
use fastbook.Book.Levels.{
  Entry, Levels, LevelData, Place, in_hot, in_cold, blank_entry, find, find_hot, find_cold, load,
  new, best, best_price, better, empty_price,
}
use fastbook.Book.Levels.Rank.{
  rank, IsPrice, rank_pos, ne_of_rank_pos, better-rank, empty_price-IsPrice,
}
use fastbook.Book.Levels.Lookup.{
  count, lookup, or_else, lookup_get, lookup-none, find_hot-none, find_hot-some,
}
use fastbook.Book.Levels.Cold.{ArePrices, Sorted, Below, find_cold-none, find_cold-some}

-- The levels of a side, by price; the price that marks an unused slot has none.
abbrev pub view : Side → Levels → ℕ → Option LevelData
view s t p = if p == empty_price s then none else or_else (lookup p t.hot) (lookup p t.cold)

-- Prices are 32-bit numbers and occur once; every hot level is better than every cold one, so no hot
-- slot is unused while there is a cold level; the cold levels are sorted and no more than the array
-- holds; `best_idx` and `best_price` name the best entry of the hot array.
pub record IsValid (s : Side) (t : Levels) : Type 0 where
  pub hot_prices : ArePrices t.hot
  pub cold_prices : ArePrices t.cold
  pub once : (p : ℕ) → p ≢ empty_price s → count p t.hot + count p t.cold ≤ 1
  pub sorted : Sorted s t.cold
  pub proper : All (λ e. 0 < rank s e.price) t.cold
  pub dominates : All (λ h. Below s (rank s h.price) t.cold) t.hot
  pub fits : length t.cold ≤ t.cold_cap
  pub best_entry : Entry
  pub best_there : get_elem? t.hot t.best_idx ≡ some best_entry
  pub best_is : best_entry.price ≡ t.best_price
  pub best_most : All (λ h. rank s h.price ≤ rank s t.best_price) t.hot

module _ (s : Side) (k : ℕ) where
  All-replicate {ℓ} : (P : Entry → Type ℓ) (n : ℕ) (e : Entry) → P e → All P (replicate n e)
  All-replicate P zero e h = tt
  All-replicate P (suc n) e h = (h, All-replicate P n e h)

count-replicate :
    (s : Side) (n p : ℕ) → p ≢ empty_price s → count p (replicate n (blank_entry s)) ≡ 0
count-replicate s zero p h = refl
count-replicate s (suc n) p h = ground (arith, count-replicate s n p h)

-- With at least one hot slot the constructor makes a valid side without levels.
pub new-IsValid :
    (s : Side) (k cap : ℕ)
    → 0 < k
    → IsValid s (new s k cap) × ((p : ℕ) → view s (new s k cap) p ≡ none)
unfolding new
new-IsValid s zero cap h = absurd (omega arith)
new-IsValid s (suc k) cap h = (
  record {
    hot_prices = All-replicate s k _ (suc k) (blank_entry s) (empty_price-IsPrice s);
    cold_prices = tt;
    once = λ p ne. omega (arith, count-replicate s (suc k) p ne);
    sorted = tt;
    proper = tt;
    dominates = All-replicate s k _ (suc k) (blank_entry s) tt;
    fits = omega arith;
    best_entry = blank_entry s;
    best_there = refl;
    best_is = refl;
    best_most = All-replicate s k _ (suc k) (blank_entry s) (omega arith);
  },
  λ p. elim (Bool-cases (p == empty_price s)) [
    | inl e ↦ rw e
    | inr e ↦
        let ne : p ≢ empty_price s = ground arith in
        rw (e, lookup-none p (replicate (suc k) (blank_entry s)) (count-replicate s (suc k) p ne))
  ],
)

module _ {s : Side} {t : Levels} (v : IsValid s t) (p : ℕ) where
  -- What `find` may return for a price.
  abbrev pub Found : Option Place → Type 0
  Found none = (count p t.hot ≡ 0) × (count p t.cold ≡ 0)
  Found (some (in_hot i)) = (e : Entry) × (get_elem? t.hot i ≡ some e) × (e.price ≡ p)
  Found (some (in_cold i)) =
      (count p t.hot ≡ 0) × (e : Entry) × (get_elem? t.cold i ≡ some e) × (e.price ≡ p)

  pub find-Found : IsPrice p → Found (find s t p)
  unfolding find
  find-Found h = elim (Option-cases (find_hot p 0 t.hot)) [
    | inr (i, e) ↦
        let q : find s t p ≡ some (in_hot i) = rw (e, find) in
        subst Found (sym q) (find_hot-some p t.hot e)
    | inl e ↦ elim (Option-cases (find_cold s p t.cold)) [
      | inl c ↦
          let q : find s t p ≡ none = rw (e, find, c) in
          subst Found (sym q)
            (find_hot-none p 0 t.hot e, find_cold-none s p t.cold h v.cold_prices v.sorted c)
      | inr (i, c) ↦
          let q : find s t p ≡ some (in_cold i) = rw (e, find, c) in
          let (x, at, pr) = find_cold-some s p t.cold c in
          subst Found (sym q) (find_hot-none p 0 t.hot e, x, at, pr)
    ]
  ]

  -- A pointer that `find` may return shows the level of the price.
  abbrev pub Shows : Option Place → Type 0
  Shows none = view s t p ≡ none
  Shows (some q) = view s t p ≡ some (load t q)

  Found-Shows : p ≢ empty_price s → (o : Option Place) → Found o → Shows o
  Found-Shows ne none (h, c) = ground (arith, lookup-none p t.hot, lookup-none p t.cold)
  Found-Shows ne (some (in_hot i)) (e, at, pr) =
      let once = v.once p ne in
      let got = lookup_get t.hot i at (rw pr (omega arith)) in ground arith
  Found-Shows ne (some (in_cold i)) (z, e, at, pr) =
      let once = v.once p ne in
      let got = lookup_get t.cold i at (rw pr (omega arith)) in ground (arith, lookup-none p t.hot)

  -- On a valid side, for a price of 32 bits that is not the EMPTY marker of the side, `find` returns null if
  -- the price has no level, and else a pointer to the level of the price.
  pub find-Shows : IsPrice p → p ≢ empty_price s → Shows (find s t p)
  find-Shows h ne = Found-Shows ne (find s t p) (find-Found h)

none≢some : {l : LevelData} → none ≡ some l → ⊥
none≢some e = cc

lookup-All {ℓ} :
    (P : ℕ → Type ℓ) (p : ℕ) (es : List Entry) {l : LevelData}
    → All (λ e. P e.price) es
    → lookup p es ≡ some l
    → P p
lookup-All P p [] h q = absurd (none≢some q)
lookup-All P p (e ∷ es) h q = elim (Bool-cases (e.price == p)) [
  | inl t ↦ let same : e.price ≡ p = ground arith in subst P same h.0
  | inr f ↦ lookup-All P p es h.1 (rw f at q)
]

-- If the side has a level at all, `best` points to a level: that of `best_price`, and the price of no
-- level is better.
pub best-view :
    {s : Side} {t : Levels} (p : ℕ) {l : LevelData}
    → IsValid s t
    → IsPrice p
    → view s t p ≡ some l
    → (better s p (best_price t) ≡ false)
      × (best s t ≡ some (in_hot t.best_idx))
      × (view s t (best_price t) ≡ some (load t (in_hot t.best_idx)))
best-view {s} {t} p {l} v h q =
    let top : IsPrice t.best_price =
      rw (← v.best_is) (All-get _ t.hot _ v.hot_prices v.best_there) in
    let proper : p ≢ empty_price s = ground arith in
    let pos = rank_pos s p h proper in
    let most : rank s p ≤ rank s t.best_price = elim (Option-cases (lookup p t.hot)) [
      | inr (a, e) ↦ lookup-All (λ k. rank s k ≤ rank s t.best_price) p t.hot v.best_most e
      | inl e ↦
          let below = All-get _ t.hot _ v.dominates v.best_there in
          let under : rank s p < rank s v.best_entry.price =
            lookup-All (λ k. rank s k < rank s v.best_entry.price) p t.cold {l = l} below
              (ground arith) in
          omega (arith, ap (rank s) v.best_is)
    ] in
    let real : t.best_price ≢ empty_price s = ne_of_rank_pos s t.best_price (omega arith) in
    let once = v.once t.best_price real in
    let there : lookup t.best_price t.hot ≡ some v.best_entry.level =
      rw (← v.best_is) (lookup_get t.hot _ v.best_there (rw v.best_is (omega arith))) in
    (ground (arith, better-rank s p t.best_price h top), ground arith, ground (arith, v.best_there))
