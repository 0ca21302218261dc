-- ===== src/Book/Levels/Refill.antt =====
-- `erase` of a hot level, whose slot takes the best cold level or falls empty.
use fastbook.Prelude.{
  ℕ, suc, ◌-◌, ◌<◌, ◌≡◌, ◌≢◌, ap, sym, subst, ◌∙◌, Option, none, some, arith, ltb, ◌==◌, All-map,
  All-get, All-set, Bool-cases, inl, inr, length, ◌⊎◌, get_elem?, get_elem?_lt, if◌then◌else◌,
}
use fastbook.Feed.Event.{Side}
use fastbook.Book.Levels.{
  Entry, Levels, LevelData, Place, in_hot, in_cold, find, empty_price, entry_at, level_at,
  refresh_best, fill_hot, erase_at, erase,
}
use fastbook.Book.Levels.Rank.{rank, IsPrice, rank-empty_price, empty_price-IsPrice}
use fastbook.Book.Levels.Lookup.{
  count, lookup-none, count_get, count-set, lookup-set, lookup-set_ne, lookup_get,
}
use fastbook.Book.Levels.Cold.{
  Below, remove_at, All-remove_at, Sorted-remove_at, length-remove_at, count-remove_at,
  lookup-remove_at, Below-take, remove_at_last,
}
use fastbook.Book.Levels.Valid.{view, IsValid, Found, find-Found}
use fastbook.Book.Levels.Erase.{
  Erased, erase_cold-Erased, Refilled, refilled, refresh_best-IsValid, view-refresh_best,
  Below-empty,
}

module _ {s : Side} {t : Levels} {p : ℕ} (v : IsValid s t) (ne : p ≢ empty_price s) (i : ℕ)
    (e : Entry) (at : get_elem? t.hot i ≡ some e) (same : e.price ≡ p) where
  -- The price is not among the cold ones.
  only_hot : (count p t.hot ≡ 1) × (count p t.cold ≡ 0)
  only_hot =
      let c = v.once p ne in
      let d : 0 < count p t.hot = subst (λ k. 0 < count k t.hot) same (count_get t.hot i at) in
      (omega arith, omega arith)

  module _ (n : ℕ) (l : Entry) (last : suc n ≡ length t.cold)
      (top : get_elem? t.cold n ≡ some l) where
    last_once : (count l.price t.hot ≡ 0) × (count l.price t.cold ≡ 1) × (l.price ≢ empty_price s)
    last_once =
        let real : l.price ≢ empty_price s =
          λ q. omega (arith, All-get _ t.cold n v.proper top, rank-empty_price s, ap (rank s) q) in
        let c = v.once l.price real in
        let d = count_get t.cold n top in (omega arith, omega arith, real)

    promoted : Refilled s t i l (remove_at n t.cold)
    promoted =
        let below = remove_at_last n t.cold last in
        record {
          price = All-get _ t.cold n v.cold_prices top;
          under =
              let b = All-get _ t.hot _ v.dominates v.best_there in
              omega (arith, All-get _ t.cold n b top, ap (rank s) v.best_is);
          cold_prices = All-remove_at _ n t.cold v.cold_prices;
          once = λ k kn.
              ground (arith, v.once k kn, count-set k t.hot i l at, count-remove_at k n t.cold top);
          sorted = Sorted-remove_at s n t.cold v.sorted;
          proper = All-remove_at _ n t.cold v.proper;
          dominates =
              All-set (λ (h : Entry). Below s (rank s h.price) (remove_at n t.cold)) t.hot i l
                (All-map _ (λ (h : Entry). Below s (rank s h.price) (remove_at n t.cold)) t.hot
                  (λ h b. All-remove_at _ n t.cold b) v.dominates)
                (rw below (Below-take s n t.cold v.sorted top));
          fits = omega (arith, v.fits, length-remove_at n t.cold (omega arith));
        }

    view_promoted :
        (k : ℕ)
        → view s (refilled t i l (remove_at n t.cold)) k ≡ (if k == p then none else view s t k)
    view_promoted k = ground (
      arith,
      v.once k,
      lookup-set k t.hot i l at last_once.0,
      lookup-remove_at k n t.cold top,
      lookup_get t.cold n top,
      last_once,
      only_hot,
      lookup-none k t.cold,
      lookup-none k t.hot,
    )

  module _ (bare : length t.cold ≡ 0) (l : LevelData) where
    unused : Entry
    unused = record { price = empty_price s; level = l }

    emptied : Refilled s t i unused t.cold
    unfolding unused
    emptied = record {
      price = empty_price-IsPrice s;
      under = omega (arith, rank-empty_price s);
      cold_prices = v.cold_prices;
      once = λ k kn. ground (arith, v.once k kn, count-set k t.hot i unused at);
      sorted = v.sorted;
      proper = v.proper;
      dominates =
          All-set (λ (h : Entry). Below s (rank s h.price) t.cold) t.hot i unused v.dominates
            (Below-empty s _ t.cold bare);
      fits = v.fits;
    }

    view_emptied :
        (k : ℕ) → view s (refilled t i unused t.cold) k ≡ (if k == p then none else view s t k)
    unfolding unused
    view_emptied k =
        ground (arith, v.once k, lookup-set_ne k t.hot i unused at, only_hot, lookup-none p t.cold)

  fill_hot-cases :
      ((n : ℕ) × (l : Entry) × (suc n ≡ length t.cold)
        × (get_elem? t.cold n ≡ some l)
        × (fill_hot s t i ≡ refilled t i l (remove_at n t.cold)))
      ⊎ ((length t.cold ≡ 0)
          × (l : LevelData) × (fill_hot s t i
              ≡ refilled t i (record { price = empty_price s; level = l }) t.cold))
  unfolding fill_hot
  fill_hot-cases = elim (Bool-cases (ltb 0 (length t.cold))) [
    | inl some_cold ↦
        let n = length t.cold - 1 in
        let last : suc n ≡ length t.cold = ground arith in
        let (l, top) = get_elem?_lt t.cold n (omega arith) in
        let x : entry_at s t.cold n ≡ l = ground (arith, top) in
        inl (n, l, last, top, rw (some_cold, x, remove_at_last n t.cold last))
    | inr none_cold ↦ inr (ground arith, level_at t.hot i, rw none_cold)
  ]

  erase_hot-Erased : Erased s t p (erase_at s t (in_hot i))
  unfolding erase_at
  erase_hot-Erased = elim fill_hot-cases [
    | inl (n, l, last, top, q) ↦
        subst (λ u. Erased s t p (refresh_best s u i)) (sym q)
          (
            refresh_best-IsValid i l e (remove_at n t.cold) v at (promoted n l last top),
            λ k. view-refresh_best s _ i k ∙ view_promoted n l last top k,
          )
    | inr (bare, l, q) ↦
        subst (λ u. Erased s t p (refresh_best s u i)) (sym q)
          (
            refresh_best-IsValid i _ e t.cold v at (unfold unused in emptied bare l),
            λ k. view-refresh_best s _ i k ∙ (unfold unused in view_emptied bare l k),
          )
  ]

-- On a valid side, for a price of 32 bits that is not the EMPTY marker of the side, `erase` takes away the level of the price, if there is one, and no other; the side
-- stays valid, so the best price is right again and a cold level has moved up where there was one.
pub erase-Erased :
    {s : Side} {t : Levels} (p : ℕ)
    → IsValid s t
    → IsPrice p
    → p ≢ empty_price s
    → Erased s t p (erase s t p)
unfolding erase
erase-Erased {s} {t} p v h ne = go (find s t p) (find-Found v p h)
  where
    go :
        (o : Option Place)
        → Found v p o
        → Erased s t p (elim o [ none ↦ t | some q ↦ erase_at s t q ])
    go none (z, c) = (v, λ k. ground (arith, lookup-none p t.hot z, lookup-none p t.cold c))
    go (some (in_hot i)) (e, at, same) = erase_hot-Erased v ne i e at same
    go (some (in_cold i)) (z, e, at, same) = erase_cold-Erased i e v ne z at same
