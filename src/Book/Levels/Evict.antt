-- ===== src/Book/Levels/Evict.antt =====
-- `find_or_insert` where the price goes to the hot array, and the worst hot level to the cold one.
use fastbook.Prelude.{
  ℕ, ◌≤◌, ◌<◌, ◌≡◌, ◌≢◌, refl, ap, sym, subst, List, none, some, arith, ◌==◌, All, All-get, All-set,
  false, Bool-cases, inl, inr, length, get_elem?, get_elem?-set_self, get_elem?-length,
  if◌then◌else◌, ◌⊎◌, Option-cases,
}
use fastbook.Feed.Event.{Side}
use fastbook.Book.Levels.{
  Entry, Levels, Place, in_hot, blank_level, find, load, empty_price, entry_at, insert_over,
  belongs_to_hot, insert_to_cold, place_in_hot, insert_cold, insert_hot, insert, find_or_insert,
}
use fastbook.Book.Levels.Rank.{rank, IsPrice, rank_pos}
use fastbook.Book.Levels.Lookup.{
  count, lookup, or_else, lookup-none, count_get, count-set, lookup-set, lookup_get,
}
use fastbook.Book.Levels.Cold.{
  ordered_insert, length-ordered_insert, count-ordered_insert, lookup-ordered_insert,
  All-ordered_insert, Sorted-ordered_insert,
}
use fastbook.Book.Levels.Hot.{belongs_to_hot-true, belongs_to_hot-false}
use fastbook.Book.Levels.Valid.{view, IsValid, Found, find-Found, Shows, find-Shows}
use fastbook.Book.Levels.Insert.{
  Inserted, insert_to_cold-cases, insert_cold-Inserted, strictly, dominates-insert, fresh, hot',
  hot'-prices, hot'-dominates, placed-HasBest,
}

module _ {s : Side} {t : Levels} (v : IsValid s t) {p : ℕ} (h : IsPrice p) (ne : p ≢ empty_price s)
    (fresh_hot : count p t.hot ≡ 0) (fresh_cold : count p t.cold ≡ 0) (idx : ℕ) (e : Entry)
    (at : get_elem? t.hot idx ≡ some e) (less : rank s e.price < rank s p) where
  -- The slot was unused.
  place-Inserted :
      e.price ≡ empty_price s → Inserted s t p (place_in_hot s t p idx, some (in_hot idx))
  unfolding place_in_hot
  place-Inserted unused =
      let (b, there, is, most) = placed-HasBest v h ne fresh_hot fresh_cold idx e at less t.cold in
      (
        record {
          hot_prices = hot'-prices v h ne fresh_hot fresh_cold idx e at less;
          cold_prices = v.cold_prices;
          once = λ k kn. ground (arith, v.once k kn, count-set k t.hot idx (fresh p) at);
          sorted = v.sorted;
          proper = v.proper;
          dominates = hot'-dominates v h ne fresh_hot fresh_cold idx e at less;
          fits = v.fits;
          best_entry = b;
          best_there = there;
          best_is = is;
          best_most = most;
        },
        ground (arith, get_elem?-set_self t.hot idx (fresh p) (get_elem?-length t.hot idx at)),
        λ k.
            ground (
              arith,
              lookup-set k t.hot idx (fresh p) at fresh_hot,
              lookup-none p t.cold fresh_cold,
            ),
      )

  -- The level of the slot moves to the cold array.
  module _ (used : e.price ≢ empty_price s) where
    once_hot : (count e.price t.hot ≡ 1) × (count e.price t.cold ≡ 0)
    once_hot =
        let c = v.once e.price used in let d = count_get t.hot idx at in (omega arith, omega arith)

    gone : count e.price (hot' t p idx) ≡ 0
    gone =
        let apart : p ≢ e.price = λ q. omega (arith, ap (rank s) q, less) in
        ground (arith, count-set e.price t.hot idx (fresh p) at, once_hot, apart)

    lookup-evicted :
        (k : ℕ)
        → k ≢ empty_price s
        → or_else (lookup k (hot' t p idx)) (lookup k (ordered_insert s e t.cold))
          ≡ (if k == p then some blank_level else or_else (lookup k t.hot) (lookup k t.cold))
    lookup-evicted k kn = ground (
      arith,
      v.once k kn,
      lookup-set k t.hot idx (fresh p) at fresh_hot,
      lookup-ordered_insert s e k t.cold once_hot.1,
      lookup_get t.hot idx at,
      once_hot,
      lookup-none p t.cold fresh_cold,
    )

    evict-Inserted :
        All (λ x. rank s e.price ≤ rank s x.price) t.hot
        → length t.cold < t.cold_cap
        → Inserted s t p (
          place_in_hot s (record t { cold = ordered_insert s e t.cold }) p idx,
          some (in_hot idx),
        )
    unfolding place_in_hot
    evict-Inserted worst room =
        let price = All-get _ t.hot idx v.hot_prices at in
        let prices = hot'-prices v h ne fresh_hot fresh_cold idx e at less in
        let (b, there, is, most) =
          placed-HasBest v h ne fresh_hot fresh_cold idx e at less (ordered_insert s e t.cold) in
        let low =
          All-set (λ (x : Entry). rank s e.price ≤ rank s x.price) t.hot idx (fresh p) worst
            (omega arith) in
        (
          record {
            hot_prices = prices;
            cold_prices = All-ordered_insert s e _ t.cold price v.cold_prices;
            once = λ k kn. ground (
              arith,
              v.once k kn,
              count-set k t.hot idx (fresh p) at,
              count-ordered_insert s e k t.cold,
            );
            sorted = Sorted-ordered_insert s e t.cold price v.cold_prices once_hot.1 v.sorted;
            proper = All-ordered_insert s e _ t.cold (rank_pos s e.price price used) v.proper;
            dominates =
                dominates-insert s (hot' t p idx) t.cold e
                  (hot'-dominates v h ne fresh_hot fresh_cold idx e at less)
                  (strictly s e.price (hot' t p idx) price prices gone low);
            fits = omega (arith, length-ordered_insert s e t.cold);
            best_entry = b;
            best_there = there;
            best_is = is;
            best_most = most;
          },
          ground (arith, get_elem?-set_self t.hot idx (fresh p) (get_elem?-length t.hot idx at)),
          λ k. elim (Bool-cases (k == empty_price s)) [
            | inl q ↦ let other : k ≢ p = λ x. ground arith in ground (arith, other)
            | inr q ↦ ground (arith, lookup-evicted k (ground arith))
          ],
        )

  insert_over-full :
      e.price ≢ empty_price s → insert_to_cold s t e ≡ none → insert_over s t e p idx ≡ (t, none)
  unfolding insert_over
  insert_over-full used q =
      let f : (e.price == empty_price s) ≡ false = ground arith in rw (f, q, insert_over)

  insert_over-room :
      (c : List Entry) (i : ℕ)
      → e.price ≢ empty_price s
      → insert_to_cold s t e ≡ some (c, i)
      → insert_over s t e p idx ≡ (place_in_hot s (record t { cold = c }) p idx, some (in_hot idx))
  unfolding insert_over
  insert_over-room c i used q =
      let f : (e.price == empty_price s) ≡ false = ground arith in rw (f, q, insert_over)

  insert_over-Inserted :
      All (λ x. rank s e.price ≤ rank s x.price) t.hot → Inserted s t p (insert_over s t e p idx)
  insert_over-Inserted worst = elim (Bool-cases (e.price == empty_price s)) [
    | inl unused ↦
        let q : insert_over s t e p idx ≡ (place_in_hot s t p idx, some (in_hot idx)) =
          unfold insert_over in rw unused in
        subst (Inserted s t p) (sym q) (place-Inserted (ground arith))
    | inr f ↦
        let used : e.price ≢ empty_price s = ground arith in
        elim (insert_to_cold-cases s t e) [
          | inl (full, cap) ↦ subst (Inserted s t p) (sym (insert_over-full used full)) (refl, cap)
          | inr (i, ok, _, room) ↦
              subst (Inserted s t p) (sym (insert_over-room _ i used ok))
                (evict-Inserted used worst room)
        ]
  ]

  pub insert_hot-Inserted :
      All (λ x. rank s e.price ≤ rank s x.price) t.hot → Inserted s t p (insert_hot s t p idx)
  unfolding insert_hot
  insert_hot-Inserted worst =
      let old : entry_at s t.hot idx ≡ e = ground (arith, at) in
      subst (λ x. Inserted s t p (insert_over s t x p idx)) (sym old) (insert_over-Inserted worst)

pub insert-Inserted :
    {s : Side} {t : Levels} {p : ℕ}
    → IsValid s t
    → IsPrice p
    → p ≢ empty_price s
    → (count p t.hot ≡ 0) × (count p t.cold ≡ 0)
    → Inserted s t p (insert s t p)
unfolding insert
insert-Inserted {s} {t} {p} v h ne (z, c) =
    let idx = (belongs_to_hot s t p).1 in
    elim (Bool-cases (belongs_to_hot s t p).0) [
      | inl found ↦
          let (e, at, less, worst) = belongs_to_hot-true s t p h v.hot_prices found in
          let q : insert s t p ≡ insert_hot s t p idx = rw found in
          subst (Inserted s t p) (sym q) (insert_hot-Inserted v h ne z c idx e at less worst)
      | inr lost ↦
          let q : insert s t p ≡ insert_cold s t p = rw lost in
          subst (Inserted s t p) (sym q)
            (insert_cold-Inserted v h ne z c (belongs_to_hot-false s t p h v.hot_prices lost))
    ]

-- On a valid side, for a price of 32 bits that is not the EMPTY marker of the side: a level that is there is returned and nothing
-- changes; else a fresh level appears under that price alone, the side stays valid, and the pointer
-- shows it; or, only when the cold array is full, the null pointer comes back and nothing changes.
pub find_or_insert-Inserted :
    {s : Side} {t : Levels} (p : ℕ)
    → IsValid s t
    → IsPrice p
    → p ≢ empty_price s
    → ((q : Place) × (find_or_insert s t p ≡ (t, some q)) × (view s t p ≡ some (load t q)))
      ⊎ ((view s t p ≡ none) × Inserted s t p (find_or_insert s t p))
unfolding find_or_insert
find_or_insert-Inserted {s} {t} p v h ne = elim (Option-cases (find s t p)) [
  | inr (q, e) ↦ inl (q, rw (e, find_or_insert), subst (Shows v p) e (find-Shows v p h ne))
  | inl e ↦ inr (
    subst (Shows v p) e (find-Shows v p h ne),
    let q : find_or_insert s t p ≡ insert s t p = rw (e, find_or_insert) in
        subst (Inserted s t p) (sym q)
          (insert-Inserted v h ne (subst (Found v p) e (find-Found v p h))),
  )
]
