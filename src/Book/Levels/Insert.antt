-- ===== src/Book/Levels/Insert.antt =====
-- `find_or_insert`.
use fastbook.Prelude.{
  ℕ, ◌≤◌, ◌<◌, ◌≡◌, ◌≢◌, refl, ap, sym, subst, ◌∙◌, List, [], ◌∷◌, Option, none, some, arith, leb,
  ◌==◌, All, All-map, All-get, All-set, Bool-cases, inl, inr, length, set, get_elem?,
  get_elem?-set_self, get_elem?-set_ne, get_elem?-length, if◌then◌else◌, ◌⊎◌,
}
use fastbook.Feed.Event.{Side}
use fastbook.Book.Levels.{
  Entry, Levels, Place, in_cold, blank_level, load, empty_price, better, insert_to_cold,
  place_in_hot, insert_cold,
}
use fastbook.Book.Levels.Rank.{rank, IsPrice, rank_pos, rank-injective, better-rank}
use fastbook.Book.Levels.Lookup.{count, lookup-none}
use fastbook.Book.Levels.Cold.{
  ArePrices, Below, ordered_insert, upper_bound-insert, get-ordered_insert, length-ordered_insert,
  count-ordered_insert, lookup-ordered_insert, All-ordered_insert, Sorted-ordered_insert,
}
use fastbook.Book.Levels.Valid.{view, IsValid}

-- The outcome for a price without a level: a fresh level at the place returned and no other change,
-- or the null pointer, when the cold array is full, and no change at all.
abbrev pub Inserted : Side → Levels → ℕ → Levels × Option Place → Type 0
Inserted s t p (t', none) = (t' ≡ t) × (t.cold_cap ≤ length t.cold)
Inserted s t p (t', some q) =
    IsValid s t'
    × (load t' q ≡ blank_level)
    × ((k : ℕ) → view s t' k ≡ (if k == p then some blank_level else view s t k))

pub insert_to_cold-cases :
    (s : Side) (t : Levels) (e : Entry)
    → ((insert_to_cold s t e ≡ none) × (t.cold_cap ≤ length t.cold))
      ⊎ ((i : ℕ) × (insert_to_cold s t e ≡ some (ordered_insert s e t.cold, i))
          × (get_elem? (ordered_insert s e t.cold) i ≡ some e)
          × (length t.cold < t.cold_cap))
unfolding insert_to_cold
insert_to_cold-cases s t e = elim (Bool-cases (leb t.cold_cap (length t.cold))) [
  | inl full ↦ inl (rw (full, insert_to_cold), ground arith)
  | inr room ↦
      inr (_, rw (room, upper_bound-insert s e t.cold), get-ordered_insert s e t.cold, ground arith)
]

-- A worse or equal price that does not occur is worse.
pub strictly :
    (s : Side) (p : ℕ) (es : List Entry)
    → IsPrice p
    → ArePrices es
    → count p es ≡ 0
    → All (λ e. rank s p ≤ rank s e.price) es
    → All (λ e. rank s p < rank s e.price) es
strictly s p [] h a c low = tt
strictly s p (e ∷ es) h a c low =
    let other : e.price ≢ p = ground arith in
    (
      omega (
        arith,
        λ (q : rank s p ≡ rank s e.price). other (sym (rank-injective s p e.price h a.0 q)),
        low.0,
      ),
      strictly s p es h a.1 (omega arith) low.1,
    )

pub dominates-insert :
    (s : Side) (hot cold : List Entry) (e : Entry)
    → All (λ h. Below s (rank s h.price) cold) hot
    → All (λ h. rank s e.price < rank s h.price) hot
    → All (λ h. Below s (rank s h.price) (ordered_insert s e cold)) hot
dominates-insert s [] cold e d low = tt
dominates-insert s (h ∷ hot) cold e d low = (
  All-ordered_insert s e (λ (c : Entry). rank s c.price < rank s h.price) cold low.0 d.0,
  dominates-insert s hot cold e d.1 low.1,
)

abbrev pub fresh : ℕ → Entry
fresh p = record { price = p; level = blank_level }

-- The hot array once `p` has taken slot `idx`.
abbrev pub hot' : Levels → ℕ → ℕ → List Entry
hot' t p idx = set t.hot idx (fresh p)

abbrev pub HasBest : Side → Levels → Type 0
HasBest s u =
    (b : Entry) × (get_elem? u.hot u.best_idx ≡ some b)
    × (b.price ≡ u.best_price)
    × All (λ x. rank s x.price ≤ rank s u.best_price) u.hot

module _ {s : Side} {t : Levels} (v : IsValid s t) {p : ℕ} (h : IsPrice p) (ne : p ≢ empty_price s)
    (fresh_hot : count p t.hot ≡ 0) (fresh_cold : count p t.cold ≡ 0) where
  insert_cold-eq :
      (i : ℕ)
      → insert_to_cold s t (fresh p) ≡ some (ordered_insert s (fresh p) t.cold, i)
      → insert_cold s t p
        ≡ (record t { cold = ordered_insert s (fresh p) t.cold }, some (in_cold i))
  unfolding insert_cold
  insert_cold-eq i e = rw (e, insert_cold)

  pub insert_cold-Inserted :
      All (λ e. rank s p ≤ rank s e.price) t.hot → Inserted s t p (insert_cold s t p)
  insert_cold-Inserted low = elim (insert_to_cold-cases s t (fresh p)) [
    | inl (e, full) ↦
        let q : insert_cold s t p ≡ (t, none) = unfold insert_cold in rw (e, insert_cold) in
        subst (Inserted s t p) (sym q) (refl, full)
    | inr (i, e, at, room) ↦
        let c = ordered_insert s (fresh p) t.cold in
        subst (Inserted s t p) (sym (insert_cold-eq i e)) (
          record {
            hot_prices = v.hot_prices;
            cold_prices = All-ordered_insert s (fresh p) _ t.cold h v.cold_prices;
            once = λ k kn. ground (arith, v.once k kn, count-ordered_insert s (fresh p) k t.cold);
            sorted = Sorted-ordered_insert s (fresh p) t.cold h v.cold_prices fresh_cold v.sorted;
            proper = All-ordered_insert s (fresh p) _ t.cold (rank_pos s p h ne) v.proper;
            dominates =
                dominates-insert s t.hot t.cold (fresh p) v.dominates
                  (strictly s p t.hot h v.hot_prices fresh_hot low);
            fits = omega (arith, length-ordered_insert s (fresh p) t.cold);
            best_entry = v.best_entry;
            best_there = v.best_there;
            best_is = v.best_is;
            best_most = v.best_most;
          },
          ground (arith, at),
          λ k. ground (
            arith,
            lookup-ordered_insert s (fresh p) k t.cold fresh_cold,
            lookup-none p t.hot fresh_hot,
          ),
        )
  ]

  -- A slot of the hot array whose price is worse than `p`.
  module _ (idx : ℕ) (e : Entry) (at : get_elem? t.hot idx ≡ some e)
      (less : rank s e.price < rank s p) where
    pub hot'-prices : ArePrices (hot' t p idx)
    hot'-prices = All-set _ t.hot idx (fresh p) v.hot_prices h

    pub hot'-dominates : All (λ x. Below s (rank s x.price) t.cold) (hot' t p idx)
    hot'-dominates =
        All-set (λ (x : Entry). Below s (rank s x.price) t.cold) t.hot idx (fresh p) v.dominates
          (All-map _ (λ (c : Entry). rank s c.price < rank s p) t.cold (λ c k. omega arith)
            (All-get _ t.hot idx v.dominates at))

    pub placed-HasBest : (c : List Entry) → HasBest s (place_in_hot s (record t { cold = c }) p idx)
    unfolding place_in_hot
    placed-HasBest c =
        let top : IsPrice t.best_price =
          rw (← v.best_is) (All-get _ t.hot _ v.hot_prices v.best_there) in
        let b = better-rank s p t.best_price h top in
        elim (Bool-cases (better s p t.best_price)) [
          | inl yes_better ↦ rw yes_better (
            fresh p,
            get_elem?-set_self t.hot idx (fresh p) (get_elem?-length t.hot idx at),
            refl,
            All-set (λ (x : Entry). rank s x.price ≤ rank s p) t.hot idx (fresh p)
                (All-map _ (λ (x : Entry). rank s x.price ≤ rank s p) t.hot
                  (λ x k. ground (arith, b)) v.best_most)
                (omega arith),
          )
          | inr not_better ↦
              let apart : idx ≢ t.best_idx =
                λ q. ground (arith, b, v.best_there, v.best_is, at, ap (get_elem? t.hot) q) in
              rw not_better (
                v.best_entry,
                get_elem?-set_ne t.hot (fresh p) apart ∙ v.best_there,
                v.best_is,
                All-set (λ (x : Entry). rank s x.price ≤ rank s t.best_price) t.hot idx (fresh p)
                    v.best_most (ground (arith, b)),
              )
        ]
