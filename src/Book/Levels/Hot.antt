-- ===== src/Book/Levels/Hot.antt =====
-- The two scans of the hot array: for its worst price and for its best.
use fastbook.Prelude.{
  ℕ, suc, ◌+◌, ◌-◌, ◌≤◌, ◌<◌, ◌≡◌, refl, sym, ap, ◌∙◌, List, [], ◌∷◌, some, arith, All, All-map,
  All-get, true, false, Bool-cases, inl, inr, length, get_elem?, get_elem?_lt, ◌⊎◌,
}
use fastbook.Feed.Event.{Side}
use fastbook.Book.Levels.{
  Entry, Levels, better, find_worst, find_best, belongs_to_hot, empty_price, best_possible,
}
use fastbook.Book.Levels.Rank.{
  rank, IsPrice, better-rank, rank-injective, rank-empty_price, rank-best_possible, rank_le,
  empty_price-IsPrice, best_possible-IsPrice,
}
use fastbook.Book.Levels.Cold.{ArePrices}

-- The entry of price `p` that a scan from index `i` on has met at index `j`.
abbrev At : ℕ → ℕ → ℕ → List Entry → Type 0
At p i j es = (i ≤ j) × (e : Entry) × (get_elem? es (j - i) ≡ some e) × (e.price ≡ p)

At-suc : (p i j : ℕ) (x : Entry) (es : List Entry) → At p (i + 1) j es → At p i j (x ∷ es)
At-suc p i j x es (le, e, at, pr) =
    (omega arith, e, shift (j - i) (j - (i + 1)) (omega arith) at, pr)
  where
    shift : (k l : ℕ) → k ≡ suc l → get_elem? es l ≡ some e → get_elem? (x ∷ es) k ≡ some e
    shift k l q at = rw q at

At-here : (i : ℕ) (x : Entry) (es : List Entry) → At x.price i i (x ∷ es)
At-here i x es = let z : i - i ≡ 0 = omega arith in (omega arith, x, rw z, refl)

-- What a scan for the worst price returns.
record Worst (s : Side) (es : List Entry) (i worst idx : ℕ) (r : ℕ × ℕ) : Type 0 where
  fits : IsPrice r.0
  start : rank s r.0 ≤ rank s worst
  least : All (λ e. rank s r.0 ≤ rank s e.price) es
  seen : (r ≡ (worst, idx)) ⊎ At r.0 i r.1 es

find_worst-Worst :
    (s : Side) (es : List Entry) (i worst idx : ℕ)
    → IsPrice worst
    → ArePrices es
    → Worst s es i worst idx (find_worst s es i worst idx)
unfolding find_worst
find_worst-Worst s [] i worst idx h a = record {
  fits = h;
  start = omega arith;
  least = tt;
  seen = inl refl;
}
find_worst-Worst s (e ∷ es) i worst idx h a = elim (Bool-cases (better s worst e.price)) [
  | inl t ↦
      let less : rank s e.price < rank s worst =
        ground (arith, better-rank s worst e.price h a.0) in
      let w = find_worst-Worst s es (i + 1) e.price i a.0 a.1 in
      rw t (record {
        fits = w.fits;
        start = omega (arith, w.start);
        least = (w.start, w.least);
        seen = elim w.seen [
          | inl q ↦ inr (rw q (At-here i e es))
          | inr q ↦ inr (At-suc _ i _ e es q)
        ];
      })
  | inr f ↦
      let more : rank s worst ≤ rank s e.price =
        ground (arith, better-rank s worst e.price h a.0) in
      let w = find_worst-Worst s es (i + 1) worst idx h a.1 in
      rw f (record {
        fits = w.fits;
        start = w.start;
        least = (omega (arith, w.start), w.least);
        seen = elim w.seen [ inl q ↦ inl q | inr q ↦ inr (At-suc _ i _ e es q) ];
      })
]

-- What a scan for the best price returns.
record Best (s : Side) (es : List Entry) (i top idx : ℕ) (r : ℕ × ℕ) : Type 0 where
  fits : IsPrice r.0
  start : rank s top ≤ rank s r.0
  most : All (λ e. rank s e.price ≤ rank s r.0) es
  seen : (r ≡ (top, idx)) ⊎ At r.0 i r.1 es

find_best-Best :
    (s : Side) (es : List Entry) (i top idx : ℕ)
    → IsPrice top
    → ArePrices es
    → Best s es i top idx (find_best s es i top idx)
unfolding find_best
find_best-Best s [] i top idx h a = record {
  fits = h;
  start = omega arith;
  most = tt;
  seen = inl refl;
}
find_best-Best s (e ∷ es) i top idx h a = elim (Bool-cases (better s e.price top)) [
  | inl t ↦
      let more : rank s top < rank s e.price = ground (arith, better-rank s e.price top a.0 h) in
      let w = find_best-Best s es (i + 1) e.price i a.0 a.1 in
      rw t (record {
        fits = w.fits;
        start = omega (arith, w.start);
        most = (w.start, w.most);
        seen = elim w.seen [
          | inl q ↦ inr (rw q (At-here i e es))
          | inr q ↦ inr (At-suc _ i _ e es q)
        ];
      })
  | inr f ↦
      let less : rank s e.price ≤ rank s top = ground (arith, better-rank s e.price top a.0 h) in
      let w = find_best-Best s es (i + 1) top idx h a.1 in
      rw f (record {
        fits = w.fits;
        start = w.start;
        most = (omega (arith, w.start), w.most);
        seen = elim w.seen [ inl q ↦ inl q | inr q ↦ inr (At-suc _ i _ e es q) ];
      })
]

At-get :
    (p j : ℕ) (es : List Entry)
    → At p 0 j es
    → (e : Entry) × (get_elem? es j ≡ some e) × (e.price ≡ p)
At-get p j es (_, e, at, pr) = let z : j - 0 ≡ j = omega arith in (e, rw z at at, pr)

-- `belongs_to_hot` says yes with the index of a worst entry, if the price is better than that.
pub belongs_to_hot-true :
    (s : Side) (t : Levels) (p : ℕ)
    → IsPrice p
    → ArePrices t.hot
    → (belongs_to_hot s t p).0 ≡ true
    → (e : Entry) × (get_elem? t.hot (belongs_to_hot s t p).1 ≡ some e)
      × (rank s e.price < rank s p)
      × All (λ h. rank s e.price ≤ rank s h.price) t.hot
unfolding belongs_to_hot
belongs_to_hot-true s t p h a found =
    let r = find_worst s t.hot 0 (best_possible s) 0 in
    let w = find_worst-Worst s t.hot 0 (best_possible s) 0 (best_possible-IsPrice s) a in
    let less : rank s r.0 < rank s p = ground (arith, better-rank s p r.0 h w.fits) in
    elim w.seen [
      | inl q ↦
          absurd
            (ground (arith, rank-best_possible s, rank_le s p, ap (λ (x : ℕ × ℕ). rank s x.0) q))
      | inr q ↦
          let (e, at, pr) = At-get r.0 r.1 t.hot q in
          (
            e,
            at,
            omega (arith, ap (rank s) pr, less),
            All-map _ (λ (h : Entry). rank s e.price ≤ rank s h.price) t.hot
                (λ h k. omega (arith, ap (rank s) pr)) w.least,
          )
    ]

pub belongs_to_hot-false :
    (s : Side) (t : Levels) (p : ℕ)
    → IsPrice p
    → ArePrices t.hot
    → (belongs_to_hot s t p).0 ≡ false
    → All (λ h. rank s p ≤ rank s h.price) t.hot
unfolding belongs_to_hot
belongs_to_hot-false s t p h a found =
    let r = find_worst s t.hot 0 (best_possible s) 0 in
    let w = find_worst-Worst s t.hot 0 (best_possible s) 0 (best_possible-IsPrice s) a in
    let more : rank s p ≤ rank s r.0 = ground (arith, better-rank s p r.0 h w.fits) in
    All-map _ (λ (h : Entry). rank s p ≤ rank s h.price) t.hot (λ h k. omega arith) w.least

-- The new best price is that of an entry, and no entry has a better one.
pub find_best-top :
    (s : Side) (es : List Entry)
    → 0 < length es
    → ArePrices es
    → let (p, j) = find_best s es 0 (empty_price s) 0 in
      (e : Entry) × (get_elem? es j ≡ some e)
      × (e.price ≡ p)
      × All (λ h. rank s h.price ≤ rank s p) es
find_best-top s es h a =
    let r = find_best s es 0 (empty_price s) 0 in
    let w = find_best-Best s es 0 (empty_price s) 0 (empty_price-IsPrice s) a in
    elim w.seen [
      | inr q ↦ let (e, at, pr) = At-get r.0 r.1 es q in (e, at, pr, w.most)
      | inl q ↦
          let (e, at) = get_elem?_lt es 0 h in
          let low : rank s e.price ≤ rank s r.0 = All-get _ es 0 w.most at in
          let same : e.price ≡ empty_price s =
            rank-injective s e.price (empty_price s) (All-get _ es 0 a at) (empty_price-IsPrice s)
              (ground (arith, rank-empty_price s, ap (λ (x : ℕ × ℕ). rank s x.0) q)) in
          (e, rw q at, same ∙ sym (ap (λ (x : ℕ × ℕ). x.0) q), w.most)
    ]
