-- ===== src/Book/Levels/Cold.antt =====
-- The sorted cold array: search, insertion and removal.
use fastbook.Prelude.{
  ℕ, zero, suc, ◌+◌, ◌≤◌, ◌<◌, ◌≡◌, ◌≢◌, refl, ap, List, [], ◌∷◌, ◌++◌, none, some, arith, ◌==◌,
  All, All-map, All-get, Bool-cases, inl, inr, length, take, drop, get_elem?, if◌then◌else◌,
  Option-cases,
}
use fastbook.Feed.Event.{Side}
use fastbook.Book.Levels.{Entry, better, lower_bound, upper_bound, find_cold}
use fastbook.Book.Levels.Rank.{rank, IsPrice, better-rank, rank-injective}
use fastbook.Book.Levels.Lookup.{count, lookup, lookup-none, count_get}

abbrev pub Below : Side → ℕ → List Entry → Type 0
Below s r = All (λ e. rank s e.price < r)

abbrev pub Above : Side → ℕ → List Entry → Type 0
Above s r = All (λ e. r < rank s e.price)

-- From the worst to the best, all different.
abbrev pub Sorted : Side → List Entry → Type 0
Sorted s [] = Unit {0}
Sorted s (e ∷ es) = Above s (rank s e.price) es × Sorted s es

abbrev pub ArePrices : List Entry → Type 0
ArePrices = All (λ e. IsPrice e.price)

count-Above : (s : Side) (p : ℕ) (es : List Entry) → Above s (rank s p) es → count p es ≡ 0
count-Above s p [] h = refl
count-Above s p (e ∷ es) h = elim (Bool-cases (e.price == p)) [
  | inl t ↦ let same : e.price ≡ p = ground arith in absurd (omega (arith, ap (rank s) same, h.0))
  | inr f ↦ rw f (omega (arith, count-Above s p es h.1))
]

pub find_cold-none :
    (s : Side) (p : ℕ) (es : List Entry)
    → IsPrice p
    → ArePrices es
    → Sorted s es
    → find_cold s p es ≡ none
    → count p es ≡ 0
unfolding find_cold lower_bound
find_cold-none s p [] h a o n = refl
find_cold-none s p (e ∷ es) h a o n = elim (Bool-cases (better s p e.price)) [
  | inl t ↦
      let different : e.price ≢ p =
        λ q. ground (arith, better-rank s p e.price h a.0, ap (rank s) q) in
      ground (arith, find_cold-none s p es h a.1 o.1, different)
  | inr f ↦ elim (Bool-cases (e.price == p)) [
    | inl t ↦ ground arith
    | inr g ↦
        let less : rank s p < rank s e.price =
          ground (arith, better-rank s p e.price h a.0, rank-injective s p e.price h a.0) in
        rw g (
          omega (
            arith,
            count-Above s p es
                (All-map _ (λ (d : Entry). rank s p < rank s d.price) es (λ d k. omega arith) o.0),
          ))
  ]
]

pub find_cold-some :
    (s : Side) (p : ℕ) (es : List Entry) {i : ℕ}
    → find_cold s p es ≡ some i
    → (e : Entry) × (get_elem? es i ≡ some e) × (e.price ≡ p)
unfolding find_cold
find_cold-some s p es {i} h = elim (Option-cases (get_elem? es (lower_bound s p es))) [
  | inl q ↦ ground arith
  | inr (e, q) ↦ (e, ground arith, ground arith)
]

-- What the write at `upper_bound` makes of the array.
abbrev pub ordered_insert : Side → Entry → List Entry → List Entry
ordered_insert s e [] = e ∷ []
ordered_insert s e (x ∷ xs) =
    if better s x.price e.price then e ∷ x ∷ xs else x ∷ ordered_insert s e xs

module _ (s : Side) (e : Entry) where
  pub upper_bound-insert :
      (es : List Entry)
      → take (upper_bound s e.price es) es ++ (e ∷ drop (upper_bound s e.price es) es)
        ≡ ordered_insert s e es
  unfolding upper_bound
  upper_bound-insert [] = refl
  upper_bound-insert (x ∷ xs) = ground (arith, upper_bound-insert xs)

  pub get-ordered_insert :
      (es : List Entry) → get_elem? (ordered_insert s e es) (upper_bound s e.price es) ≡ some e
  unfolding upper_bound
  get-ordered_insert [] = refl
  get-ordered_insert (x ∷ xs) = ground (arith, get-ordered_insert xs)

  pub length-ordered_insert : (es : List Entry) → length (ordered_insert s e es) ≡ suc (length es)
  length-ordered_insert [] = refl
  length-ordered_insert (x ∷ xs) = ground (arith, length-ordered_insert xs)

  pub count-ordered_insert :
      (p : ℕ) (es : List Entry)
      → count p (ordered_insert s e es) ≡ (if e.price == p then 1 else 0) + count p es
  count-ordered_insert p [] = refl
  count-ordered_insert p (x ∷ xs) = ground (arith, count-ordered_insert p xs)

  pub lookup-ordered_insert :
      (p : ℕ) (es : List Entry)
      → count e.price es ≡ 0
      → lookup p (ordered_insert s e es) ≡ (if e.price == p then some e.level else lookup p es)
  lookup-ordered_insert p [] h = refl
  lookup-ordered_insert p (x ∷ xs) h = ground (arith, lookup-ordered_insert p xs)

  pub All-ordered_insert {ℓ} :
      (P : Entry → Type ℓ) (es : List Entry) → P e → All P es → All P (ordered_insert s e es)
  All-ordered_insert P [] h k = (h, tt)
  All-ordered_insert P (x ∷ xs) h k = elim (Bool-cases (better s x.price e.price)) [
    | inl t ↦ rw t (h, k)
    | inr f ↦ rw f (k.0, All-ordered_insert P xs h k.1)
  ]

  pub Sorted-ordered_insert :
      (es : List Entry)
      → IsPrice e.price
      → ArePrices es
      → count e.price es ≡ 0
      → Sorted s es
      → Sorted s (ordered_insert s e es)
  Sorted-ordered_insert [] h a c o = (tt, tt)
  Sorted-ordered_insert (x ∷ xs) h a c o = elim (Bool-cases (better s x.price e.price)) [
    | inl t ↦
        let less : rank s e.price < rank s x.price =
          ground (arith, better-rank s x.price e.price a.0 h) in
        rw t (
          (
            less,
            All-map _ (λ (d : Entry). rank s e.price < rank s d.price) xs (λ d k. omega arith) o.0,
          ),
          o,
        )
    | inr f ↦
        let less : rank s x.price < rank s e.price =
          ground
            (arith, better-rank s x.price e.price a.0 h, rank-injective s x.price e.price a.0 h) in
        rw f (
          All-ordered_insert (λ (d : Entry). rank s x.price < rank s d.price) xs less o.0,
          Sorted-ordered_insert xs h a.1 (ground arith) o.1,
        )
  ]

-- The array without entry `i`.
abbrev pub remove_at : ℕ → List Entry → List Entry
remove_at i es = take i es ++ drop (suc i) es

pub All-remove_at {ℓ} :
    (P : Entry → Type ℓ) (i : ℕ) (es : List Entry) → All P es → All P (remove_at i es)
All-remove_at P zero [] h = tt
All-remove_at P zero (x ∷ xs) h = h.1
All-remove_at P (suc i) [] h = tt
All-remove_at P (suc i) (x ∷ xs) h = (h.0, All-remove_at P i xs h.1)

pub Sorted-remove_at :
    (s : Side) (i : ℕ) (es : List Entry) → Sorted s es → Sorted s (remove_at i es)
Sorted-remove_at s zero [] h = tt
Sorted-remove_at s zero (x ∷ xs) h = h.1
Sorted-remove_at s (suc i) [] h = tt
Sorted-remove_at s (suc i) (x ∷ xs) h = (All-remove_at _ i xs h.0, Sorted-remove_at s i xs h.1)

pub length-remove_at :
    (i : ℕ) (es : List Entry) → i < length es → suc (length (remove_at i es)) ≡ length es
length-remove_at zero [] h = absurd (omega arith)
length-remove_at zero (x ∷ xs) h = refl
length-remove_at (suc i) [] h = absurd (omega arith)
length-remove_at (suc i) (x ∷ xs) h = omega (arith, length-remove_at i xs)

module _ (p : ℕ) where
  pub count-remove_at :
      (i : ℕ) (es : List Entry) {e : Entry}
      → get_elem? es i ≡ some e
      → count p (remove_at i es) + (if e.price == p then 1 else 0) ≡ count p es
  count-remove_at zero [] h = ground arith
  count-remove_at zero (x ∷ xs) h = ground arith
  count-remove_at (suc i) [] h = ground arith
  count-remove_at (suc i) (x ∷ xs) h = omega (arith, count-remove_at i xs h)

  pub lookup-remove_at :
      (i : ℕ) (es : List Entry) {e : Entry}
      → get_elem? es i ≡ some e
      → (e.price ≡ p → count p es ≤ 1)
      → lookup p (remove_at i es) ≡ (if e.price == p then none else lookup p es)
  lookup-remove_at zero [] h k = ground arith
  lookup-remove_at zero (x ∷ xs) h k = ground (arith, lookup-none p xs)
  lookup-remove_at (suc i) [] h k = ground arith
  lookup-remove_at (suc i) (x ∷ xs) h k = ground (arith, lookup-remove_at i xs h, count_get xs i h)

-- The last entry is the best, and dropping it is a removal.
pub Below-take :
    (s : Side) (n : ℕ) (es : List Entry) {e : Entry}
    → Sorted s es
    → get_elem? es n ≡ some e
    → Below s (rank s e.price) (take n es)
Below-take s zero es o h = tt
Below-take s (suc n) [] o h = tt
Below-take s (suc n) (x ∷ xs) o h = (All-get _ xs n o.0 h, Below-take s n xs o.1 h)

pub remove_at_last : (n : ℕ) (es : List Entry) → suc n ≡ length es → remove_at n es ≡ take n es
remove_at_last zero [] h = refl
remove_at_last zero (x ∷ []) h = refl
remove_at_last zero (x ∷ y ∷ ys) h = absurd (omega arith)
remove_at_last (suc n) [] h = refl
remove_at_last (suc n) (x ∷ xs) h = ap (◌∷◌ x) (remove_at_last n xs (omega arith))
