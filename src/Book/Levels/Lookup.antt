-- ===== src/Book/Levels/Lookup.antt =====
-- Entries by price: how often a price occurs, and the level that stands under it.
use fastbook.Prelude.{
  ℕ, zero, suc, ◌+◌, ◌-◌, ◌≤◌, ◌<◌, ◌≡◌, ◌≢◌, refl, List, [], ◌∷◌, ◌++◌, Option, none, some, arith,
  ◌==◌, Bool-cases, inl, inr, take, drop, set, get_elem?, if◌then◌else◌,
}
use fastbook.Book.Levels.{Entry, LevelData, find_hot}

abbrev pub count : ℕ → List Entry → ℕ
count p [] = 0
count p (e ∷ es) = (if e.price == p then 1 else 0) + count p es

abbrev pub lookup : ℕ → List Entry → Option LevelData
lookup p [] = none
lookup p (e ∷ es) = if e.price == p then some e.level else lookup p es

abbrev pub or_else : Option LevelData → Option LevelData → Option LevelData
or_else none b = b
or_else (some a) b = some a

pub lookup-none : (p : ℕ) (es : List Entry) → count p es ≡ 0 → lookup p es ≡ none
lookup-none p [] h = refl
lookup-none p (e ∷ es) h = ground (arith, lookup-none p es)

pub count-zero : (p : ℕ) (es : List Entry) → lookup p es ≡ none → count p es ≡ 0
count-zero p [] h = refl
count-zero p (e ∷ es) h = ground (arith, count-zero p es)

pub count-append : (p : ℕ) (xs ys : List Entry) → count p (xs ++ ys) ≡ count p xs + count p ys
count-append p [] ys = omega arith
count-append p (x ∷ xs) ys = omega (arith, count-append p xs ys)

pub lookup-append :
    (p : ℕ) (xs ys : List Entry) → lookup p (xs ++ ys) ≡ or_else (lookup p xs) (lookup p ys)
lookup-append p [] ys = refl
lookup-append p (x ∷ xs) ys = ground (arith, lookup-append p xs ys)

pub count-take-drop :
    (p n : ℕ) (es : List Entry) → count p (take n es) + count p (drop n es) ≡ count p es
count-take-drop p zero es = omega arith
count-take-drop p (suc n) [] = omega arith
count-take-drop p (suc n) (e ∷ es) = omega (arith, count-take-drop p n es)

pub lookup-take-drop :
    (p n : ℕ) (es : List Entry)
    → or_else (lookup p (take n es)) (lookup p (drop n es)) ≡ lookup p es
lookup-take-drop p zero es = refl
lookup-take-drop p (suc n) [] = refl
lookup-take-drop p (suc n) (e ∷ es) = ground (arith, lookup-take-drop p n es)

-- An entry is found under its price, and a second one of that price is not.
pub count_get :
    (es : List Entry) (i : ℕ) {e : Entry} → get_elem? es i ≡ some e → 0 < count e.price es
count_get [] i h = ground arith
count_get (x ∷ xs) zero h = ground arith
count_get (x ∷ xs) (suc i) h = ground (arith, count_get xs i h)

pub lookup_get :
    (es : List Entry) (i : ℕ) {e : Entry}
    → get_elem? es i ≡ some e
    → count e.price es ≤ 1
    → lookup e.price es ≡ some e.level
lookup_get [] i h k = ground arith
lookup_get (x ∷ xs) zero h k = ground arith
lookup_get (x ∷ xs) (suc i) h k = ground (arith, lookup_get xs i h, count_get xs i h)

-- Writing an entry takes one occurrence of the old price away and adds one of the new.
pub count-set :
    (p : ℕ) (es : List Entry) (i : ℕ) (v : Entry) {e : Entry}
    → get_elem? es i ≡ some e
    → count p (set es i v) + (if e.price == p then 1 else 0)
      ≡ count p es + (if v.price == p then 1 else 0)
count-set p [] i v h = ground arith
count-set p (x ∷ xs) zero v h = ground arith
count-set p (x ∷ xs) (suc i) v h = omega (arith, count-set p xs i v h)

pub lookup-set :
    (p : ℕ) (es : List Entry) (i : ℕ) (v : Entry) {e : Entry}
    → get_elem? es i ≡ some e
    → count v.price es ≡ 0
    → (e.price ≡ p → count p es ≤ 1)
    → lookup p (set es i v)
      ≡ (if v.price == p then some v.level else if e.price == p then none else lookup p es)
lookup-set p [] i v h k m = ground arith
lookup-set p (x ∷ xs) zero v h k m = ground (arith, lookup-none p xs)
lookup-set p (x ∷ xs) (suc i) v h k m = ground (arith, lookup-set p xs i v h, count_get xs i h)

pub lookup-set_ne :
    (p : ℕ) (es : List Entry) (i : ℕ) (v : Entry) {e : Entry}
    → get_elem? es i ≡ some e
    → p ≢ v.price
    → (e.price ≡ p → count p es ≤ 1)
    → lookup p (set es i v) ≡ (if e.price == p then none else lookup p es)
lookup-set_ne p [] i v h k m = ground arith
lookup-set_ne p (x ∷ xs) zero v h k m = ground (arith, lookup-none p xs)
lookup-set_ne p (x ∷ xs) (suc i) v h k m =
    ground (arith, lookup-set_ne p xs i v h, count_get xs i h)

-- `find_hot` returns the entry of the price, or there is none.

pub find_hot-none : (p i : ℕ) (es : List Entry) → find_hot p i es ≡ none → count p es ≡ 0
unfolding find_hot
find_hot-none p i [] h = refl
find_hot-none p i (e ∷ es) h = ground (arith, find_hot-none p (i + 1) es)

get_elem?_pos :
    (k : ℕ) (x : Entry) (es : List Entry) → 0 < k → get_elem? (x ∷ es) k ≡ get_elem? es (k - 1)
get_elem?_pos zero x es h = absurd (omega arith)
get_elem?_pos (suc k) x es h = let e : suc k - 1 ≡ k = omega arith in rw e

find_hot-FoundAt :
    (p i : ℕ) (es : List Entry) (j : ℕ)
    → find_hot p i es ≡ some j
    → (i ≤ j) × (e : Entry) × (get_elem? es (j - i) ≡ some e) × (e.price ≡ p)
unfolding find_hot
find_hot-FoundAt p i [] j h = ground arith
find_hot-FoundAt p i (e ∷ es) j h = elim (Bool-cases (e.price == p)) [
  | inl t ↦
      let here : i ≡ j = ground arith in
      (omega arith, e, let z : j - i ≡ 0 = omega arith in rw z, ground arith)
  | inr f ↦
      let (le, e', at, pr) = find_hot-FoundAt p (i + 1) es j (rw f at h) in
      let k : j - i - 1 ≡ j - (i + 1) = omega arith in
      (omega arith, e', rw (get_elem?_pos (j - i) e es (omega arith), k) at, pr)
]

pub find_hot-some :
    (p : ℕ) (es : List Entry) {i : ℕ}
    → find_hot p 0 es ≡ some i
    → (e : Entry) × (get_elem? es i ≡ some e) × (e.price ≡ p)
find_hot-some p es {i} h =
    let (_, e, at, pr) = find_hot-FoundAt p 0 es i h in
    let z : i - 0 ≡ i = omega arith in (e, rw z at at, pr)
