-- ===== src/Book/Builder/Views.antt =====
-- The books as a map from instruments, and what a change of one book does to it.
use native.Mathlib.Decide.{ℕ_discrete}
use fastbook.Prelude.{
  ℕ, ◌+◌, ◌-◌, ◌≤◌, ◌<◌, ◌≡◌, ◌≢◌, ◌⊎◌, inl, inr, refl, sym, ap, ap₂, subst, arith, ◌∙◌, List, [],
  ◌∷◌, ◌++◌, Option, none, some, true, false, Bool-cases, ◌==◌, length, length-append, length-set,
  get_elem?, get_elem?-set_self, get_elem?-set_ne, get_elem?-append_left, get_elem?-append_end,
  get_elem?_lt, set, if◌then◌else◌,
}
use fastbook.Common.Table.{backward_shift, Table, fib_hash}
use fastbook.Common.Table.Fresh.{fib-hash-lt, find-new}
use fastbook.Common.Table.Store
use fastbook.Common.Table.Map.{insert-Inserted, insert-size}
use fastbook.Common.Table
use fastbook.Book.OrderBook.{OrderBook, Memory}
use fastbook.Book.Builder.{start, new_book, BookBuilder, find_book, put_book, get_or_init_book}

pub ne_test : (p : ℕ) → p ≢ 0 → (p == 0) ≡ false
ne_test p h = ground arith

-- The map is valid, its pointers are those of owned books, and no two instruments share one.
pub record IsValid (b : BookBuilder) : Type 0 where
  pub map : Store.IsValid backward_shift fib_hash b.instrument_map
  pub owned : (j : ℕ) → find_book b j ≤ length b.owned_books
  pub apart : (i j : ℕ) → find_book b i ≢ 0 → find_book b i ≡ find_book b j → i ≡ j

abbrev pub pick : List OrderBook → ℕ → Option OrderBook
pick books p = if p == 0 then none else get_elem? books (p - 1)

-- The book of an instrument.
abbrev pub view : BookBuilder → ℕ → Option OrderBook
view b j = pick b.owned_books (find_book b j)

-- One instrument's book has become `now`, the others are as before, and the map has
-- grown by at most `n`.
pub record Became (n : ℕ) (b b' : BookBuilder) (k : ℕ) (now : Option OrderBook) : Type 0 where
  pub valid : IsValid b'
  pub changed : view b' k ≡ now
  pub others : (j : ℕ) → j ≢ k → view b' j ≡ view b j
  pub capacity : b'.instrument_map.capacity ≡ b.instrument_map.capacity
  pub size : b'.instrument_map.size ≤ b.instrument_map.size + n

pub pick_some :
    (books : List OrderBook) (p : ℕ)
    → p ≢ 0
    → p ≤ length books
    → (book : OrderBook) × (get_elem? books (p - 1) ≡ some book)
pick_some books p ne le = get_elem?_lt books (p - 1) (omega (arith, ne))

pub Became-put :
    (b : BookBuilder) (k : ℕ) (book : OrderBook)
    → IsValid b
    → find_book b k ≢ 0
    → Became 0 b (put_book b (find_book b k) book) k (some book)
Became-put b k book v ne =
    let p = find_book b k in
    let le = v.owned k in
    record {
      valid = record {
        map = v.map;
        owned = λ j. omega (arith, v.owned j, length-set b.owned_books (p - 1) book);
        apart = v.apart;
      };
      changed =
          ap (λ t. if t then none else get_elem? (set b.owned_books (p - 1) book) (p - 1))
            (ne_test p ne)
          ∙ get_elem?-set_self b.owned_books (p - 1) book (omega (arith, ne, le));
      others = λ j other. elim (ℕ_discrete (find_book b j) 0) [
        | yes z ↦ ap (pick (set b.owned_books (p - 1) book)) z ∙ ap (pick b.owned_books) (sym z)
        | no full ↦
            let differ : p ≢ find_book b j = λ same. other (v.apart j k full (sym same)) in
            ap (λ o. if find_book b j == 0 then none else o)
              (get_elem?-set_ne b.owned_books {i = p - 1} {j = find_book b j - 1} book
                (omega (arith, differ, ne, full)))
      ];
      capacity = refl;
      size = omega arith;
    }

pick-fresh :
    (books : List OrderBook) (book : OrderBook)
    → pick (books ++ (book ∷ [])) (length books + 1) ≡ some book
pick-fresh books book =
    ap (λ t. if t then none else get_elem? (books ++ (book ∷ [])) (length books + 1 - 1))
      (ne_test (length books + 1) (λ z. omega (arith, z)))
    ∙ get_elem?-append_end books book (length books + 1 - 1) (omega arith)

pick-append :
    (books : List OrderBook) (book : OrderBook) (p : ℕ)
    → p ≤ length books
    → pick (books ++ (book ∷ [])) p ≡ pick books p
pick-append books book p le = elim (ℕ_discrete p 0) [
  | yes z ↦ ap (pick (books ++ (book ∷ []))) z ∙ ap (pick books) (sym z)
  | no full ↦
      ap (λ o. if p == 0 then none else o)
        (get_elem?-append_left books (book ∷ []) (p - 1) (omega (arith, full, le)))
]

-- Nothing but counters has changed.
pub Became-same :
    (b b' : BookBuilder) (k : ℕ)
    → b'.instrument_map ≡ b.instrument_map
    → b'.owned_books ≡ b.owned_books
    → IsValid b
    → Became 0 b b' k (view b k)
Became-same b b' k map owned v =
    let finds = λ (j : ℕ). ap (λ t. Table.find backward_shift fib_hash t j) map in
    let views : (j : ℕ) → view b' j ≡ view b j = λ j. ap₂ pick owned (finds j) in
    record {
      valid = record {
        map = subst (Store.IsValid backward_shift fib_hash) (sym map) v.map;
        owned = λ j. omega (arith, v.owned j, finds j, ap length owned);
        apart = λ i j ne same. v.apart i j (λ z. ne (finds i ∙ z)) (sym (finds i) ∙ same ∙ finds j);
      };
      changed = views k;
      others = λ j _. views j;
      capacity = ap (λ (t : Table). t.capacity) map;
      size = omega (arith, ap (λ (t : Table). t.size) map);
    }

pub Became-trans :
    (m n t : ℕ) (b c d : BookBuilder) (k : ℕ) (u v : Option OrderBook)
    → m + n ≤ t
    → Became m b c k u
    → Became n c d k v
    → Became t b d k v
Became-trans m n t b c d k u v le x y = record {
  valid = y.valid;
  changed = y.changed;
  others = λ j ne. y.others j ne ∙ x.others j ne;
  capacity = y.capacity ∙ x.capacity;
  size = omega (arith, x.size, y.size, le);
}

-- The book of an instrument that an order is added to, if there is memory for it.
abbrev pub or_new : Memory → Option OrderBook → Option OrderBook
or_new m none = if m.book then some new_book else none
or_new m (some book) = some book

-- A book that is there, under a pointer that is not null.
pub record Got (m : Memory) (b : BookBuilder) (k : ℕ) : Type 0 where
  pub after : BookBuilder
  pub pointer : ℕ
  pub book : OrderBook
  pub returns : get_or_init_book m b k ≡ some (after, pointer)
  pub found : find_book after k ≡ pointer
  pub not_null : pointer ≢ 0
  pub expected : or_new m (view b k) ≡ some book
  pub became : Became 1 b after k (some book)

get-old : (m : Memory) (b : BookBuilder) (k : ℕ) → IsValid b → find_book b k ≢ 0 → Got m b k
unfolding get_or_init_book
get-old m b k v ne =
    let (book, there) = pick_some b.owned_books (find_book b k) ne (v.owned k) in
    let here : view b k ≡ some book =
      ap (λ t. if t then none else get_elem? b.owned_books (find_book b k - 1))
        (ne_test (find_book b k) ne)
      ∙ there in
    let same = Became-same b b k refl refl v in
    record {
      after = b;
      pointer = find_book b k;
      book = book;
      returns = rw (ne_test (find_book b k) ne, get_or_init_book) refl;
      found = refl;
      not_null = ne;
      expected = ap (or_new m) here;
      became = record {
        valid = v;
        changed = here;
        others = same.others;
        capacity = refl;
        size = omega arith;
      };
    }

get-new :
    (m : Memory) (b : BookBuilder) (k : ℕ)
    → m.book ≡ true
    → IsValid b
    → find_book b k ≡ 0
    → b.instrument_map.size < b.instrument_map.capacity
    → Got m b k
unfolding get_or_init_book
get-new m b k memory v none_yet room =
    let fresh = length b.owned_books + 1 in
    let map = (Table.insert backward_shift fib_hash b.instrument_map k fresh).1 in
    let (inserted, valid_map, finds) =
      (insert-Inserted backward_shift fib_hash fib-hash-lt b.instrument_map k fresh v.map
          ((λ z. omega (arith, z)), refl)).added
        none_yet room in
    let grown : BookBuilder = record b {
      owned_books = b.owned_books ++ (new_book ∷ []);
      instrument_map = map;
    } in
    let at_k : find_book grown k ≡ fresh = finds k ∙ ground arith in
    let at_other : (j : ℕ) → j ≢ k → find_book grown j ≡ find_book b j =
      λ j ne. finds j ∙ ground arith in
    let (capacity, size) =
      insert-size backward_shift fib_hash fib-hash-lt b.instrument_map k fresh in
    record {
      after = grown;
      pointer = fresh;
      book = new_book;
      returns = rw (memory, inserted, none_yet, get_or_init_book) refl;
      expected =
          ap (λ p. or_new m (pick b.owned_books p)) none_yet
          ∙ ap (λ t. if t then some new_book else none) memory;
      found = at_k;
      not_null = λ z. omega (arith, z);
      became = record {
        valid = record {
          map = valid_map;
          owned = λ j. elim (ℕ_discrete j k) [
            | yes e ↦
                omega
                  (arith, ap (find_book grown) e, at_k, length-append b.owned_books (new_book ∷ []))
            | no ne ↦
                omega (arith, at_other j ne, v.owned j, length-append b.owned_books (new_book ∷ []))
          ];
          apart = λ i j full same. elim (ℕ_discrete i k) [
            | yes ik ↦ elim (ℕ_discrete j k) [
              | yes jk ↦ ik ∙ sym jk
              | no nj ↦
                  absurd
                    (omega (arith, ap (find_book grown) ik, at_k, same, at_other j nj, v.owned j))
            ]
            | no ni ↦ elim (ℕ_discrete j k) [
              | yes jk ↦
                  absurd
                    (omega (arith, ap (find_book grown) jk, at_k, same, at_other i ni, v.owned i))
              | no nj ↦
                  v.apart i j (λ z. full (at_other i ni ∙ z))
                    (sym (at_other i ni) ∙ same ∙ at_other j nj)
            ]
          ];
        };
        changed = ap (pick grown.owned_books) at_k ∙ pick-fresh b.owned_books new_book;
        others = λ j ne.
            ap (pick grown.owned_books) (at_other j ne)
            ∙ pick-append b.owned_books new_book (find_book b j) (v.owned j);
        capacity = capacity;
        size = size;
      };
    }

-- With room in the map, every instrument gets its book if there is memory for it.
pub get_or_init_book-Got :
    (m : Memory) (b : BookBuilder) (k : ℕ)
    → IsValid b
    → b.instrument_map.size < b.instrument_map.capacity
    → Got m b k ⊎ ((get_or_init_book m b k ≡ none) × (or_new m (view b k) ≡ none))
unfolding get_or_init_book
get_or_init_book-Got m b k v room = elim (ℕ_discrete (find_book b k) 0) [
  | no there ↦ inl (get-old m b k v there)
  | yes none_yet ↦ elim (Bool-cases m.book) [
    | inl memory ↦ inl (get-new m b k memory v none_yet room)
    | inr lost ↦ inr (
      rw (lost, none_yet, get_or_init_book) refl,
      ap (λ p. or_new m (pick b.owned_books p)) none_yet
          ∙ ap (λ t. if t then some new_book else none) lost,
    )
  ]
]

-- A new builder is valid and has no book.
pub start-IsValid : (k : ℕ) → k < 59 → IsValid (start k)
unfolding start
start-IsValid k small =
    let (valid, empty) = find-new backward_shift fib_hash fib-hash-lt k small in
    record {
      map = valid;
      owned = λ j. omega (arith, empty j);
      apart = λ i j full. absurd (full (empty i));
    }
