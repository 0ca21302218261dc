-- ===== src/Book/Builder/Handlers.antt =====
-- The handlers of the events: each works on the book of its instrument and on no other.
use native.Mathlib.Decide.{ℕ_discrete}
use fastbook.Prelude.{
  ℕ, ◌+◌, ◌-◌, ◌≤◌, ◌<◌, ◌≡◌, ◌≢◌, ◌⊎◌, inl, inr, refl, sym, ap, subst, arith, ◌∙◌, Option, none,
  some, Bool, true, false, ◌==◌, get_elem?, if◌then◌else◌, Option-cases,
}
use fastbook.Feed.Event.{EventType, added, executed, replaced, cancelled, deleted, MboEvent}
use fastbook.Book.OrderBook.{OrderBook, Memory}
use fastbook.Book.OrderBook.Calls.{add_order, cancel_order, execute_order, reduce_order}
use fastbook.Book.Builder.{
  BookBuilder, count, find_book, put_book, count_unknown, count_dropped, try_book, or_unknown,
  add_to_book, add_order_handler, cancel_order_handler, execute_order_handler, delete_order_handler,
  replace_order_handler, dispatch, apply_event,
}
use fastbook.Book.Builder.Views.{
  IsValid, view, pick_some, ne_test, Became, Became-put, Became-same, Became-trans, or_new,
  get_or_init_book-Got,
}

pub same_test : (a b : ℕ) → b ≡ a → (a == b) ≡ true
same_test a b h = ground arith

pub other_test : (a b : ℕ) → b ≢ a → (a == b) ≡ false
other_test a b h = ground arith

-- The book that an operation leaves, without its answer.
abbrev book_of : {A : Type 0} → Option (OrderBook × A) → Option (Option OrderBook)
book_of none = none
book_of (some r) = some (some r.0)

abbrev on_book :
    (OrderBook → Option (OrderBook × Bool)) → Option OrderBook → Option (Option OrderBook)
on_book op none = some none
on_book op (some book) = book_of (op book)

abbrev add : Memory → MboEvent → Option OrderBook → Option (Option OrderBook)
add m e none = none
add m e (some book) = book_of (add_order m book e.oid e.qty e.price e.side)

abbrev then_on :
    Option (Option OrderBook)
    → (Option OrderBook → Option (Option OrderBook))
    → Option (Option OrderBook)
then_on none f = none
then_on (some o) f = f o

-- What an event does to the book of its instrument; `none` is a failed assertion or `std::terminate`.
abbrev pub of_type : EventType → Memory → MboEvent → Option OrderBook → Option (Option OrderBook)
of_type added m e o = add m e (or_new m o)
of_type executed m e o = on_book (λ book. execute_order book e.oid e.qty) o
of_type replaced m e o =
    then_on (on_book (λ book. cancel_order book e.orig_oid) o) (λ o'. add m e (or_new m o'))
of_type cancelled m e o = on_book (λ book. reduce_order book e.oid e.qty) o
of_type deleted m e o = on_book (λ book. cancel_order book e.oid) o

-- Either both end, and the book has become what is wanted, or neither.
abbrev Does : ℕ → BookBuilder → Option BookBuilder → ℕ → Option (Option OrderBook) → Type 0
Does n b r k wanted =
    ((b' : BookBuilder) × (now : Option OrderBook) × (r ≡ some b')
      × (wanted ≡ some now)
      × Became n b b' k now)
    ⊎ ((r ≡ none) × (wanted ≡ none))

-- A change of counters after a change of a book.
then_same :
    (n : ℕ) (b c d : BookBuilder) (k : ℕ) (now : Option OrderBook)
    → Became n b c k now
    → d.instrument_map ≡ c.instrument_map
    → d.owned_books ≡ c.owned_books
    → Became n b d k now
then_same n b c d k now x map owned =
    let same = Became-same c d k map owned x.valid in
    let y = Became-trans n 0 n b c d k now (view c k) (omega arith) x same in
    record {
      valid = y.valid;
      changed = same.changed ∙ x.changed;
      others = y.others;
      capacity = y.capacity;
      size = y.size;
    }

view_there :
    (b : BookBuilder) (k : ℕ)
    → IsValid b
    → find_book b k ≢ 0
    → (book : OrderBook) × (get_elem? b.owned_books (find_book b k - 1) ≡ some book)
      × (view b k ≡ some book)
view_there b k v ne =
    let (book, there) = pick_some b.owned_books (find_book b k) ne (v.owned k) in
    (
      book,
      there,
      ap (λ t. if t then none else get_elem? b.owned_books (find_book b k - 1))
            (ne_test (find_book b k) ne)
          ∙ there,
    )

or_unknown-Does :
    (b c : BookBuilder) (done : Bool) (k : ℕ) (now : Option OrderBook)
    → Became 0 b c k now
    → Does 0 b (or_unknown (some (c, done))) k (some now)
unfolding or_unknown
or_unknown-Does b c true k now x = inl (c, now, refl, refl, x)
or_unknown-Does b c false k now x =
    inl (count_unknown c, now, refl, refl, then_same 0 b c (count_unknown c) k now x refl refl)

try_book-Does :
    (b : BookBuilder) (k : ℕ) (op : OrderBook → Option (OrderBook × Bool))
    → IsValid b
    → Does 0 b (or_unknown (try_book b k op)) k (on_book op (view b k))
unfolding try_book or_unknown
try_book-Does b k op v = elim (ℕ_discrete (find_book b k) 0) [
  | yes no_book ↦
      let gone : view b k ≡ none =
        ap (λ p. if p == 0 then none else get_elem? b.owned_books (p - 1)) no_book in
      let left : try_book b k op ≡ some (b, false) = rw (no_book, try_book) refl in
      let same = Became-same b (count_unknown b) k refl refl v in
      inl (
        count_unknown b,
        view b k,
        ap or_unknown left,
        ap (on_book op) gone ∙ ap some (sym gone),
        same,
      )
  | no ne ↦
      let (book, there, here) = view_there b k v ne in
      elim (Option-cases (op book)) [
        | inl failed ↦
            let fails : try_book b k op ≡ none =
              rw (ne_test (find_book b k) ne, there, failed, try_book) refl in
            inr (ap or_unknown fails, ap (on_book op) here ∙ ap book_of failed)
        | inr (r, done) ↦
            let left : try_book b k op ≡ some (put_book b (find_book b k) r.0, r.1) =
              rw (ne_test (find_book b k) ne, there, done, try_book) refl in
            let wanted : on_book op (view b k) ≡ some (some r.0) =
              ap (on_book op) here ∙ ap book_of done in
            subst (λ w. Does 0 b (or_unknown (try_book b k op)) k w) (sym wanted)
              (subst (λ t. Does 0 b (or_unknown t) k (some (some r.0))) (sym left)
                (or_unknown-Does b (put_book b (find_book b k) r.0) r.1 k (some r.0)
                  (Became-put b k r.0 v ne)))
      ]
]

add_to_book-Does :
    (m : Memory) (b : BookBuilder) (k : ℕ) (e : MboEvent)
    → IsValid b
    → find_book b k ≢ 0
    → Does 0 b (add_to_book m b (find_book b k) e) k (add m e (view b k))
unfolding add_to_book
add_to_book-Does m b k e v ne =
    let (book, there, here) = view_there b k v ne in
    elim (Option-cases (add_order m book e.oid e.qty e.price e.side)) [
      | inl failed ↦
          inr (rw (there, failed, add_to_book) refl, ap (add m e) here ∙ ap book_of failed)
      | inr (r, fine) ↦
          let done = put_book b (find_book b k) r.0 in
          let became = Became-put b k r.0 v ne in
          let wanted : add m e (view b k) ≡ some (some r.0) = ap (add m e) here ∙ ap book_of fine in
          elim (Option-cases r.1) [
            | inl added_it ↦
                inl (done, some r.0, rw (there, fine, added_it, add_to_book) refl, wanted, became)
            | inr (error, bad) ↦ inl (
              count_dropped done,
              some r.0,
              rw (there, fine, bad, add_to_book) refl,
              wanted,
              then_same 0 b done (count_dropped done) k (some r.0) became refl refl,
            )
          ]
    ]

abbrev Room : BookBuilder → Type 0
Room b = b.instrument_map.size < b.instrument_map.capacity

-- A second change of the same book, which began from what the first left.
Does-after :
    (l n t : ℕ) (b c : BookBuilder) (r : Option BookBuilder) (k : ℕ) (now : Option OrderBook)
    (wanted : Option (Option OrderBook))
    → l + n ≤ t
    → Became l b c k now
    → Does n c r k wanted
    → Does t b r k wanted
Does-after l n t b c r k now wanted le x (inl (d, after, ends, is, y)) =
    inl (d, after, ends, is, Became-trans l n t b c d k now after le x y)
Does-after l n t b c r k now wanted le x (inr failed) = inr failed

add_order_handler-Does :
    (m : Memory) (b : BookBuilder) (e : MboEvent)
    → IsValid b
    → Room b
    → Does 1 b (add_order_handler m b e) e.instrument (add m e (or_new m (view b e.instrument)))
unfolding add_order_handler
add_order_handler-Does m b e v room = elim (get_or_init_book-Got m b e.instrument v room) [
  | inr (fails, lost) ↦ inr (rw (fails, add_order_handler) refl, ap (add m e) lost)
  | inl g ↦
      let k = e.instrument in
      let here : find_book g.after k ≢ 0 = λ z. g.not_null (sym g.found ∙ z) in
      let done = add_to_book-Does m g.after k e g.became.valid here in
      let call : add_order_handler m b e ≡ add_to_book m g.after (find_book g.after k) e =
        rw (g.returns, add_order_handler) (ap (λ p. add_to_book m g.after p e) (sym g.found)) in
      let wanted : add m e (or_new m (view b k)) ≡ add m e (view g.after k) =
        ap (add m e) (g.expected ∙ sym g.became.changed) in
      subst (λ w. Does 1 b (add_order_handler m b e) k w) (sym wanted)
        (subst (λ r. Does 1 b r k (add m e (view g.after k))) (sym call)
          (Does-after 1 0 1 b g.after _ k (some g.book) _ (omega arith) g.became done))
]

-- At most as many new instruments.
looser :
    (b : BookBuilder) (r : Option BookBuilder) (k : ℕ) (wanted : Option (Option OrderBook))
    → IsValid b
    → Does 0 b r k wanted
    → Does 1 b r k wanted
looser b r k wanted v d =
    Does-after 0 0 1 b b r k (view b k) wanted (omega arith) (Became-same b b k refl refl v) d

-- The second half of a replacement.
replace_rest :
    (m : Memory) (b : BookBuilder) (e : MboEvent) (r : Option BookBuilder)
    (wanted : Option (Option OrderBook))
    → or_unknown (try_book b e.instrument (λ book. cancel_order book e.orig_oid)) ≡ r
    → Room b
    → Does 0 b r e.instrument wanted
    → Does 1 b
        (replace_order_handler m b e)
        e.instrument
        (then_on wanted (λ o. add m e (or_new m o)))
unfolding replace_order_handler
replace_rest m b e r wanted call room (inr (fails, lost)) = inr (
  rw (call ∙ fails, replace_order_handler) refl,
  ap (λ w. then_on w (λ o. add m e (or_new m o))) lost,
)
replace_rest m b e r wanted call room (inl (c, now, ends, is, x)) =
    let k = e.instrument in
    let done = add_order_handler-Does m c e x.valid (omega (arith, x.size, x.capacity, room)) in
    let same : replace_order_handler m b e ≡ add_order_handler m c e =
      rw (call ∙ ends, replace_order_handler) refl in
    let goal : then_on wanted (λ o. add m e (or_new m o)) ≡ add m e (or_new m (view c k)) =
      ap (λ w. then_on w (λ o. add m e (or_new m o))) is
      ∙ ap (λ o. add m e (or_new m o)) (sym x.changed) in
    subst (λ w. Does 1 b (replace_order_handler m b e) k w) (sym goal)
      (subst (λ r. Does 1 b r k (add m e (or_new m (view c k)))) (sym same)
        (Does-after 0 1 1 b c _ k now _ (omega arith) x done))

dispatch-Does :
    (t : EventType) (m : Memory) (b : BookBuilder) (e : MboEvent)
    → IsValid b
    → Room b
    → Does 1 b (dispatch t m b e) e.instrument (of_type t m e (view b e.instrument))
unfolding dispatch cancel_order_handler execute_order_handler delete_order_handler
dispatch-Does added m b e v room = add_order_handler-Does m b e v room
dispatch-Does executed m b e v room =
    looser b _ e.instrument _ v
      (try_book-Does b e.instrument (λ book. execute_order book e.oid e.qty) v)
dispatch-Does replaced m b e v room =
    replace_rest m b e _ _ refl room
      (try_book-Does b e.instrument (λ book. cancel_order book e.orig_oid) v)
dispatch-Does cancelled m b e v room =
    looser b _ e.instrument _ v
      (try_book-Does b e.instrument (λ book. reduce_order book e.oid e.qty) v)
dispatch-Does deleted m b e v room =
    looser b _ e.instrument _ v (try_book-Does b e.instrument (λ book. cancel_order book e.oid) v)

pub apply_event-Does :
    (m : Memory) (b : BookBuilder) (e : MboEvent)
    → IsValid b
    → Room b
    → Does 1 b (apply_event m b e) e.instrument (of_type e.etype m e (view b e.instrument))
unfolding apply_event
apply_event-Does m b e v room =
    let counted : BookBuilder = record b { stats = record b.stats { msgs = count b.stats.msgs } } in
    let k = e.instrument in
    let same = Became-same b counted k refl refl v in
    Does-after 0 1 1 b counted _ k (view b k) _ (omega arith) same
      (dispatch-Does e.etype m counted e same.valid room)
