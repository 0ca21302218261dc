-- ===== src/Book/Builder.antt =====
-- src/bookbuilder/book_builder.hpp: the handlers of the events of one shard. A pointer to a book is one
-- more than its place in `owned_books_`, so none is null; the map of instruments is the hash table. Each
-- event comes with the answers of the requests for memory that its handler may make, which the books
-- share. `none` is a failed assertion, `std::terminate`, or a pointer to no book or order.
pub mod Views
pub mod Handlers
pub mod Replay
mod Tests
use fastbook.Prelude.{
  ℕ, zero, suc, ◌+◌, ◌-◌, ◌%◌, ◌^◌, List, [], ◌∷◌, ◌++◌, Option, none, some, Bool, true, false,
  ◌==◌, length, get_elem?, set, if◌then◌else◌,
}
use fastbook.Feed.Event.{EventType, added, executed, replaced, cancelled, deleted, MboEvent}
use fastbook.Common.Table.{backward_shift, Table, fib_hash}
use fastbook.Common.Table
use fastbook.Book.OrderBook.{OrderBook, Memory}
use fastbook.Book.OrderBook
use fastbook.Book.OrderBook.Calls.{add_order, cancel_order, execute_order, reduce_order}

pub record Stats : Type 0 where
  pub msgs : ℕ
  pub dropped_adds : ℕ
  pub unknown_oids : ℕ

pub record BookBuilder : Type 0 where
  pub stats : Stats
  pub instrument_map : Table
  pub owned_books : List OrderBook

abbrev count : ℕ → ℕ
count n = (n + 1) % 2 ^ 64

-- A `Book` is an `OrderBook<8, 8192>`, made for 4096 orders.
abbrev pub new_book : OrderBook
new_book = OrderBook.new 8 8192 12

-- The constructor, with a map made for `2 ^ k` instruments; `k` is 13.
unfoldable pub start : ℕ → BookBuilder
start k = record {
  stats = record { msgs = 0; dropped_adds = 0; unknown_oids = 0 };
  instrument_map = Table.new k;
  owned_books = [];
}

abbrev pub find_book : BookBuilder → ℕ → ℕ
find_book b instr = Table.find backward_shift fib_hash b.instrument_map instr

abbrev pub put_book : BookBuilder → ℕ → OrderBook → BookBuilder
put_book b p book = record b { owned_books = set b.owned_books (p - 1) book }

abbrev pub count_unknown : BookBuilder → BookBuilder
count_unknown b = record b { stats = record b.stats { unknown_oids = count b.stats.unknown_oids } }

abbrev pub count_dropped : BookBuilder → BookBuilder
count_dropped b = record b { stats = record b.stats { dropped_adds = count b.stats.dropped_adds } }

-- The test `book == nullptr || !book->op()`, negated, and what it leaves.
pub try_book :
    BookBuilder → ℕ → (OrderBook → Option (OrderBook × Bool)) → Option (BookBuilder × Bool)
try_book b instr op =
    let p = find_book b instr in
    if p == 0 then some (b, false) else elim (get_elem? b.owned_books (p - 1)) [
      | none ↦ none
      | some book ↦ elim (op book) [
        | none ↦ none
        | some (book', done) ↦ some (put_book b p book', done)
      ]
    ]

pub or_unknown : Option (BookBuilder × Bool) → Option BookBuilder
or_unknown none = none
or_unknown (some (b, true)) = some b
or_unknown (some (b, false)) = some (count_unknown b)

-- The pointer to the book of the instrument, which is made if there is none.
pub get_or_init_book : Memory → BookBuilder → ℕ → Option (BookBuilder × ℕ)
get_or_init_book m b instr =
    let p = find_book b instr in
    let fresh = length b.owned_books + 1 in
    let (inserted, map) = Table.insert backward_shift fib_hash b.instrument_map instr fresh in
    if p == 0
    then if m.book
      then if inserted
        then some (
          record b { owned_books = b.owned_books ++ (new_book ∷ []); instrument_map = map },
          fresh,
        )
        else none
      else none
    else some (b, p)

pub add_to_book : Memory → BookBuilder → ℕ → MboEvent → Option BookBuilder
add_to_book m b p e = elim (get_elem? b.owned_books (p - 1)) [
  | none ↦ none
  | some book ↦ elim (add_order m book e.oid e.qty e.price e.side) [
    | none ↦ none
    | some (book', error) ↦ elim error [
      | none ↦ some (put_book b p book')
      | some _ ↦ some (count_dropped (put_book b p book'))
    ]
  ]
]

pub add_order_handler : Memory → BookBuilder → MboEvent → Option BookBuilder
unfolding get_or_init_book add_to_book
add_order_handler m b e = elim (get_or_init_book m b e.instrument) [
  | none ↦ none
  | some (b', p) ↦ add_to_book m b' p e
]

pub cancel_order_handler : BookBuilder → MboEvent → Option BookBuilder
unfolding try_book or_unknown
cancel_order_handler b e =
    or_unknown (try_book b e.instrument (λ book. reduce_order book e.oid e.qty))

pub execute_order_handler : BookBuilder → MboEvent → Option BookBuilder
unfolding try_book or_unknown
execute_order_handler b e =
    or_unknown (try_book b e.instrument (λ book. execute_order book e.oid e.qty))

pub delete_order_handler : BookBuilder → MboEvent → Option BookBuilder
unfolding try_book or_unknown
delete_order_handler b e = or_unknown (try_book b e.instrument (λ book. cancel_order book e.oid))

pub replace_order_handler : Memory → BookBuilder → MboEvent → Option BookBuilder
unfolding try_book or_unknown add_order_handler
replace_order_handler m b e =
    elim (or_unknown (try_book b e.instrument (λ book. cancel_order book e.orig_oid))) [
      | none ↦ none
      | some b' ↦ add_order_handler m b' e
    ]

pub dispatch : EventType → Memory → BookBuilder → MboEvent → Option BookBuilder
unfolding add_order_handler cancel_order_handler execute_order_handler delete_order_handler
    replace_order_handler
dispatch added m b e = add_order_handler m b e
dispatch executed m b e = execute_order_handler b e
dispatch replaced m b e = replace_order_handler m b e
dispatch cancelled m b e = cancel_order_handler b e
dispatch deleted m b e = delete_order_handler b e

pub apply_event : Memory → BookBuilder → MboEvent → Option BookBuilder
unfolding dispatch
apply_event m b e =
    dispatch e.etype m (record b { stats = record b.stats { msgs = count b.stats.msgs } }) e

-- The loops of `run`, on the events that the queue holds one after another.
pub apply_events : BookBuilder → List (Memory × MboEvent) → Option BookBuilder
unfolding apply_event
apply_events b [] = some b
apply_events b ((m, e) ∷ es) = elim (apply_event m b e) [
  | none ↦ none
  | some b' ↦ apply_events b' es
]
