-- ===== src/Book/OrderBook/Calls.antt =====
-- The public members of src/orderbook/order_book.hpp.
use fastbook.Prelude.{ℕ, zero, suc, ◌+◌, Option, none, some, Bool, true, false, leb, ◌==◌}
use fastbook.Feed.Event.{Side}
use fastbook.Common.Pool
use fastbook.Common.Table.{backward_shift, fib_hash}
use fastbook.Common.Table
use fastbook.Book.Levels.{Ptr, LevelData, load}
use fastbook.Book.OrderBook.{
  Order, AddOrderError, duplicate_order_id, levels_full, OrderBook, Memory, no_reset, blank_order,
  new_order, levels, find_level, order_at, update, write_level, less,
}
use fastbook.Book.OrderBook.Queue.{add_to_price_queue, remove_from_price_queue}

abbrev pub address : Ptr → ℕ
address none = 0
address (some i) = i + 2

-- What `add_order` does with the object that the pool gave it.
unfoldable pub enter_order : OrderBook → Ptr → Order → Option (OrderBook × Option AddOrderError)
unfolding update add_to_price_queue
enter_order b p order = elim (update b p (λ old. order)) [
  | none ↦ none
  | some b' ↦ elim (add_to_price_queue b' p) [
    | none ↦ none
    | some (b'', queued) ↦ elim queued [
      | false ↦ some (
        record b'' { orders_op = Pool.restore no_reset blank_order p b''.orders_op },
        some levels_full,
      )
      | true ↦
          let (inserted, map) =
            Table.insert backward_shift fib_hash b''.orders order.order_num (address p) in
          some (record b'' { orders = map }, none)
    ]
  ]
]

abbrev pub find_order : OrderBook → ℕ → ℕ
find_order b oid = Table.find backward_shift fib_hash b.orders oid

-- `none` beside the book is the empty `expected`.
unfoldable pub add_order :
    Memory → OrderBook → ℕ → ℕ → ℕ → Side → Option (OrderBook × Option AddOrderError)
unfolding new_order enter_order
add_order m b oid shares price side = elim (find_order b oid == 0) [
  | false ↦ some (b, some duplicate_order_id)
  | true ↦ elim (new_order m b) [
    | none ↦ none
    | some (b', p) ↦ enter_order b' p (record {
      order_num = oid;
      shares = shares;
      price = price;
      side = side;
      next = none;
      prev = none;
    })
  ]
]

abbrev pub ptr_of : ℕ → Ptr
ptr_of zero = none
ptr_of (suc zero) = none
ptr_of (suc (suc i)) = some i

-- `orders_.erase` with its assertion, and the return of the order to the pool.
unfoldable pub forget_order : OrderBook → ℕ → Ptr → Option (OrderBook × Bool)
forget_order b oid p = elim (Table.erase backward_shift fib_hash b.orders oid) [
  | none ↦ none
  | some (erased, map) ↦ elim erased [
    | false ↦ none
    | true ↦ some (
      record b { orders = map; orders_op = Pool.restore no_reset blank_order p b.orders_op },
      true,
    )
  ]
]

unfoldable pub cancel_order : OrderBook → ℕ → Option (OrderBook × Bool)
unfolding remove_from_price_queue forget_order
cancel_order b oid = elim (ptr_of (find_order b oid)) [
  | none ↦ some (b, false)
  | some i ↦ elim (remove_from_price_queue b (some i)) [
    | none ↦ none
    | some (b', removed) ↦ elim removed [
      | false ↦ some (b', false)
      | true ↦ forget_order b' oid (some i)
    ]
  ]
]

-- The shares go off the order and off its level.
unfoldable pub take_shares : OrderBook → Ptr → Order → ℕ → Option (OrderBook × Bool)
unfolding update
take_shares b p order executed = elim (find_level b order.side order.price) [
  | none ↦ none
  | some place ↦ elim (update b p (λ o. record o { shares = less 32 o.shares executed })) [
    | none ↦ none
    | some b' ↦
        let t = levels b' order.side in
        let level = load t place in
        let level' : LevelData = record level { total_qty = less 64 level.total_qty executed } in
        some (write_level b' order.side t place level', true)
  ]
]

unfoldable pub execute_order : OrderBook → ℕ → ℕ → Option (OrderBook × Bool)
unfolding cancel_order take_shares
execute_order b oid executed = elim (ptr_of (find_order b oid)) [
  | none ↦ some (b, false)
  | some i ↦ elim (order_at b (some i)) [
    | none ↦ none
    | some order ↦ elim (leb executed order.shares) [
      | false ↦ none
      | true ↦ elim (leb order.shares executed) [
        | true ↦ cancel_order b oid
        | false ↦ take_shares b (some i) order executed
      ]
    ]
  ]
]

unfoldable pub reduce_order : OrderBook → ℕ → ℕ → Option (OrderBook × Bool)
unfolding execute_order
reduce_order b oid cancelled = execute_order b oid cancelled

abbrev pub get_order_by_oid : OrderBook → ℕ → Ptr
get_order_by_oid b oid = ptr_of (find_order b oid)

abbrev pub get_first_order : OrderBook → Side → ℕ → Ptr
get_first_order b side price = elim (find_level b side price) [
  | none ↦ none
  | some place ↦ (load (levels b side) place).head
]

abbrev pub best_price : OrderBook → Side → ℕ
best_price b side = (levels b side).best_price
