-- ===== src/Book/OrderBook.antt =====
-- src/orderbook/order_book.hpp: the orders of one instrument, in a doubly linked queue for each price
-- level, oldest first. An `Order *` is the number of the order in the pool; in the table of orders it is
-- two more, so that 0 is null and 1 the mark of a deleted slot. `none` is a failed assertion,
-- `std::terminate`, or the use of a pointer to no order.
pub mod Queue
pub mod Calls
mod Tests
use fastbook.Prelude.{
  ℕ, zero, suc, ◌+◌, ◌-◌, ◌%◌, ◌^◌, List, Option, none, some, Bool, true, false, ltb, leb, ◌==◌,
  get_elem?, set, if◌then◌else◌,
}
use fastbook.Feed.Event.{Side, bid, ask}
use fastbook.Common.Pool.{ObjectPool}
use fastbook.Common.Pool
use fastbook.Common.Table.{backward_shift, Table, fib_hash}
use fastbook.Common.Table
use fastbook.Book.Levels.{Ptr, LevelData, Levels, Place, load, store}
use fastbook.Book.Levels

pub record Order : Type 0 where
  pub order_num : ℕ
  pub shares : ℕ
  pub price : ℕ
  pub side : Side
  pub next : Ptr
  pub prev : Ptr

abbrev pub blank_order : Order
blank_order = record { order_num = 0; shares = 0; price = 0; side = bid; next = none; prev = none }

-- `NoReset`, the pool's default.
abbrev pub no_reset : Order → Order
no_reset o = o

pub data AddOrderError : Type 0 where
  duplicate_order_id levels_full : AddOrderError

pub record OrderBook : Type 0 where
  pub bids : Levels
  pub asks : Levels
  pub max_orders : ℕ
  pub orders_op : ObjectPool Order
  pub orders : Table

-- What the requests for memory answer: for a new book, for the orders of a chunk, for the pool's array of
-- pointers and for the new table.
pub record Memory : Type 0 where
  pub book : Bool
  pub orders : Bool
  pub pointers : Bool
  pub table : Bool

-- The constructor, for `K` hot slots, `ColdCap` cold ones and `2 ^ bits` orders; `MAX_ORDERS` has 12 bits.
unfoldable pub new : ℕ → ℕ → ℕ → OrderBook
new k cold_cap bits = record {
  bids = Levels.new bid k cold_cap;
  asks = Levels.new ask k cold_cap;
  max_orders = 2 ^ bits;
  orders_op = Pool.new no_reset blank_order (2 ^ bits);
  orders = Table.new bits;
}

-- The exponent of a power of two, searched from `k` on.
pub exponent : ℕ → ℕ → ℕ → Option ℕ
exponent zero k n = none
exponent (suc rounds) k n =
    let rest = exponent rounds (k + 1) n in if 2 ^ k == n then some k else rest

-- The result of `grow`; `none` where the table's constructor throws another error than `bad_alloc`.
pub grow : Memory → OrderBook → Option (Bool × OrderBook)
unfolding exponent
grow m b = elim m.orders [
  | false ↦ some (false, b)
  | true ↦
      let (chunked, pool) =
        Pool.add_chunk no_reset blank_order m.pointers b.max_orders b.orders_op in
      let b' = record b { orders_op = pool } in
      elim chunked [
        | false ↦ some (false, b')
        | true ↦ elim (exponent 64 0 (b.max_orders + b.max_orders)) [
          | none ↦ none
          | some bits ↦
              let (rehashed, map) = Table.rehash backward_shift fib_hash m.table bits b.orders in
              elim rehashed [
                | false ↦ some (false, b')
                | true ↦ some (
                  true,
                  record b' { orders = map; max_orders = (b.max_orders + b.max_orders) % 2 ^ 32 },
                )
              ]
        ]
      ]
]

-- An object of the pool, which grows if it has none.
unfoldable pub new_order : Memory → OrderBook → Option (OrderBook × Ptr)
unfolding grow
new_order m b =
    let (p, pool) = Pool.get no_reset blank_order b.orders_op in
    elim p [
      | some i ↦ some (record b { orders_op = pool }, some i)
      | none ↦ elim (grow m b) [
        | none ↦ none
        | some (grown, b') ↦ elim grown [
          | false ↦ none
          | true ↦
              let (p', pool') = Pool.get no_reset blank_order b'.orders_op in
              elim p' [ none ↦ none | some i ↦ some (record b' { orders_op = pool' }, some i) ]
        ]
      ]
    ]

abbrev pub levels : OrderBook → Side → Levels
levels b bid = b.bids
levels b ask = b.asks

abbrev pub put_levels : OrderBook → Side → Levels → OrderBook
put_levels b bid t = record b { bids = t }
put_levels b ask t = record b { asks = t }

abbrev pub find_level : OrderBook → Side → ℕ → Option Place
find_level b side price = Levels.find side (levels b side) price

-- The level pointer with the side that `find_or_insert` leaves.
abbrev pub find_or_insert_level : OrderBook → Side → ℕ → Levels × Option Place
find_or_insert_level b side price = Levels.find_or_insert side (levels b side) price

abbrev pub erase_level : OrderBook → Side → ℕ → OrderBook
erase_level b side price = put_levels b side (Levels.erase side (levels b side) price)

-- `*p`
abbrev pub order_at : OrderBook → Ptr → Option Order
order_at b none = none
order_at b (some i) = get_elem? b.orders_op.storage i

-- A write through `p`.
unfoldable pub update : OrderBook → Ptr → (Order → Order) → Option OrderBook
update b none f = none
update b (some i) f = elim (get_elem? b.orders_op.storage i) [
  | none ↦ none
  | some o ↦
      some
        (record b { orders_op = record b.orders_op { storage = set b.orders_op.storage i (f o) } })
]

abbrev pub set_next : Ptr → Order → Order
set_next p o = record o { next = p }

abbrev pub set_prev : Ptr → Order → Order
set_prev p o = record o { prev = p }

-- `*level = v` with the level in `t`, the side's levels.
abbrev pub write_level : OrderBook → Side → Levels → Place → LevelData → OrderBook
write_level b side t place v = put_levels b side (store t place v)

-- The difference of two words of `w` bits.
abbrev pub less : ℕ → ℕ → ℕ → ℕ
less w a b = (a + 2 ^ w - b) % 2 ^ w
