-- ===== src/Book/OrderBook/Queue.antt =====
-- The private members of src/orderbook/order_book.hpp that put an order into the queue of its price level
-- and take it out.
use fastbook.Prelude.{◌+◌, ◌%◌, ◌^◌, Option, none, some, Bool, true, false}
use fastbook.Book.Levels.{Ptr, LevelData, load}
use fastbook.Book.OrderBook.{
  Order, OrderBook, levels, find_level, find_or_insert_level, erase_level, put_levels, order_at,
  update, set_next, set_prev, write_level, less,
}

-- The links between the order and the level's last one, where the level has orders.
unfoldable pub link_behind : OrderBook → Ptr → Ptr → Ptr → Option OrderBook
unfolding update
link_behind b none tail p = some b
link_behind b (some first) tail p = elim (update b tail (set_next p)) [
  | none ↦ none
  | some b' ↦ update b' p (set_prev tail)
]

unfoldable pub add_to_price_queue : OrderBook → Ptr → Option (OrderBook × Bool)
unfolding link_behind
add_to_price_queue b p = elim (order_at b p) [
  | none ↦ none
  | some order ↦
      let (t, found) = find_or_insert_level b order.side order.price in
      elim found [
        | none ↦ some (put_levels b order.side t, false)
        | some place ↦
            let level = load t place in
            elim (link_behind b level.head level.tail p) [
              | none ↦ none
              | some b' ↦
                  let level' : LevelData = record {
                    head = elim level.head [ none ↦ p | some first ↦ level.head ];
                    tail = p;
                    total_qty = (level.total_qty + order.shares) % 2 ^ 64;
                  } in
                  some (write_level b' order.side t place level', true)
            ]
      ]
]

-- The order before `p`, or else the level's head, is linked past it.
unfoldable pub unlink_before : OrderBook → Order → LevelData → Option (OrderBook × LevelData)
unfolding update
unlink_before b order level = elim order.prev [
  | none ↦ some (b, record level { head = order.next })
  | some q ↦ elim (update b (some q) (set_next order.next)) [
    | none ↦ none
    | some b' ↦ some (b', level)
  ]
]

-- The order behind it, or else the level's tail.
unfoldable pub unlink_behind : OrderBook → Order → LevelData → Option (OrderBook × LevelData)
unfolding update
unlink_behind b order level = elim order.next [
  | none ↦ some (b, record level { tail = order.prev })
  | some q ↦ elim (update b (some q) (set_prev order.prev)) [
    | none ↦ none
    | some b' ↦ some (b', level)
  ]
]

-- Both, with the order read again in between.
unfoldable pub unlink : OrderBook → Ptr → Order → LevelData → Option (OrderBook × LevelData)
unfolding unlink_before unlink_behind
unlink b p order level = elim (unlink_before b order level) [
  | none ↦ none
  | some (b', level') ↦ elim (order_at b' p) [
    | none ↦ none
    | some order' ↦ unlink_behind b' order' level'
  ]
]

unfoldable pub remove_from_price_queue : OrderBook → Ptr → Option (OrderBook × Bool)
unfolding unlink
remove_from_price_queue b p = elim (order_at b p) [
  | none ↦ none
  | some order ↦ elim (find_level b order.side order.price) [
    | none ↦ some (b, false)
    | some place ↦ elim (unlink b p order (load (levels b order.side) place)) [
      | none ↦ none
      | some (b', level) ↦
          let level' : LevelData = record level {
            total_qty = less 64 level.total_qty order.shares;
          } in
          let left = write_level b' order.side (levels b' order.side) place level' in
          elim level.head [
            | none ↦ some (erase_level left order.side order.price, true)
            | some first ↦ some (left, true)
          ]
    ]
  ]
]
