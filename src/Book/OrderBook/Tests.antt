-- ===== src/Book/OrderBook/Tests.antt =====
-- A book of one hot slot and two cold ones, with room for two orders and then for four.
use fastbook.Prelude.{ℕ, ◌++◌, ◌≡◌, refl, List, [], ◌∷◌, Option, none, some, true, false}
use fastbook.Feed.Event.{bid}
use fastbook.Common.Pool.{hand_out, get, restore, add_chunk, chunk}
use fastbook.Common.Pool
use fastbook.Common.Table.{
  find, find_key, find_from, get_pos, fib_hash, wrap, insert, insert_from, erase, shift_back,
  set_empty, slot_at, rehash, reinsert,
}
use fastbook.Common.Table
use fastbook.Book.Levels.{load}
use fastbook.Book.Levels
use fastbook.Book.OrderBook.{
  Order, OrderBook, Memory, new, new_order, grow, exponent, update, order_at, find_level,
}
use fastbook.Book.OrderBook.Queue.{
  add_to_price_queue, remove_from_price_queue, link_behind, unlink, unlink_before, unlink_behind,
}
use fastbook.Book.OrderBook.Calls.{
  enter_order, add_order, forget_order, cancel_order, take_shares, execute_order, reduce_order,
  get_first_order,
}

abbrev found : Memory
found = record { book = true; orders = true; pointers = true; table = true }

abbrev lost : Memory
lost = record { book = true; orders = false; pointers = true; table = true }

abbrev book : OrderBook
book = new 1 2 1

data Call : Type 0 where
  adds : Memory → ℕ → ℕ → ℕ → Call
  cancels : ℕ → Call
  executes : ℕ → ℕ → Call

abbrev left_by : {A : Type 0} → Option (OrderBook × A) → Option OrderBook
left_by none = none
left_by (some (b, answer)) = some b

abbrev call : Call → OrderBook → Option OrderBook
call (adds m oid shares price) b = left_by (add_order m b oid shares price bid)
call (cancels oid) b = left_by (cancel_order b oid)
call (executes oid shares) b = left_by (reduce_order b oid shares)

abbrev calls : List Call → OrderBook → Option OrderBook
calls [] b = some b
calls (c ∷ cs) b = elim (call c b) [ none ↦ none | some b' ↦ calls cs b' ]

-- The number and the shares of an order.
abbrev shown : Option Order → ℕ × ℕ
shown none = (0, 0)
shown (some o) = (o.order_num, o.shares)

abbrev quantity : OrderBook → ℕ → ℕ
quantity b price = elim (find_level b bid price) [
  | none ↦ 0
  | some place ↦ (load b.bids place).total_qty
]

-- The first order of the price, and the quantity of its level.
abbrev first : Option OrderBook → ℕ → Option ((ℕ × ℕ) × ℕ)
first none price = none
first (some b) price = some (shown (order_at b (get_first_order b bid price)), quantity b price)

abbrev three : List Call
three = adds found 11 5 100 ∷ adds found 12 6 100 ∷ adds found 13 7 100 ∷ []

abbrev two : List Call
two = adds found 11 5 100 ∷ adds found 12 6 100 ∷ []

abbrev after : List Call → Option ((ℕ × ℕ) × ℕ)
after cs = first (calls cs book) 100

-- The third order makes the pool and the table grow; without memory the program terminates. Then the
-- first order goes, or one in the middle before it, with a part of the last; with its last order the
-- level goes too. More shares than the order has fail the assertion.
outcomes :
    after three
      ∷ after (two ++ (adds lost 13 7 100 ∷ []))
      ∷ after (three ++ (cancels 11 ∷ []))
      ∷ after (three ++ (cancels 12 ∷ executes 13 3 ∷ cancels 11 ∷ []))
      ∷ after (adds found 11 5 100 ∷ executes 11 5 ∷ [])
      ∷ after (adds found 11 5 100 ∷ executes 11 6 ∷ [])
      ∷ []
    ≡ some ((11, 5), 18)
      ∷ none
      ∷ some ((12, 6), 13)
      ∷ some ((13, 4), 4)
      ∷ some ((0, 0), 0)
      ∷ none
      ∷ []
unfolding new Levels.new Table.new Pool.new hand_out get restore add_chunk chunk add_order new_order
    enter_order update add_to_price_queue link_behind find find_key find_from get_pos fib_hash
    insert insert_from wrap Levels.find_or_insert Levels.find grow exponent rehash reinsert
    cancel_order execute_order reduce_order take_shares forget_order remove_from_price_queue unlink
    unlink_before unlink_behind erase shift_back Levels.erase
outcomes = refl
