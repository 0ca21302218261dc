-- ===== src/Book/Builder/Tests.antt =====
-- Two orders for two instruments, one of them deleted again.
use fastbook.Prelude.{
  ℕ, ◌+◌, ◌≤◌, ◌≡◌, refl, arith, List, [], ◌∷◌, Option, none, some, true, length,
}
use fastbook.Feed.Event.{MboEvent, EventType, blank}
use fastbook.Common.Table.{
  new, find_key, find_from, get_pos, fib_hash, insert_from, wrap, shift_back,
}
use fastbook.Common.Table
use fastbook.Common.Pool.{hand_out, get, restore}
use fastbook.Common.Pool
use fastbook.Book.Levels
use fastbook.Book.OrderBook.{Memory, new_order, update}
use fastbook.Book.OrderBook
use fastbook.Book.OrderBook.Queue.{
  add_to_price_queue, link_behind, remove_from_price_queue, unlink, unlink_before, unlink_behind,
}
use fastbook.Book.OrderBook.Calls.{add_order, enter_order, cancel_order, forget_order}
use fastbook.Book.Builder.{
  BookBuilder, start, apply_events, apply_event, dispatch, add_order_handler, delete_order_handler,
  get_or_init_book, add_to_book, try_book, or_unknown,
}
use fastbook.Book.Builder.Views.{start-IsValid}
use fastbook.Book.Builder.Replay.{Replayed, apply_events-replay}

abbrev found : Memory
found = record { book = true; orders = true; pointers = true; table = true }

abbrev events : List (Memory × MboEvent)
events =
    (found, record blank { instrument = 7; oid = 1; price = 100; qty = 5 })
    ∷ (found, record blank { instrument = 9; oid = 2; price = 101; qty = 6 })
    ∷ (found, record blank { instrument = 7; oid = 1; etype = EventType.deleted })
    ∷ []

start_room : (start 1).instrument_map.size + 3 ≤ (start 1).instrument_map.capacity
unfolding start new
start_room = omega arith

apply_events-replay_example : Replayed events (start 1) (apply_events (start 1) events)
apply_events-replay_example =
    apply_events-replay events (start 1) (start-IsValid 1 (omega arith)) start_room

-- They are all handled, and a book is made for each instrument.
abbrev books : Option BookBuilder → ℕ
books none = 0
books (some b) = length b.owned_books

made : books (apply_events (start 1) events) ≡ 2
unfolding apply_events apply_event dispatch add_order_handler delete_order_handler get_or_init_book
    add_to_book try_book or_unknown start OrderBook.new Levels.new Table.new Pool.new hand_out get
    restore add_order new_order enter_order update add_to_price_queue link_behind Table.find
    find_key find_from get_pos fib_hash Table.insert insert_from wrap Levels.find_or_insert
    Levels.find cancel_order forget_order remove_from_price_queue unlink unlink_before unlink_behind
    Table.erase shift_back Levels.erase
made = refl
