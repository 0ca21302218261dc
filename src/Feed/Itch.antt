-- ===== src/Feed/Itch.antt =====
-- src/feed/itch_parser.hpp: the NASDAQ ITCH 5.0 messages that change a book, and their events.
pub mod Message
pub mod Wire
pub mod RoundTrip
pub mod Length
mod Tests
use fastbook.Prelude.{true, ℕ, ◌==◌, ◌||◌, List, [], ◌∷◌, Option, none, some, if◌then◌else◌}
use fastbook.Feed.Bytes.{Read, pure, ◌>>=◌, read_num, read_timestamp, take_n}
use fastbook.Feed.Itch.Message.{
  ItchMessage, AddOrder, AddOrderMpid, OrderExecuted, OrderExecutedWithPrice, OrderCancel,
  OrderDelete, OrderReplace, add_order, add_order_mpid, order_executed, order_executed_price,
  order_cancel, order_delete, order_replace, unknown,
}
use fastbook.Feed.Event.{Side, EventType, MboEvent, blank}

unfoldable pub parse_add_order_msg : Read ItchMessage
parse_add_order_msg = do
  stock_locate ← read_num 2
  tracking_number ← read_num 2
  timestamp ← read_timestamp
  order_ref_num ← read_num 8
  side ← read_num 1
  shares ← read_num 4
  stock ← take_n 8
  price ← read_num 4
  pure (
      add_order (record {
        stock_locate = stock_locate;
        tracking_number = tracking_number;
        timestamp = timestamp;
        order_ref_num = order_ref_num;
        side = side;
        shares = shares;
        stock = stock;
        price = price;
      }))

unfoldable pub parse_add_order_mpid_msg : Read ItchMessage
parse_add_order_mpid_msg = do
  stock_locate ← read_num 2
  tracking_number ← read_num 2
  timestamp ← read_timestamp
  order_ref_num ← read_num 8
  side ← read_num 1
  shares ← read_num 4
  stock ← take_n 8
  price ← read_num 4
  attribution ← take_n 4
  pure (
      add_order_mpid (record {
        stock_locate = stock_locate;
        tracking_number = tracking_number;
        timestamp = timestamp;
        order_ref_num = order_ref_num;
        side = side;
        shares = shares;
        stock = stock;
        price = price;
        attribution = attribution;
      }))

unfoldable pub parse_order_executed_msg : Read ItchMessage
parse_order_executed_msg = do
  stock_locate ← read_num 2
  tracking_number ← read_num 2
  timestamp ← read_timestamp
  order_ref_num ← read_num 8
  executed_shares ← read_num 4
  match_number ← read_num 8
  pure (
      order_executed (record {
        stock_locate = stock_locate;
        tracking_number = tracking_number;
        timestamp = timestamp;
        order_ref_num = order_ref_num;
        executed_shares = executed_shares;
        match_number = match_number;
      }))

unfoldable pub parse_order_executed_price_msg : Read ItchMessage
parse_order_executed_price_msg = do
  stock_locate ← read_num 2
  tracking_number ← read_num 2
  timestamp ← read_timestamp
  order_ref_num ← read_num 8
  executed_shares ← read_num 4
  match_number ← read_num 8
  printable ← read_num 1
  execution_price ← read_num 4
  pure (
      order_executed_price (record {
        stock_locate = stock_locate;
        tracking_number = tracking_number;
        timestamp = timestamp;
        order_ref_num = order_ref_num;
        executed_shares = executed_shares;
        match_number = match_number;
        printable = printable;
        execution_price = execution_price;
      }))

unfoldable pub parse_order_cancel_msg : Read ItchMessage
parse_order_cancel_msg = do
  stock_locate ← read_num 2
  tracking_number ← read_num 2
  timestamp ← read_timestamp
  order_ref_num ← read_num 8
  cancelled_shares ← read_num 4
  pure (
      order_cancel (record {
        stock_locate = stock_locate;
        tracking_number = tracking_number;
        timestamp = timestamp;
        order_ref_num = order_ref_num;
        cancelled_shares = cancelled_shares;
      }))

unfoldable pub parse_order_delete_msg : Read ItchMessage
parse_order_delete_msg = do
  stock_locate ← read_num 2
  tracking_number ← read_num 2
  timestamp ← read_timestamp
  order_ref_num ← read_num 8
  pure (
      order_delete (record {
        stock_locate = stock_locate;
        tracking_number = tracking_number;
        timestamp = timestamp;
        order_ref_num = order_ref_num;
      }))

unfoldable pub parse_order_replace_msg : Read ItchMessage
parse_order_replace_msg = do
  stock_locate ← read_num 2
  tracking_number ← read_num 2
  timestamp ← read_timestamp
  orig_order_ref_num ← read_num 8
  new_order_ref_num ← read_num 8
  shares ← read_num 4
  price ← read_num 4
  pure (
      order_replace (record {
        stock_locate = stock_locate;
        tracking_number = tracking_number;
        timestamp = timestamp;
        orig_order_ref_num = orig_order_ref_num;
        new_order_ref_num = new_order_ref_num;
        shares = shares;
        price = price;
      }))

-- The `switch` on the type byte.
unfoldable pub parse_body : ℕ → Read ItchMessage
parse_body msg_type =
    if msg_type == b'A'
    then parse_add_order_msg
    else if msg_type == b'F'
    then parse_add_order_mpid_msg
    else if msg_type == b'E'
    then parse_order_executed_msg
    else if msg_type == b'C'
    then parse_order_executed_price_msg
    else if msg_type == b'X'
    then parse_order_cancel_msg
    else if msg_type == b'D'
    then parse_order_delete_msg
    else if msg_type == b'U'
    then parse_order_replace_msg
    else pure unknown

unfoldable pub parse_msg : Read ItchMessage
parse_msg = do msg_type ← read_num 1; parse_body msg_type

side_of : ℕ → Side
side_of c = if c == b'B' then Side.bid else Side.ask

-- `none` is the failed `assert` on the side.
create_mbo_from_add_order : AddOrder → Option MboEvent
unfolding side_of
create_mbo_from_add_order m =
    if m.side == b'B' || m.side == b'S'
    then some (record blank {
      etype = EventType.added;
      side = side_of m.side;
      printable = true;
      instrument = m.stock_locate;
      timestamp = m.timestamp;
      oid = m.order_ref_num;
      price = m.price;
      qty = m.shares;
    })
    else none

create_mbo_from_add_order_mpid : AddOrderMpid → MboEvent
unfolding side_of
create_mbo_from_add_order_mpid m = record blank {
  etype = EventType.added;
  side = side_of m.side;
  printable = true;
  instrument = m.stock_locate;
  timestamp = m.timestamp;
  oid = m.order_ref_num;
  price = m.price;
  qty = m.shares;
}

create_mbo_from_order_exec : OrderExecuted → MboEvent
create_mbo_from_order_exec m = record blank {
  etype = EventType.executed;
  printable = true;
  instrument = m.stock_locate;
  timestamp = m.timestamp;
  oid = m.order_ref_num;
  qty = m.executed_shares;
}

create_mbo_from_order_exec_price : OrderExecutedWithPrice → MboEvent
create_mbo_from_order_exec_price m = record blank {
  etype = EventType.executed;
  printable = m.printable == b'Y';
  instrument = m.stock_locate;
  timestamp = m.timestamp;
  oid = m.order_ref_num;
  price = m.execution_price;
  qty = m.executed_shares;
}

create_mbo_from_order_cancel : OrderCancel → MboEvent
create_mbo_from_order_cancel m = record blank {
  etype = EventType.cancelled;
  printable = true;
  instrument = m.stock_locate;
  timestamp = m.timestamp;
  oid = m.order_ref_num;
  qty = m.cancelled_shares;
}

create_mbo_from_order_delete : OrderDelete → MboEvent
create_mbo_from_order_delete m = record blank {
  etype = EventType.deleted;
  printable = true;
  instrument = m.stock_locate;
  timestamp = m.timestamp;
  oid = m.order_ref_num;
}

create_mbo_from_order_replace : OrderReplace → MboEvent
create_mbo_from_order_replace m = record blank {
  etype = EventType.replaced;
  printable = true;
  instrument = m.stock_locate;
  timestamp = m.timestamp;
  oid = m.new_order_ref_num;
  orig_oid = m.orig_order_ref_num;
  price = m.price;
  qty = m.shares;
}

-- The `switch` of `parse`: the events handed to the sink.
unfoldable pub events_of : ItchMessage → Option (List MboEvent)
unfolding create_mbo_from_add_order create_mbo_from_add_order_mpid create_mbo_from_order_exec
    create_mbo_from_order_exec_price create_mbo_from_order_cancel create_mbo_from_order_delete
    create_mbo_from_order_replace
events_of (add_order m) = elim (create_mbo_from_add_order m) [
  | none ↦ none
  | some e ↦ some (e ∷ [])
]
events_of (add_order_mpid m) = some (create_mbo_from_add_order_mpid m ∷ [])
events_of (order_executed m) = some (create_mbo_from_order_exec m ∷ [])
events_of (order_executed_price m) = some (create_mbo_from_order_exec_price m ∷ [])
events_of (order_cancel m) = some (create_mbo_from_order_cancel m ∷ [])
events_of (order_delete m) = some (create_mbo_from_order_delete m ∷ [])
events_of (order_replace m) = some (create_mbo_from_order_replace m ∷ [])
events_of unknown = some []

-- `parse`; the bytes behind the fields are not looked at.
unfoldable pub parse : List ℕ → Option (List MboEvent)
parse bytes = elim (parse_msg bytes) [ none ↦ none | some (msg, _) ↦ events_of msg ]
