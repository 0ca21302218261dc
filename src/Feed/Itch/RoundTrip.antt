-- ===== src/Feed/Itch/RoundTrip.antt =====
-- Parsing an encoded message gives the message back.
use fastbook.Prelude.{ℕ, ◌≡◌, ◌∙◌, List, some, arith}
use fastbook.Feed.Bytes.RoundTrip.{bind-read_num, bind-read_timestamp, bind-take_n}
use fastbook.Feed.Itch.Message.{
  ItchMessage, AddOrder, AddOrderMpid, OrderExecuted, OrderExecutedWithPrice, OrderCancel,
  OrderDelete, OrderReplace, add_order, add_order_mpid, order_executed, order_executed_price,
  order_cancel, order_delete, order_replace, unknown,
}
use fastbook.Feed.Itch.Wire.{
  encode, Fits, AddOrderFits, AddOrderMpidFits, OrderExecutedFits, OrderExecutedWithPriceFits,
  OrderCancelFits, OrderDeleteFits, OrderReplaceFits, encode_add_order, encode_add_order_mpid,
  encode_order_executed, encode_order_executed_price, encode_order_cancel, encode_order_delete,
  encode_order_replace,
}
use fastbook.Feed.Itch.{
  parse_body, parse_msg, parse_add_order_msg, parse_add_order_mpid_msg, parse_order_executed_msg,
  parse_order_executed_price_msg, parse_order_cancel_msg, parse_order_delete_msg,
  parse_order_replace_msg,
}

add_order_lem :
    (m : AddOrder) (rest : List ℕ)
    → AddOrderFits m
    → parse_add_order_msg (encode_add_order m rest) ≡ some (add_order m, rest)
unfolding parse_add_order_msg
add_order_lem m rest h =
    bind-read_num _ 2 _ _ h.stock_locate
    ∙ bind-read_num _ 2 _ _ h.tracking_number
    ∙ bind-read_timestamp _ _ _ h.timestamp
    ∙ bind-read_num _ 8 _ _ h.order_ref_num
    ∙ bind-read_num _ 1 _ _ h.side
    ∙ bind-read_num _ 4 _ _ h.shares
    ∙ bind-take_n _ _ _ _ h.stock
    ∙ bind-read_num _ 4 _ _ h.price

add_order_mpid_lem :
    (m : AddOrderMpid) (rest : List ℕ)
    → AddOrderMpidFits m
    → parse_add_order_mpid_msg (encode_add_order_mpid m rest) ≡ some (add_order_mpid m, rest)
unfolding parse_add_order_mpid_msg
add_order_mpid_lem m rest h =
    bind-read_num _ 2 _ _ h.stock_locate
    ∙ bind-read_num _ 2 _ _ h.tracking_number
    ∙ bind-read_timestamp _ _ _ h.timestamp
    ∙ bind-read_num _ 8 _ _ h.order_ref_num
    ∙ bind-read_num _ 1 _ _ h.side
    ∙ bind-read_num _ 4 _ _ h.shares
    ∙ bind-take_n _ _ _ _ h.stock
    ∙ bind-read_num _ 4 _ _ h.price
    ∙ bind-take_n _ _ _ _ h.attribution

order_executed_lem :
    (m : OrderExecuted) (rest : List ℕ)
    → OrderExecutedFits m
    → parse_order_executed_msg (encode_order_executed m rest) ≡ some (order_executed m, rest)
unfolding parse_order_executed_msg
order_executed_lem m rest h =
    bind-read_num _ 2 _ _ h.stock_locate
    ∙ bind-read_num _ 2 _ _ h.tracking_number
    ∙ bind-read_timestamp _ _ _ h.timestamp
    ∙ bind-read_num _ 8 _ _ h.order_ref_num
    ∙ bind-read_num _ 4 _ _ h.executed_shares
    ∙ bind-read_num _ 8 _ _ h.match_number

order_executed_price_lem :
    (m : OrderExecutedWithPrice) (rest : List ℕ)
    → OrderExecutedWithPriceFits m
    → parse_order_executed_price_msg (encode_order_executed_price m rest)
      ≡ some (order_executed_price m, rest)
unfolding parse_order_executed_price_msg
order_executed_price_lem m rest h =
    bind-read_num _ 2 _ _ h.stock_locate
    ∙ bind-read_num _ 2 _ _ h.tracking_number
    ∙ bind-read_timestamp _ _ _ h.timestamp
    ∙ bind-read_num _ 8 _ _ h.order_ref_num
    ∙ bind-read_num _ 4 _ _ h.executed_shares
    ∙ bind-read_num _ 8 _ _ h.match_number
    ∙ bind-read_num _ 1 _ _ h.printable
    ∙ bind-read_num _ 4 _ _ h.execution_price

order_cancel_lem :
    (m : OrderCancel) (rest : List ℕ)
    → OrderCancelFits m
    → parse_order_cancel_msg (encode_order_cancel m rest) ≡ some (order_cancel m, rest)
unfolding parse_order_cancel_msg
order_cancel_lem m rest h =
    bind-read_num _ 2 _ _ h.stock_locate
    ∙ bind-read_num _ 2 _ _ h.tracking_number
    ∙ bind-read_timestamp _ _ _ h.timestamp
    ∙ bind-read_num _ 8 _ _ h.order_ref_num
    ∙ bind-read_num _ 4 _ _ h.cancelled_shares

order_delete_lem :
    (m : OrderDelete) (rest : List ℕ)
    → OrderDeleteFits m
    → parse_order_delete_msg (encode_order_delete m rest) ≡ some (order_delete m, rest)
unfolding parse_order_delete_msg
order_delete_lem m rest h =
    bind-read_num _ 2 _ _ h.stock_locate
    ∙ bind-read_num _ 2 _ _ h.tracking_number
    ∙ bind-read_timestamp _ _ _ h.timestamp
    ∙ bind-read_num _ 8 _ _ h.order_ref_num

order_replace_lem :
    (m : OrderReplace) (rest : List ℕ)
    → OrderReplaceFits m
    → parse_order_replace_msg (encode_order_replace m rest) ≡ some (order_replace m, rest)
unfolding parse_order_replace_msg
order_replace_lem m rest h =
    bind-read_num _ 2 _ _ h.stock_locate
    ∙ bind-read_num _ 2 _ _ h.tracking_number
    ∙ bind-read_timestamp _ _ _ h.timestamp
    ∙ bind-read_num _ 8 _ _ h.orig_order_ref_num
    ∙ bind-read_num _ 8 _ _ h.new_order_ref_num
    ∙ bind-read_num _ 4 _ _ h.shares
    ∙ bind-read_num _ 4 _ _ h.price

-- Every message type: the parser reads back each field of a message laid out as the tables say, and
-- leaves the bytes behind it.
pub parse_msg-encode :
    (m : ItchMessage) (rest : List ℕ) → Fits m → parse_msg (encode m rest) ≡ some (m, rest)
unfolding parse_msg parse_body
parse_msg-encode (add_order m) rest h = bind-read_num _ 1 _ _ (omega arith) ∙ add_order_lem m rest h
parse_msg-encode (add_order_mpid m) rest h =
    bind-read_num _ 1 _ _ (omega arith) ∙ add_order_mpid_lem m rest h
parse_msg-encode (order_executed m) rest h =
    bind-read_num _ 1 _ _ (omega arith) ∙ order_executed_lem m rest h
parse_msg-encode (order_executed_price m) rest h =
    bind-read_num _ 1 _ _ (omega arith) ∙ order_executed_price_lem m rest h
parse_msg-encode (order_cancel m) rest h =
    bind-read_num _ 1 _ _ (omega arith) ∙ order_cancel_lem m rest h
parse_msg-encode (order_delete m) rest h =
    bind-read_num _ 1 _ _ (omega arith) ∙ order_delete_lem m rest h
parse_msg-encode (order_replace m) rest h =
    bind-read_num _ 1 _ _ (omega arith) ∙ order_replace_lem m rest h
parse_msg-encode unknown rest h = bind-read_num _ 1 _ _ (omega arith)
