-- ===== src/Feed/Itch/Wire.antt =====
-- The wire layout of the messages, from the ITCH 5.0 field tables: an encoder and field ranges.
use fastbook.Prelude.{ℕ, ◌^◌, ◌<◌, ◌≡◌, List, ◌++◌, length}
use fastbook.Feed.Bytes.{to_big_endian}
use fastbook.Feed.Itch.Message.{
  ItchMessage, AddOrder, AddOrderMpid, OrderExecuted, OrderExecutedWithPrice, OrderCancel,
  OrderDelete, OrderReplace, add_order, add_order_mpid, order_executed, order_executed_price,
  order_cancel, order_delete, order_replace, unknown,
}

-- Every field fits its width.
pub record AddOrderFits (m : AddOrder) : Type 0 where
  pub stock_locate : m.stock_locate < 256 ^ 2
  pub tracking_number : m.tracking_number < 256 ^ 2
  pub timestamp : m.timestamp < 256 ^ 6
  pub order_ref_num : m.order_ref_num < 256 ^ 8
  pub side : m.side < 256 ^ 1
  pub shares : m.shares < 256 ^ 4
  pub stock : 8 ≡ length m.stock
  pub price : m.price < 256 ^ 4

abbrev pub encode_add_order : AddOrder → List ℕ → List ℕ
encode_add_order m rest =
    to_big_endian 2 m.stock_locate
    ++ (to_big_endian 2 m.tracking_number
        ++ (to_big_endian 6 m.timestamp
            ++ (to_big_endian 8 m.order_ref_num
                ++ (to_big_endian 1 m.side
                    ++ (to_big_endian 4 m.shares
                        ++ (m.stock ++ (to_big_endian 4 m.price ++ rest)))))))

-- Every field fits its width.
pub record AddOrderMpidFits (m : AddOrderMpid) : Type 0 where
  pub stock_locate : m.stock_locate < 256 ^ 2
  pub tracking_number : m.tracking_number < 256 ^ 2
  pub timestamp : m.timestamp < 256 ^ 6
  pub order_ref_num : m.order_ref_num < 256 ^ 8
  pub side : m.side < 256 ^ 1
  pub shares : m.shares < 256 ^ 4
  pub stock : 8 ≡ length m.stock
  pub price : m.price < 256 ^ 4
  pub attribution : 4 ≡ length m.attribution

abbrev pub encode_add_order_mpid : AddOrderMpid → List ℕ → List ℕ
encode_add_order_mpid m rest =
    to_big_endian 2 m.stock_locate
    ++ (to_big_endian 2 m.tracking_number
        ++ (to_big_endian 6 m.timestamp
            ++ (to_big_endian 8 m.order_ref_num
                ++ (to_big_endian 1 m.side
                    ++ (to_big_endian 4 m.shares
                        ++ (m.stock ++ (to_big_endian 4 m.price ++ (m.attribution ++ rest))))))))

-- Every field fits its width.
pub record OrderExecutedFits (m : OrderExecuted) : Type 0 where
  pub stock_locate : m.stock_locate < 256 ^ 2
  pub tracking_number : m.tracking_number < 256 ^ 2
  pub timestamp : m.timestamp < 256 ^ 6
  pub order_ref_num : m.order_ref_num < 256 ^ 8
  pub executed_shares : m.executed_shares < 256 ^ 4
  pub match_number : m.match_number < 256 ^ 8

abbrev pub encode_order_executed : OrderExecuted → List ℕ → List ℕ
encode_order_executed m rest =
    to_big_endian 2 m.stock_locate
    ++ (to_big_endian 2 m.tracking_number
        ++ (to_big_endian 6 m.timestamp
            ++ (to_big_endian 8 m.order_ref_num
                ++ (to_big_endian 4 m.executed_shares
                    ++ (to_big_endian 8 m.match_number ++ rest)))))

-- Every field fits its width.
pub record OrderExecutedWithPriceFits (m : OrderExecutedWithPrice) : Type 0 where
  pub stock_locate : m.stock_locate < 256 ^ 2
  pub tracking_number : m.tracking_number < 256 ^ 2
  pub timestamp : m.timestamp < 256 ^ 6
  pub order_ref_num : m.order_ref_num < 256 ^ 8
  pub executed_shares : m.executed_shares < 256 ^ 4
  pub match_number : m.match_number < 256 ^ 8
  pub printable : m.printable < 256 ^ 1
  pub execution_price : m.execution_price < 256 ^ 4

abbrev pub encode_order_executed_price : OrderExecutedWithPrice → List ℕ → List ℕ
encode_order_executed_price m rest =
    to_big_endian 2 m.stock_locate
    ++ (to_big_endian 2 m.tracking_number
        ++ (to_big_endian 6 m.timestamp
            ++ (to_big_endian 8 m.order_ref_num
                ++ (to_big_endian 4 m.executed_shares
                    ++ (to_big_endian 8 m.match_number
                        ++ (to_big_endian 1 m.printable
                            ++ (to_big_endian 4 m.execution_price ++ rest)))))))

-- Every field fits its width.
pub record OrderCancelFits (m : OrderCancel) : Type 0 where
  pub stock_locate : m.stock_locate < 256 ^ 2
  pub tracking_number : m.tracking_number < 256 ^ 2
  pub timestamp : m.timestamp < 256 ^ 6
  pub order_ref_num : m.order_ref_num < 256 ^ 8
  pub cancelled_shares : m.cancelled_shares < 256 ^ 4

abbrev pub encode_order_cancel : OrderCancel → List ℕ → List ℕ
encode_order_cancel m rest =
    to_big_endian 2 m.stock_locate
    ++ (to_big_endian 2 m.tracking_number
        ++ (to_big_endian 6 m.timestamp
            ++ (to_big_endian 8 m.order_ref_num ++ (to_big_endian 4 m.cancelled_shares ++ rest))))

-- Every field fits its width.
pub record OrderDeleteFits (m : OrderDelete) : Type 0 where
  pub stock_locate : m.stock_locate < 256 ^ 2
  pub tracking_number : m.tracking_number < 256 ^ 2
  pub timestamp : m.timestamp < 256 ^ 6
  pub order_ref_num : m.order_ref_num < 256 ^ 8

abbrev pub encode_order_delete : OrderDelete → List ℕ → List ℕ
encode_order_delete m rest =
    to_big_endian 2 m.stock_locate
    ++ (to_big_endian 2 m.tracking_number
        ++ (to_big_endian 6 m.timestamp ++ (to_big_endian 8 m.order_ref_num ++ rest)))

-- Every field fits its width.
pub record OrderReplaceFits (m : OrderReplace) : Type 0 where
  pub stock_locate : m.stock_locate < 256 ^ 2
  pub tracking_number : m.tracking_number < 256 ^ 2
  pub timestamp : m.timestamp < 256 ^ 6
  pub orig_order_ref_num : m.orig_order_ref_num < 256 ^ 8
  pub new_order_ref_num : m.new_order_ref_num < 256 ^ 8
  pub shares : m.shares < 256 ^ 4
  pub price : m.price < 256 ^ 4

abbrev pub encode_order_replace : OrderReplace → List ℕ → List ℕ
encode_order_replace m rest =
    to_big_endian 2 m.stock_locate
    ++ (to_big_endian 2 m.tracking_number
        ++ (to_big_endian 6 m.timestamp
            ++ (to_big_endian 8 m.orig_order_ref_num
                ++ (to_big_endian 8 m.new_order_ref_num
                    ++ (to_big_endian 4 m.shares ++ (to_big_endian 4 m.price ++ rest))))))

-- A message in front of `rest`: its type byte, then its fields in order.
abbrev pub encode : ItchMessage → List ℕ → List ℕ
encode (add_order m) rest = to_big_endian 1 b'A' ++ encode_add_order m rest
encode (add_order_mpid m) rest = to_big_endian 1 b'F' ++ encode_add_order_mpid m rest
encode (order_executed m) rest = to_big_endian 1 b'E' ++ encode_order_executed m rest
encode (order_executed_price m) rest = to_big_endian 1 b'C' ++ encode_order_executed_price m rest
encode (order_cancel m) rest = to_big_endian 1 b'X' ++ encode_order_cancel m rest
encode (order_delete m) rest = to_big_endian 1 b'D' ++ encode_order_delete m rest
encode (order_replace m) rest = to_big_endian 1 b'U' ++ encode_order_replace m rest
encode unknown rest = to_big_endian 1 b'S' ++ rest

abbrev pub Fits : ItchMessage → Type 0
Fits (add_order m) = AddOrderFits m
Fits (add_order_mpid m) = AddOrderMpidFits m
Fits (order_executed m) = OrderExecutedFits m
Fits (order_executed_price m) = OrderExecutedWithPriceFits m
Fits (order_cancel m) = OrderCancelFits m
Fits (order_delete m) = OrderDeleteFits m
Fits (order_replace m) = OrderReplaceFits m
Fits unknown = Unit {0}
