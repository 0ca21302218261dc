-- ===== src/Feed/Itch/Message.antt =====
-- The message structs of src/feed/itch_parser.hpp.
use fastbook.Prelude.{ℕ, List}

pub record AddOrder : Type 0 where
  pub stock_locate : ℕ
  pub tracking_number : ℕ
  pub timestamp : ℕ
  pub order_ref_num : ℕ
  pub side : ℕ
  pub shares : ℕ
  pub stock : List ℕ
  pub price : ℕ

pub record AddOrderMpid : Type 0 where
  pub stock_locate : ℕ
  pub tracking_number : ℕ
  pub timestamp : ℕ
  pub order_ref_num : ℕ
  pub side : ℕ
  pub shares : ℕ
  pub stock : List ℕ
  pub price : ℕ
  pub attribution : List ℕ

pub record OrderExecuted : Type 0 where
  pub stock_locate : ℕ
  pub tracking_number : ℕ
  pub timestamp : ℕ
  pub order_ref_num : ℕ
  pub executed_shares : ℕ
  pub match_number : ℕ

pub record OrderExecutedWithPrice : Type 0 where
  pub stock_locate : ℕ
  pub tracking_number : ℕ
  pub timestamp : ℕ
  pub order_ref_num : ℕ
  pub executed_shares : ℕ
  pub match_number : ℕ
  pub printable : ℕ
  pub execution_price : ℕ

pub record OrderCancel : Type 0 where
  pub stock_locate : ℕ
  pub tracking_number : ℕ
  pub timestamp : ℕ
  pub order_ref_num : ℕ
  pub cancelled_shares : ℕ

pub record OrderDelete : Type 0 where
  pub stock_locate : ℕ
  pub tracking_number : ℕ
  pub timestamp : ℕ
  pub order_ref_num : ℕ

pub record OrderReplace : Type 0 where
  pub stock_locate : ℕ
  pub tracking_number : ℕ
  pub timestamp : ℕ
  pub orig_order_ref_num : ℕ
  pub new_order_ref_num : ℕ
  pub shares : ℕ
  pub price : ℕ

-- `ItchMessage`: the tag and the union; a message of another type carries no fields.
pub data ItchMessage : Type 0 where
  add_order : AddOrder → ItchMessage
  add_order_mpid : AddOrderMpid → ItchMessage
  order_executed : OrderExecuted → ItchMessage
  order_executed_price : OrderExecutedWithPrice → ItchMessage
  order_cancel : OrderCancel → ItchMessage
  order_delete : OrderDelete → ItchMessage
  order_replace : OrderReplace → ItchMessage
  unknown : ItchMessage
