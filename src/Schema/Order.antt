-- ===== src/Schema/Order.antt =====
-- internal/domain/schema/order.go and event.go: order requests and execution reports.
use meltica_gateway.Common.{ℕ, Bool, Option}
use meltica_gateway.Common.Text.{Text}

pub data TradeSide : Type 0 where
  buy sell : TradeSide
  other_side : Text → TradeSide

pub data ExecReportState : Type 0 where
  ack partial filled cancelled rejected expired : ExecReportState
  other_state : Text → ExecReportState

-- A time is a count of nanoseconds; the zero time, which precedes every clock reading, is 0.
abbrev pub Time : Type 0
Time = ℕ

pub record OrderRequest : Type 0 where
  pub returned : Bool
  pub client_order_id : Text
  pub consumer_id : Text
  pub provider : Text
  pub symbol : Text
  pub side : TradeSide
  pub order_type : Text
  pub price : Option Text
  pub quantity : Text
  pub tif : Text
  pub timestamp : Time

pub record ExecReportPayload : Type 0 where
  pub client_order_id : Text
  pub exchange_order_id : Text
  pub state : ExecReportState
  pub side : TradeSide
  pub order_type : Text
  pub price : Text
  pub quantity : Text
  pub filled_quantity : Text
  pub remaining_qty : Text
  pub avg_fill_price : Text
  pub commission_amount : Text
  pub commission_asset : Text
  pub timestamp : Time
  pub reject_reason : Option Text
