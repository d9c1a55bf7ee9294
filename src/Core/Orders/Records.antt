-- ===== src/Core/Orders/Records.antt =====
-- base.go: what a lambda writes to the order store, and the texts in it.
use meltica_gateway.Common.{ℕ, ◌/◌, Option, none, some, ◌∷◌, ◌++◌, nat_eq, if◌then◌else◌}
use meltica_gateway.Common.Text.{Text, codes}
use meltica_gateway.Common.Map.{Map}
use meltica_gateway.Schema.Order.{TradeSide, buy, sell, other_side, Time}
use meltica_gateway.Publisher.Emit.{uint64_text, decimal_text}
use meltica_gateway.Risk.Types.{
  BreachType, rate_limit, order_type, order_validation, price_band, position_limit, notional_limit,
  concurrency, kill_switch,
}

-- orderstore.Order, whose metadata are texts here.
pub record StoredOrder : Type 0 where
  pub id : Text
  pub provider : Text
  pub strategy_instance : Text
  pub client_order_id : Text
  pub symbol : Text
  pub side : Text
  pub kind : Text
  pub quantity : Text
  pub price : Option Text
  pub state : Text
  pub external_reference : Text
  pub placed_at : ℕ
  pub metadata : Map Text Text

-- orderstore.OrderUpdate
pub record OrderUpdate : Type 0 where
  pub id : Text
  pub state : Text
  pub acknowledged_at : Option ℕ
  pub completed_at : Option ℕ
  pub metadata : Map Text Text

-- orderstore.Execution
pub record Execution : Type 0 where
  pub order_id : Text
  pub provider : Text
  pub execution_id : Text
  pub quantity : Text
  pub price : Text
  pub fee : Option Text
  pub fee_asset : Option Text
  pub traded_at : ℕ

-- orderstore.BalanceSnapshot
pub record BalanceSnapshot : Type 0 where
  pub provider : Text
  pub asset : Text
  pub total : Text
  pub available : Text
  pub snapshot_at : ℕ

-- A call of the order store; an execution report is one transaction.
pub data StoreCall : Type 0 where
  create_order : StoredOrder → StoreCall
  update_order : OrderUpdate → StoreCall
  report : OrderUpdate → Option Execution → StoreCall
  upsert_balance : BalanceSnapshot → StoreCall

-- t.Unix()
abbrev pub unix : Time → ℕ
unix t = t / 1_000_000_000

-- unixPtr
unfoldable pub unix_ptr : Time → Option ℕ
unix_ptr t = if nat_eq t 0 then none else some (unix t)

unfoldable pub side_text : TradeSide → Text
side_text buy = codes "Buy"
side_text sell = codes "Sell"
side_text (other_side s) = s

-- BreachType's constants.
unfoldable pub breach_type_text : BreachType → Text
breach_type_text rate_limit = codes "RATE_LIMIT"
breach_type_text order_type = codes "ORDER_TYPE"
breach_type_text order_validation = codes "ORDER_VALIDATION"
breach_type_text price_band = codes "PRICE_BAND"
breach_type_text position_limit = codes "POSITION_LIMIT"
breach_type_text notional_limit = codes "NOTIONAL_LIMIT"
breach_type_text concurrency = codes "CONCURRENCY"
breach_type_text kill_switch = codes "KILL_SWITCH"

-- orderID
unfoldable pub new_order_id : Text → Time → ℕ → Text
unfolding decimal_text
new_order_id id now count = id ++ b'-' ∷ (uint64_text now ++ b'-' ∷ uint64_text count)
