-- ===== src/Core/Events/Records.antt =====
-- base.go: what events make a lambda write to the order store and tell its strategy.
use meltica_gateway.Common.{
  Bool, true, false, not, Option, none, some, List, [], ◌∷◌, ◌++◌, nat_eq, or_else, if◌then◌else◌,
}
use meltica_gateway.Common.Text.{Text, codes, text_beq, trim_space, to_upper}
use meltica_gateway.Common.Map.{Map}
use meltica_gateway.Schema.Order.{
  ExecReportPayload, ExecReportState, ack, partial, filled, cancelled, rejected, expired,
  other_state, Time,
}
use meltica_gateway.Schema.Book.{BookSnapshotPayload}
use meltica_gateway.Schema.Instrument.{Instrument}
use meltica_gateway.Schema.Payload.{
  Payload, TradePayload, TickerPayload, KlineSummaryPayload, BalanceUpdatePayload,
  RiskControlPayload,
}
use meltica_gateway.Schema.Route.{Event}
use meltica_gateway.Publisher.Emit.{uint64_text, decimal_text}
use meltica_gateway.Risk.Types.{Outside}
use meltica_gateway.Core.Orders.{
  Desk, StoreCall, report, OrderUpdate, Execution, BalanceSnapshot, unix, unix_ptr,
}

-- A method of the strategy that is called, with what it is given beside the event.
pub data Callback (F A : Type 0) : Type 0 where
  on_trade : TradePayload → F → Callback F A
  on_ticker : TickerPayload → Callback F A
  on_book_snapshot : BookSnapshotPayload → Callback F A
  on_kline_summary : KlineSummaryPayload → Callback F A
  on_instrument_update : Instrument F → Callback F A
  on_balance_update : BalanceUpdatePayload → Callback F A
  on_order_filled on_order_partial_fill on_order_cancelled on_order_acknowledged on_order_expired :
      ExecReportPayload → Callback F A
  on_order_rejected : ExecReportPayload → Text → Callback F A
  on_risk_control : RiskControlPayload → Callback F A
  on_extension_event : Option (Payload F A) → Callback F A

-- What is outside: strconv.ParseFloat, with its error as a flag; half of a decimal; the clock; and
-- whether the strategy takes extension events.
pub record Around (o : Outside) : Type 0 where
  pub parse_float : Text → o.float.F × Bool
  pub half : o.decimal.Num → o.decimal.Num
  pub now : Time
  pub takes_extensions : Bool

-- A lambda after an event: its desk, and what the strategy was told.
pub record Handled (o : Outside) (A : Type 0) : Type 0 where
  pub desk : Desk o
  pub told : List (Callback o.float.F A)

-- string(payload.State)
unfoldable pub state_text : ExecReportState → Text
state_text ack = codes "ACK"
state_text partial = codes "PARTIAL"
state_text filled = codes "FILLED"
state_text cancelled = codes "CANCELLED"
state_text rejected = codes "REJECTED"
state_text expired = codes "EXPIRED"
state_text (other_state s) = s

-- The two cases of persistExecReport's switch, and the states that record an execution.
unfoldable pub is_known : ExecReportState → Bool
is_known (other_state s) = false
is_known s = true

unfoldable pub is_complete : ExecReportState → Bool
is_complete filled = true
is_complete cancelled = true
is_complete rejected = true
is_complete expired = true
is_complete s = false

unfoldable pub is_fill : ExecReportState → Bool
is_fill filled = true
is_fill partial = true
is_fill s = false

-- A text that is not blank.
unfoldable pub filled_text : Text → Option Text
filled_text s = if text_beq (trim_space s) [] then none else some s

unfoldable pub entry_of : Text → Option Text → Map Text Text
entry_of key none = []
entry_of key (some value) = (key, value) ∷ []

-- The first of two times that is not zero, and else the clock.
unfoldable pub time_of : Time → Time → Time → Time
time_of payload_ts event_ts now =
    if not (nat_eq payload_ts 0)
    then payload_ts
    else if not (nat_eq event_ts 0)
    then event_ts
    else now

-- The update of persistExecReport.
unfoldable pub exec_update : ExecReportPayload → Time → OrderUpdate
exec_update p t = record {
  id = p.client_order_id;
  state = state_text p.state;
  acknowledged_at = if is_known p.state then unix_ptr t else none;
  completed_at = if is_complete p.state then unix_ptr t else none;
  metadata =
      (codes "exchangeOrderId", p.exchange_order_id)
      ∷ (codes "filledQuantity", p.filled_quantity)
      ∷ (codes "remainingQty", p.remaining_qty)
      ∷ (codes "avgFillPrice", p.avg_fill_price)
      ∷ (entry_of (codes "rejectReason") p.reject_reason
          ++ entry_of (codes "commissionAmount") (filled_text p.commission_amount)
          ++ entry_of (codes "commissionAsset") (filled_text p.commission_asset));
}

-- What handleExecReport tells the strategy.
unfoldable pub exec_callback : {F A : Type 0} → ExecReportPayload → List (Callback F A)
exec_callback p = elim p.state [
  | filled ↦ on_order_filled p ∷ []
  | rejected ↦ on_order_rejected p (or_else p.reject_reason []) ∷ []
  | partial ↦ on_order_partial_fill p ∷ []
  | cancelled ↦ on_order_cancelled p ∷ []
  | ack ↦ on_order_acknowledged p ∷ []
  | expired ↦ on_order_expired p ∷ []
  | other_state _ ↦ []
]

module _ {P : Type 0} where
  -- buildExecutionSnapshot, without its metadata.
  unfoldable pub execution_snapshot : Event P → ExecReportPayload → Time → Execution
  unfolding decimal_text
  execution_snapshot evt p now = record {
    order_id = p.client_order_id;
    provider = evt.provider;
    execution_id =
        if text_beq (trim_space evt.event_id) []
        then p.client_order_id ++ b'-' ∷ uint64_text p.timestamp
        else evt.event_id;
    quantity = p.filled_quantity;
    price = p.avg_fill_price;
    fee = filled_text p.commission_amount;
    fee_asset = filled_text p.commission_asset;
    traded_at = unix (time_of p.timestamp evt.emit_ts now);
  }

  -- The transaction of persistExecReport.
  unfoldable pub exec_call : Event P → ExecReportPayload → Time → StoreCall
  exec_call evt p now =
      report (exec_update p (time_of p.timestamp evt.emit_ts now))
        (if is_fill p.state then some (execution_snapshot evt p now) else none)

  -- The row of persistBalance, without its metadata.
  unfoldable pub balance_row : Event P → BalanceUpdatePayload → Time → BalanceSnapshot
  balance_row evt p now = record {
    provider = evt.provider;
    asset = to_upper (trim_space p.currency);
    total = p.total;
    available = p.available;
    snapshot_at = unix (time_of p.timestamp 0 now);
  }

  -- handleRiskControl's defaults.
  unfoldable pub fill_risk_control : Event P → RiskControlPayload → RiskControlPayload
  fill_risk_control evt p = record p {
    provider = if text_beq p.provider [] then evt.provider else p.provider;
    symbol = if text_beq p.symbol [] then evt.symbol else p.symbol;
  }
