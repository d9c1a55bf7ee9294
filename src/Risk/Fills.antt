-- ===== src/Risk/Fills.antt =====
-- Fills and execution reports (risk.go: applyFillLocked, releaseOrderLocked, HandleExecution,
-- signedQuantity, isTerminalState).
use meltica_gateway.Common.{
  ◌-◌, Bool, true, false, ◌&&◌, Option, none, some, ◌++◌, or_else, ltb, if◌then◌else◌,
}
use meltica_gateway.Common.Text.{Text, codes, text_beq, text_eq}
use meltica_gateway.Common.Map.{get, put, delete}
use meltica_gateway.Common.Decimal.{Decimal, gt, le}
use meltica_gateway.Schema.Order.{
  TradeSide, buy, sell, other_side, ExecReportState, ack, partial, filled, cancelled, rejected,
  expired, other_state, ExecReportPayload, Time,
}
use meltica_gateway.Risk.Types.{
  Outside, position_limit, notional_limit, RiskError, plain, OrderState, Manager,
}
use meltica_gateway.Risk.Breach.{new_breach, error_text, engage_kill_switch, record_risk_breach}

-- isTerminalState
unfoldable pub is_terminal : ExecReportState → Bool
is_terminal filled = true
is_terminal cancelled = true
is_terminal rejected = true
is_terminal expired = true
is_terminal ack = false
is_terminal partial = false
is_terminal (other_state s) = false

unfoldable pub is_rejected : ExecReportState → Bool
is_rejected rejected = true
is_rejected s = false

unfoldable pub reject_reason : Option Text → Text
reject_reason none = codes "order rejected"
reject_reason (some r) = codes "order rejected: " ++ r

module _ (d : Decimal) where
  open d use {Num, nil, neg}

  -- signedQuantity
  unfoldable pub signed_quantity : TradeSide → Num → Num
  signed_quantity buy qty = qty
  signed_quantity sell qty = neg qty
  signed_quantity (other_side s) qty = qty

  -- A limit that is set and that the value exceeds.
  abbrev pub exceeds : Num → Num → Bool
  exceeds limit value = gt d limit nil && gt d value limit

module _ {o : Outside} where
  open o use {decimal}
  open o.decimal use {Num, nil, add, sub, mul, abs, lt, parse}

  -- m.positions[symbol]
  abbrev pub position : Manager o → Text → Num
  position m symbol = or_else (get m.positions symbol) nil

  -- One of the two halts at the end of applyFillLocked.
  unfoldable pub halt_if : Bool → RiskError → Time → Manager o → Manager o
  halt_if over e now m =
      if over
      then (let (_, m') = record_risk_breach m now e in engage_kill_switch m' now (error_text e))
      else m

  -- The writes to the position and the notional of a symbol.
  unfoldable pub move_position : Manager o → Text → TradeSide → Num → Num → Manager o
  move_position m symbol side qty price =
      let pos = add (position m symbol) (signed_quantity decimal side qty) in
      record m {
        positions = put m.positions symbol pos;
        notionals = put m.notionals symbol (mul (abs pos) price);
      }

  -- The halt on the position, and then that on the notional.
  unfoldable pub halt_over : Manager o → Time → Num → Num → Manager o
  halt_over m now pos notional =
      halt_if (exceeds decimal m.limits.max_notional_value notional)
        (new_breach notional_limit (codes "post-fill notional exceeds maximum") none) now
        (halt_if (exceeds decimal m.limits.max_position_size (abs pos))
          (new_breach position_limit (codes "post-fill position exceeds maximum") none) now m)

  -- applyFillLocked
  unfoldable pub apply_fill : Manager o → Time → Text → TradeSide → Num → Num → Manager o
  apply_fill m now symbol side qty price =
      if le decimal qty nil
      then m
      else (let pos = add (position m symbol) (signed_quantity decimal side qty) in
          halt_over (move_position m symbol side qty price) now pos (mul (abs pos) price))

  -- releaseOrderLocked
  unfoldable pub release_order : Manager o → Text → Manager o
  release_order m symbol =
      let current = or_else (get m.inflight symbol) 0 in
      if ltb 0 current then record m { inflight = put m.inflight symbol (current - 1) } else m

  -- The price of a fill: the report's average price if it is a positive decimal.
  unfoldable pub fill_price : OrderState o → ExecReportPayload → Num
  fill_price order payload =
      if text_beq payload.avg_fill_price (codes "")
      then order.limit_px
      else elim (parse payload.avg_fill_price) [
        | none ↦ order.limit_px
        | some avg ↦ if gt decimal avg nil then avg else order.limit_px
      ]

  -- The fill of HandleExecution: what the report adds to the order's filled quantity.
  unfoldable pub book_fill :
      Manager o → Time → Text → ExecReportPayload → OrderState o → Num → Manager o
  book_fill m now symbol payload order cum =
      let delta = sub cum order.filled in
      if gt decimal delta nil
      then (let m' = apply_fill m now symbol payload.side delta (fill_price order payload) in
          record m' {
            orders = put m'.orders payload.client_order_id (record order { filled = cum });
          })
      else m

  -- The end of an order: its slot is free and it is forgotten.
  unfoldable pub close_order : Manager o → ExecReportPayload → OrderState o → Manager o
  unfolding is_terminal
  close_order m payload order =
      if is_terminal payload.state
      then (let m' = release_order m order.symbol in
          record m' { orders = delete m'.orders payload.client_order_id })
      else m

  -- A rejection counts as a breach where the kill switch is in use.
  unfoldable pub count_rejection : Manager o → Time → ExecReportPayload → Manager o
  unfolding is_rejected
  count_rejection m now payload =
      if is_rejected payload.state && m.limits.kill_switch_enabled
      then (record_risk_breach m now (plain (reject_reason payload.reject_reason))).1
      else m

  -- HandleExecution for a known order and a parsed cumulative quantity, which is clamped at zero.
  unfoldable pub settle :
      Manager o → Time → Text → ExecReportPayload → OrderState o → Num → Manager o
  settle m now symbol payload order parsed =
      let cum = if lt parsed nil then nil else parsed in
      count_rejection (close_order (book_fill m now symbol payload order cum) payload order) now
        payload

  -- HandleExecution
  unfoldable pub handle_execution : Manager o → Time → Text → ExecReportPayload → Manager o
  handle_execution m now symbol payload = elim (get m.orders payload.client_order_id) [
    | none ↦ m
    | some order ↦ elim (parse payload.filled_quantity) [
      | none ↦ m
      | some parsed ↦ settle m now symbol payload order parsed
    ]
  ]
