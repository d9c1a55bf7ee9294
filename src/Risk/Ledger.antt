-- ===== src/Risk/Ledger.antt =====
-- What one execution report writes: the position and the filled quantity of an open order.
use meltica_gateway.Common.{◌≡◌, arith, if◌then◌else◌}
use meltica_gateway.Common.Text.{Text, text_eq}
use meltica_gateway.Common.Map.{put, delete}
use meltica_gateway.Common.Decimal.{Decimal}
use meltica_gateway.Schema.Order.{ExecReportPayload, TradeSide, Time}
use meltica_gateway.Risk.Types.{Outside, OrderState, Manager}
use meltica_gateway.Risk.Fills.{
  position, signed_quantity, move_position, apply_fill, fill_price, book_fill, close_order,
  release_order, count_rejection, is_terminal,
}
use meltica_gateway.Risk.Frame.{halt_over-SameBook, count_rejection-SameBook}

-- The cumulative quantity that a report stands for.
abbrev pub clamped : (d : Decimal) → d.Num → d.Num
clamped d parsed = if d.lt parsed d.nil then d.nil else parsed

module _ {o : Outside} where
  open o use {decimal}
  open o.decimal use {Num, nil, add, sub, mul, abs, lt, parse, lt-sub}

  -- The positions, orders and slots after a fill of `qty`, when it is positive.
  record Filled (m m' : Manager o) (symbol : Text) (side : TradeSide) (qty : Num) : Type 0 where
    positions : m'.positions ≡ (
        if lt nil qty
        then put m.positions symbol (add (position m symbol) (signed_quantity decimal side qty))
        else m.positions)
    orders : m'.orders ≡ m.orders
    inflight : m'.inflight ≡ m.inflight
    limits : m'.limits ≡ m.limits

  apply_fill-Filled :
      (m : Manager o) (now : Time) (symbol : Text) (side : TradeSide) (qty price : Num)
      → Filled m (apply_fill m now symbol side qty price) symbol side qty
  unfolding apply_fill move_position
  apply_fill-Filled m now symbol side qty price = ground (
    arith,
    halt_over-SameBook (move_position m symbol side qty price) now
        (add (position m symbol) (signed_quantity decimal side qty))
        (mul (abs (add (position m symbol) (signed_quantity decimal side qty))) price),
  )

  -- What a report books against an open order.
  pub record Booked (m m' : Manager o) (symbol : Text) (p : ExecReportPayload)
      (order : OrderState o) (cum : Num) : Type 0 where
    pub positions : m'.positions ≡ (
        if lt order.filled cum
        then put m.positions symbol
            (add (position m symbol) (signed_quantity decimal p.side (sub cum order.filled)))
        else m.positions)
    pub orders : m'.orders ≡ (
        if lt order.filled cum
        then put m.orders p.client_order_id (record order { filled = cum })
        else m.orders)
    pub inflight : m'.inflight ≡ m.inflight
    pub limits : m'.limits ≡ m.limits

  pub book_fill-Booked :
      (m : Manager o) (now : Time) (symbol : Text) (p : ExecReportPayload) (order : OrderState o)
      (cum : Num)
      → Booked m (book_fill m now symbol p order cum) symbol p order cum
  unfolding book_fill
  book_fill-Booked m now symbol p order cum = ground (
    arith,
    lt-sub cum order.filled,
    apply_fill-Filled m now symbol p.side (sub cum order.filled) (fill_price order p),
  )

  -- Closing an order and counting a rejection leave positions alone.
  pub record Closed (m m' : Manager o) (p : ExecReportPayload) (order : OrderState o) : Type 0 where
    pub positions : m'.positions ≡ m.positions
    pub orders :
        m'.orders ≡ (if is_terminal p.state then delete m.orders p.client_order_id else m.orders)
    pub inflight :
        m'.inflight
        ≡ (if is_terminal p.state then (release_order m order.symbol).inflight else m.inflight)
    pub limits : m'.limits ≡ m.limits

  pub close-Closed :
      (m : Manager o) (now : Time) (p : ExecReportPayload) (order : OrderState o)
      → Closed m (count_rejection (close_order m p order) now p) p order
  unfolding close_order release_order
  close-Closed m now p order =
      ground (arith, count_rejection-SameBook (close_order m p order) now p)
