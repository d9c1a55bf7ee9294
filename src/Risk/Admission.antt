-- ===== src/Risk/Admission.antt =====
-- CheckOrder as a whole: what an accepted order satisfies, and that a refusal books nothing.
use meltica_gateway.Common.{
  ◌+◌, ◌<◌, true, false, ◌||◌, ◌≡◌, refl, ◌⊎◌, Option, none, some, is_some, is_nil, or_else, arith,
}
use meltica_gateway.Common.Text.{to_lower, text_eq}
use meltica_gateway.Common.Map.{get, put}
use meltica_gateway.Common.Int.{is_positive, pos_part}
use meltica_gateway.Common.Exec.{Result, ok, err, Ensures}
use meltica_gateway.Schema.Order.{OrderRequest, Time}
use meltica_gateway.Risk.Types.{Outside, RiskError, OrderState, Manager}
use meltica_gateway.Risk.Breach.{ensure_trading_active}
use meltica_gateway.Risk.Fills.{exceeds}
use meltica_gateway.Risk.Check.{
  projected, conclude, check_active, check_locked, throttle, check_throttled, check_order,
}
use meltica_gateway.Risk.Frame.{record_risk_breach-SameBook, ensure_trading_active-SameBook}
use meltica_gateway.Risk.Acceptance.{SamePriced, Passed, evaluate-Ensures}

module _ {o : Outside} where
  open o use {decimal, Context}
  open o.decimal use {nil, abs, mul, lt, parse}

  -- An accepted order against the state before the call, `m`, and after it, `m'`.
  pub record Admitted (m m' : Manager o) (req : OrderRequest) (order : OrderState o) : Type 0 where
    pub allowed :
        (is_nil m.allowed_types || is_some (get m.allowed_types (to_lower req.order_type))) ≡ true
    pub quantity : parse req.quantity ≡ some order.quantity
    pub positive : lt nil order.quantity ≡ true
    pub within_position :
        exceeds decimal m.limits.max_position_size (abs (projected m req order.quantity)) ≡ false
    pub within_notional :
        exceeds decimal m.limits.max_notional_value
          (mul (abs (projected m req order.quantity)) order.limit_px)
        ≡ false
    pub slot_free :
        (is_positive m.limits.max_concurrent_orders ≡ false)
        ⊎ (or_else (get m.inflight req.symbol) 0 < pos_part m.limits.max_concurrent_orders)
    pub slot_taken :
        m'.inflight ≡ put m.inflight req.symbol (or_else (get m.inflight req.symbol) 0 + 1)
    pub unfilled : order.filled ≡ nil
    pub symbol : order.symbol ≡ req.symbol
    pub side : order.side ≡ req.side
    pub stored : m'.orders ≡ put m.orders req.client_order_id order
    pub same_positions : m'.positions ≡ m.positions
    pub same_limits : m'.limits ≡ m.limits
    pub active : m'.kill_switch ≡ false

  -- What a refusal leaves alone: the orders, the positions, the slots and the limits.
  pub record SameDesk (m m' : Manager o) : Type 0 where
    pub orders : m'.orders ≡ m.orders
    pub positions : m'.positions ≡ m.positions
    pub notionals : m'.notionals ≡ m.notionals
    pub inflight : m'.inflight ≡ m.inflight
    pub limits : m'.limits ≡ m.limits
    pub allowed_types : m'.allowed_types ≡ m.allowed_types

  -- A call's result, in both cases.
  pub record Outcome (m : Manager o) (req : OrderRequest) (r : Option RiskError × Manager o)
      : Type 0 where
    pub accepted : r.0 ≡ none → (order : OrderState o) × Admitted m r.1 req order
    pub refused : (e : RiskError) → r.0 ≡ some e → SameDesk m r.1

  throttle-SameDesk :
      (ctx : Context) (req : OrderRequest) (m : Manager o) → SameDesk m (throttle ctx req m).1
  unfolding throttle
  throttle-SameDesk ctx req m = ground arith

  ensure_trading_active-active :
      (m : Manager o) (now : Time)
      → (ensure_trading_active m now).0 ≡ none
      → (ensure_trading_active m now).1.kill_switch ≡ false
  unfolding ensure_trading_active
  ensure_trading_active-active m now h = ground arith

  -- Both outcomes of the locked part, for the manager `m1` that passed the halt test.
  conclude-Outcome :
      (m1 : Manager o) (now : Time) (req : OrderRequest)
      (r : Result RiskError (OrderState o) × Manager o)
      → m1.kill_switch ≡ false
      → Ensures (λ order m'. Passed m1 m' req order) (λ _ m'. SamePriced m1 m') r
      → Outcome m1 req (conclude now req r)
  unfolding conclude
  conclude-Outcome m1 now req (ok order, m2) live s = record {
    accepted = λ e. (order, ground (arith, s.on_ok order m2 refl));
    refused = λ x e. cc;
  }
  conclude-Outcome m1 now req (err e, m2) live s = record {
    accepted = λ e. cc;
    refused = λ x h. ground (arith, s.on_err e m2 refl, record_risk_breach-SameBook m2 now e);
  }

  rebase :
      {a b : Manager o} (req : OrderRequest) (r : Option RiskError × Manager o)
      → SameDesk a b
      → Outcome b req r
      → Outcome a req r
  rebase req r d out = record {
    accepted = λ e. let (order, w) = out.accepted e in (order, ground arith);
    refused = λ x e. let w = out.refused x e in ground arith;
  }

  check_active-Outcome :
      (m : Manager o) (now : Time) (req : OrderRequest) (r : Option RiskError × Manager o)
      → SameDesk m r.1
      → (r.0 ≡ none → r.1.kill_switch ≡ false)
      → Outcome m req (check_active now req r)
  unfolding check_active
  check_active-Outcome m now req (none, m1) d live =
      rebase req _ d (conclude-Outcome m1 now req _ (live refl) (evaluate-Ensures req m1))
  check_active-Outcome m now req (some e, m1) d live = record {
    accepted = λ h. cc;
    refused = λ x h. d;
  }

  check_locked-Outcome :
      (m : Manager o) (now : Time) (req : OrderRequest) → Outcome m req (check_locked m now req)
  unfolding check_locked
  check_locked-Outcome m now req =
      check_active-Outcome m now req (ensure_trading_active m now)
        (ground (arith, ensure_trading_active-SameBook m now)) (ensure_trading_active-active m now)

  check_throttled-Outcome :
      (m : Manager o) (now : Time) (req : OrderRequest)
      (r : Result RiskError (Unit {0}) × Manager o)
      → SameDesk m r.1
      → Outcome m req (check_throttled now req r)
  unfolding check_throttled
  check_throttled-Outcome m now req (ok u, m1) d = rebase req _ d (check_locked-Outcome m1 now req)
  check_throttled-Outcome m now req (err e, m1) d = record {
    accepted = λ h. cc;
    refused = λ x h. d;
  }

  check_order-Outcome :
      (m : Manager o) (ctx : Context) (now : Time) (req : OrderRequest)
      → Outcome m req (check_order m ctx now (some req))
  unfolding check_order
  check_order-Outcome m ctx now req =
      check_throttled-Outcome m now req (throttle ctx req m) (throttle-SameDesk ctx req m)

  pub check_order-Admitted :
      (m : Manager o) (ctx : Context) (now : Time) (req : OrderRequest)
      → (check_order m ctx now (some req)).0 ≡ none
      → (order : OrderState o) × Admitted m (check_order m ctx now (some req)).1 req order
  check_order-Admitted m ctx now req = (check_order-Outcome m ctx now req).accepted

  -- When CheckOrder returns an error, whichever check refused, no order, position, notional or slot
  -- has changed, nor have the limits and the allowed types.
  pub check_order-refused :
      (m : Manager o) (ctx : Context) (now : Time) (req : Option OrderRequest) (e : RiskError)
      → (check_order m ctx now req).0 ≡ some e
      → SameDesk m (check_order m ctx now req).1
  unfolding check_order
  check_order-refused m ctx now none e h = ground arith
  check_order-refused m ctx now (some req) e h = (check_order-Outcome m ctx now req).refused e h
