-- ===== src/Risk/Halt.antt =====
-- The kill switch over whole histories: it holds until it is reset, and never engages where it is
-- disabled.
use meltica_gateway.Common.{
  Bool, true, false, ◌&&◌, not, ◌≡◌, ◌≢◌, refl, Option, none, some, List, [], ◌∷◌, All, arith,
  option-both,
}
use meltica_gateway.Common.Text.{Text, text_eq}
use meltica_gateway.Common.Map.{get}
use meltica_gateway.Common.Exec.{Result, ok, err, Ensures}
use meltica_gateway.Schema.Order.{OrderRequest, ExecReportPayload, TradeSide, Time}
use meltica_gateway.Risk.Types.{Outside, RiskError, plain, OrderState, Manager}
use meltica_gateway.Risk.Breach.{record_risk_breach, engage_kill_switch, ensure_trading_active}
use meltica_gateway.Risk.Fills.{
  apply_fill, move_position, halt_if, halt_over, fill_price, reject_reason, position,
  signed_quantity, book_fill, release_order, close_order, count_rejection, settle, handle_execution,
}
use meltica_gateway.Risk.Check.{
  conclude, check_active, check_locked, throttle, check_throttled, check_order,
}
use meltica_gateway.Risk.Handlers.{
  Call, checks, executes, observes, resets, updates, observe_market_price, step, run,
}
use meltica_gateway.Risk.Frame.{record_risk_breach-SameBook}
use meltica_gateway.Risk.Switch.{record_risk_breach-trips}
use meltica_gateway.Risk.Acceptance.{SamePriced, Passed, evaluate-Ensures}
use meltica_gateway.Risk.Admission.{check_order-Admitted}

-- A call that neither resets the switch nor replaces the limits.
abbrev pub is_trading : {o : Outside} → Call o → Bool
is_trading resets = false
is_trading (updates l) = false
is_trading _ = true

module _ {o : Outside} where
  -- From `m` to `m'` the limits stay, an engaged switch is not released but by a circuit breaker, and
  -- a disabled one does not engage.
  record Onward (m m' : Manager o) : Type 0 where
    limits : m'.limits ≡ m.limits
    held : (m.kill_switch && (not m.limits.circuit_breaker.enabled && not m'.kill_switch)) ≡ false
    unarmed : (m'.kill_switch && (not m.limits.kill_switch_enabled && not m.kill_switch)) ≡ false

  Onward-refl : (m : Manager o) → Onward m m
  Onward-refl m = ground arith

  Onward-trans : {a b c : Manager o} → Onward a b → Onward b c → Onward a c
  Onward-trans p q = ground arith

  record_risk_breach-Onward :
      (m : Manager o) (now : Time) (e : RiskError) → Onward m (record_risk_breach m now e).1
  record_risk_breach-Onward m now e =
      ground (arith, record_risk_breach-trips m now e, record_risk_breach-SameBook m now e)

  engage-Onward : (m : Manager o) (now : Time) (r : Text) → Onward m (engage_kill_switch m now r)
  unfolding engage_kill_switch
  engage-Onward m now r = ground arith

  halt_if-Onward :
      (b : Bool) (e : RiskError) (now : Time) (m : Manager o) → Onward m (halt_if b e now m)
  unfolding halt_if
  halt_if-Onward true e now m =
      Onward-trans (record_risk_breach-Onward m now e) (engage-Onward _ now _)
  halt_if-Onward false e now m = ground arith

  halt_over-Onward :
      (m : Manager o) (now : Time) (pos notional : o.decimal.Num)
      → Onward m (halt_over m now pos notional)
  unfolding halt_over
  halt_over-Onward m now pos notional =
      Onward-trans (halt_if-Onward _ _ now m) (halt_if-Onward _ _ now _)

  module _ (m : Manager o) (now : Time) where
    apply_fill-Onward :
        (symbol : Text) (side : TradeSide) (qty price : o.decimal.Num)
        → Onward m (apply_fill m now symbol side qty price)
    unfolding apply_fill move_position
    apply_fill-Onward symbol side qty price =
        ground (arith, halt_over-Onward (move_position m symbol side qty price) now pos notional)
      where
        pos : o.decimal.Num
        pos = o.decimal.add (position m symbol) (signed_quantity o.decimal side qty)

        notional : o.decimal.Num
        notional = o.decimal.mul (o.decimal.abs pos) price

    book_fill-Onward :
        (symbol : Text) (p : ExecReportPayload) (order : OrderState o) (cum : o.decimal.Num)
        → Onward m (book_fill m now symbol p order cum)
    unfolding book_fill
    book_fill-Onward symbol p order cum = ground (
      arith,
      apply_fill-Onward symbol p.side (o.decimal.sub cum order.filled) (fill_price order p),
    )

    close_order-Onward :
        (p : ExecReportPayload) (order : OrderState o) → Onward m (close_order m p order)
    unfolding close_order release_order
    close_order-Onward p order = ground arith

    count_rejection-Onward : (p : ExecReportPayload) → Onward m (count_rejection m now p)
    unfolding count_rejection
    count_rejection-Onward p =
        ground (arith, record_risk_breach-Onward m now (plain (reject_reason p.reject_reason)))

    ensure_trading_active-Onward : Onward m (ensure_trading_active m now).1
    unfolding ensure_trading_active
    ensure_trading_active-Onward = ground arith

  settle-Onward :
      (m : Manager o) (now : Time) (symbol : Text) (p : ExecReportPayload) (order : OrderState o)
      (parsed : o.decimal.Num)
      → Onward m (settle m now symbol p order parsed)
  unfolding settle
  settle-Onward m now symbol p order parsed =
      Onward-trans
        (Onward-trans (book_fill-Onward m now symbol p order _) (close_order-Onward _ now p order))
        (count_rejection-Onward _ now p)

  handle_execution-Onward :
      (m : Manager o) (now : Time) (symbol : Text) (p : ExecReportPayload)
      → Onward m (handle_execution m now symbol p)
  unfolding handle_execution
  handle_execution-Onward m now symbol p =
      option-both (Onward m) (get m.orders p.client_order_id) (λ _. Onward-refl m)
        λ order _.
          option-both (Onward m) (o.decimal.parse p.filled_quantity) (λ _. Onward-refl m)
            λ parsed _. settle-Onward m now symbol p order parsed

  conclude-Onward :
      (m m1 : Manager o) (now : Time) (req : OrderRequest)
      (r : Result RiskError (OrderState o) × Manager o)
      → Onward m m1
      → Ensures (λ order m'. Passed m1 m' req order) (λ _ m'. SamePriced m1 m') r
      → Onward m (conclude now req r).1
  unfolding conclude
  conclude-Onward m m1 now req (ok order, m2) w s = ground (arith, s.on_ok order m2 refl)
  conclude-Onward m m1 now req (err e, m2) w s =
      Onward-trans (ground (arith, s.on_err e m2 refl)) (record_risk_breach-Onward m2 now e)

  check_active-Onward :
      (m : Manager o) (now : Time) (req : OrderRequest) (r : Option RiskError × Manager o)
      → Onward m r.1
      → Onward m (check_active now req r).1
  unfolding check_active
  check_active-Onward m now req (none, m1) w =
      conclude-Onward m m1 now req _ w (evaluate-Ensures req m1)
  check_active-Onward m now req (some e, m1) w = w

  check_throttled-Onward :
      (m : Manager o) (now : Time) (req : OrderRequest)
      (r : Result RiskError (Unit {0}) × Manager o)
      → Onward m r.1
      → Onward m (check_throttled now req r).1
  unfolding check_throttled check_locked
  check_throttled-Onward m now req (ok u, m1) w =
      check_active-Onward m now req _ (Onward-trans w (ensure_trading_active-Onward m1 now))
  check_throttled-Onward m now req (err e, m1) w = w

  throttle-Onward :
      (ctx : o.Context) (req : OrderRequest) (m : Manager o) → Onward m (throttle ctx req m).1
  unfolding throttle
  throttle-Onward ctx req m = ground arith

  check_order-Onward :
      (m : Manager o) (ctx : o.Context) (now : Time) (req : Option OrderRequest)
      → Onward m (check_order m ctx now req).1
  unfolding check_order
  check_order-Onward m ctx now none = Onward-refl m
  check_order-Onward m ctx now (some req) =
      check_throttled-Onward m now req _ (throttle-Onward ctx req m)

  step-Onward : (m : Manager o) (c : Call o) → is_trading c ≡ true → Onward m (step m c)
  unfolding step observe_market_price
  step-Onward m (checks ctx now req) t = check_order-Onward m ctx now req
  step-Onward m (executes now symbol p) t = handle_execution-Onward m now symbol p
  step-Onward m (observes symbol price) t = ground arith
  step-Onward m resets t = cc
  step-Onward m (updates l) t = cc

  run-Onward :
      (m : Manager o) (cs : List (Call o)) → All (λ c. is_trading c ≡ true) cs → Onward m (run m cs)
  unfolding run
  run-Onward m [] t = Onward-refl m
  run-Onward m (c ∷ cs) t = Onward-trans (step-Onward m c t.0) (run-Onward (step m c) cs t.1)

  -- Without a circuit breaker an engaged kill switch halts trading for good: after any history of
  -- checks, execution reports and price observations it is still engaged under the same limits, and
  -- no order request is accepted. Only a reset or new limits can end the halt.
  pub run_halted :
      (m : Manager o) (cs : List (Call o))
      → m.kill_switch ≡ true
      → m.limits.circuit_breaker.enabled ≡ false
      → All (λ c. is_trading c ≡ true) cs
      → ((run m cs).kill_switch ≡ true)
        × ((run m cs).limits ≡ m.limits)
        × ((ctx : o.Context) (now : Time) (req : OrderRequest)
            → (check_order (run m cs) ctx now (some req)).0 ≢ none)
  run_halted m cs k b t = (held, (run-Onward m cs t).limits, refuses)
    where
      held : (run m cs).kill_switch ≡ true
      held = ground (arith, run-Onward m cs t)

      refuses :
          (ctx : o.Context) (now : Time) (req : OrderRequest)
          → (check_order (run m cs) ctx now (some req)).0 ≢ none
      refuses ctx now req e =
          let (order, w) = check_order-Admitted (run m cs) ctx now req e in
          ground (
            arith,
            w.active,
            held,
            run-Onward m cs t,
            check_order-Onward (run m cs) ctx now (some req),
          )

  -- Where the limits do not enable the kill switch it never engages, whatever the history of checks,
  -- execution reports and price observations: neither the breach threshold nor an enabled circuit
  -- breaker, nor a fill that exceeds the limits, halts trading.
  pub run_unarmed :
      (m : Manager o) (cs : List (Call o))
      → m.kill_switch ≡ false
      → m.limits.kill_switch_enabled ≡ false
      → All (λ c. is_trading c ≡ true) cs
      → (run m cs).kill_switch ≡ false
  run_unarmed m cs k b t = ground (arith, run-Onward m cs t)
