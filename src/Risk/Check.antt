-- ===== src/Risk/Check.antt =====
-- CheckOrder and the guards it runs (risk.go: CheckOrder, symbolLimiterFor, enforceOrderTypeLocked,
-- resolveOrderPriceLocked, validatePriceBandLocked, enforceConcurrencyLocked).
use meltica_gateway.Common.{
  ℕ, ◌+◌, Bool, false, ◌&&◌, ◌||◌, not, Option, none, some, is_some, is_nil, ◌++◌, or_else, leb,
  if◌then◌else◌,
}
use meltica_gateway.Common.Text.{Text, codes, to_lower, text_beq, text_eq}
use meltica_gateway.Common.Map.{get, put}
use meltica_gateway.Common.Int.{is_positive, pos_part}
use meltica_gateway.Common.Decimal.{Decimal, gt, le}
use meltica_gateway.Common.Exec.{Exec, Result, ok, err, ◌>>=◌, ◌>>◌, pure, raise, gets, refuse}
use meltica_gateway.Schema.Order.{OrderRequest, Time}
use meltica_gateway.Risk.Types.{
  Outside, rate_limit, order_type, order_validation, price_band, position_limit, notional_limit,
  concurrency, RiskError, nil_order_request, Limits, OrderState, Manager,
}
use meltica_gateway.Risk.Breach.{new_breach, record_risk_breach, ensure_trading_active}
use meltica_gateway.Risk.Fills.{signed_quantity, position, exceeds}

abbrev pub Locked : Outside → Type 0 → Type 0
Locked o A = Exec (Manager o) RiskError A

-- A reference price that is known and positive.
unfoldable pub usable : (d : Decimal) → Option d.Num → Bool
usable d none = false
usable d (some p) = gt d p d.nil

abbrev pub order_type_limit : Text
order_type_limit = codes "Limit"

abbrev pub limiter_key : OrderRequest → Text
limiter_key req = req.provider ++ codes "::" ++ req.symbol

module _ {o : Outside} where
  open o use {decimal, float, new_from_float, Context, Limiter, new_limiter, wait}
  open o.decimal use {Num, nil, add, sub, mul, abs, lt, parse, parse_error}
  open o.float use {F, fzero, fone, hundred, fadd, fsub, fdiv, flt, fle}

  -- enforceOrderTypeLocked
  unfoldable pub enforce_order_type : Text → Locked o (Unit {0})
  enforce_order_type t m =
      refuse (not (is_nil m.allowed_types || is_some (get m.allowed_types (to_lower t))))
        (new_breach order_type (codes "order type " ++ t ++ codes " not allowed") none) m

  -- decimal.NewFromString with the breach that wraps its error
  unfoldable pub parse_or : Text → Text → Locked o Num
  parse_or reason text = elim (parse text) [
    | none ↦ raise (new_breach order_validation reason (some (parse_error text)))
    | some n ↦ pure n
  ]

  unfoldable pub order_quantity : OrderRequest → Locked o Num
  unfolding parse_or
  order_quantity req = do
    quantity ← parse_or (codes "invalid order quantity") req.quantity
    refuse (le decimal quantity nil)
        (new_breach order_validation (codes "invalid order quantity") none)
    pure quantity

  -- decimal.NewFromFloat(1 + percent/100) and its counterpart
  unfoldable pub band_upper : Manager o → Num → Num
  band_upper m reference =
      mul reference (new_from_float (fadd fone (fdiv m.limits.price_band_percent hundred)))

  unfoldable pub band_lower : Manager o → Num → Num
  band_lower m reference =
      mul reference (new_from_float (fsub fone (fdiv m.limits.price_band_percent hundred)))

  -- validatePriceBandLocked
  unfoldable pub validate_price_band : Text → Num → Locked o Num
  unfolding usable band_upper band_lower
  validate_price_band symbol price m =
      if fle m.limits.price_band_percent fzero
      then (ok price, m)
      else if usable decimal (get m.market_prices symbol)
      then (let reference = or_else (get m.market_prices symbol) nil in
          if gt decimal price (band_upper m reference) || lt price (band_lower m reference)
          then (err (new_breach price_band (codes "price outside allowable band") none), m)
          else (ok price, m))
      else (ok price, record m { market_prices = put m.market_prices symbol price })

  market_price : OrderRequest → Locked o Num
  market_price req m = elim (get m.market_prices req.symbol) [
    | none ↦ (err (new_breach order_validation (codes "market price unavailable") none), m)
    | some market ↦
        if le decimal market nil
        then (err (new_breach order_validation (codes "market price unavailable") none), m)
        else (ok market, m)
  ]

  -- The price that the band is checked on.
  unfoldable pub quoted_price : OrderRequest → Locked o Num
  unfolding parse_or market_price
  quoted_price req =
      if text_beq req.order_type order_type_limit
      then elim req.price [
        | none ↦ raise (new_breach order_validation (codes "limit order requires price") none)
        | some p ↦ parse_or (codes "invalid limit price") p
      ]
      else elim req.price [ none ↦ market_price req | some p ↦ parse_or (codes "invalid price") p ]

  -- resolveOrderPriceLocked
  unfoldable pub resolve_order_price : OrderRequest → Locked o Num
  unfolding quoted_price
  resolve_order_price req = do price ← quoted_price req; validate_price_band req.symbol price

  -- enforceConcurrencyLocked
  unfoldable pub enforce_concurrency : Text → Locked o (Unit {0})
  enforce_concurrency symbol m =
      let current = or_else (get m.inflight symbol) 0 in
      if is_positive m.limits.max_concurrent_orders
        && leb (pos_part m.limits.max_concurrent_orders) current
      then (err (new_breach concurrency (codes "max concurrent orders exceeded") none), m)
      else (ok tt, record m { inflight = put m.inflight symbol (current + 1) })

  -- The position that the order would lead to.
  abbrev pub projected : Manager o → OrderRequest → Num → Num
  projected m req quantity = add (position m req.symbol) (signed_quantity decimal req.side quantity)

  -- The limits on the position that the order would lead to, and the order to store.
  unfoldable pub check_limits : OrderRequest → Num → Num → Locked o (OrderState o)
  check_limits req quantity price = do
    pos ← gets (λ m. projected m req quantity)
    limits ← gets (λ m. m.limits)
    refuse (exceeds decimal limits.max_position_size (abs pos))
        (new_breach position_limit (codes "projected position exceeds maximum") none)
    refuse (exceeds decimal limits.max_notional_value (mul (abs pos) price))
        (new_breach notional_limit (codes "projected notional exceeds maximum") none)
    enforce_concurrency req.symbol
    pure (record {
      symbol = req.symbol;
      side = req.side;
      quantity = quantity;
      filled = nil;
      limit_px = price;
    })

  -- The checks of CheckOrder between ensureTradingActiveLocked and the write to m.orders.
  unfoldable pub evaluate : OrderRequest → Locked o (OrderState o)
  evaluate req = do
    enforce_order_type req.order_type
    quantity ← order_quantity req
    price ← resolve_order_price req
    check_limits req quantity price

  -- An evaluation's error is recorded as a breach; its order is stored under the client's id.
  unfoldable pub conclude :
      Time
      → OrderRequest
      → Result RiskError (OrderState o) × Manager o
      → Option RiskError × Manager o
  conclude now req (err e, m) = let (e', m') = record_risk_breach m now e in (some e', m')
  conclude now req (ok order, m) =
      (none, record m { orders = put m.orders req.client_order_id order })

  -- What follows the halt test.
  unfoldable pub check_active :
      Time → OrderRequest → Option RiskError × Manager o → Option RiskError × Manager o
  unfolding conclude
  check_active now req (some e, m) = (some e, m)
  check_active now req (none, m) = conclude now req (evaluate req m)

  -- CheckOrder once it holds the lock.
  unfoldable pub check_locked : Manager o → Time → OrderRequest → Option RiskError × Manager o
  unfolding check_active
  check_locked m now req = check_active now req (ensure_trading_active m now)

  -- max(burst, 1)
  abbrev pub burst_of : Limits o → ℕ
  burst_of l = if is_positive l.order_burst then pos_part l.order_burst else 1

  abbrev pub fresh_limiter : Limits o → Limiter
  fresh_limiter l = new_limiter l.order_throttle (burst_of l)

  -- symbolLimiterFor: the limiter of the key; the wait that follows writes it to the map.
  unfoldable pub symbol_limiter_for : Manager o → Text → Limiter
  symbol_limiter_for m key = or_else (get m.symbol_limiter key) (fresh_limiter m.limits)

  unfoldable pub throttle : Context → OrderRequest → Locked o (Unit {0})
  unfolding symbol_limiter_for
  throttle ctx req m =
      let (limiter', failed) = wait m.limiter ctx in
      let m1 = record m { limiter = limiter' } in
      elim failed [
        | some e ↦
            (err (new_breach rate_limit (codes "order throttle limit exceeded") (some e)), m1)
        | none ↦
            let (sym', failed') = wait (symbol_limiter_for m1 (limiter_key req)) ctx in
            let m2 = record m1 { symbol_limiter = put m1.symbol_limiter (limiter_key req) sym' } in
            elim failed' [
              | some e ↦ (
                err (new_breach rate_limit (codes "symbol throttle limit exceeded") (some e)),
                m2,
              )
              | none ↦ (ok tt, m2)
            ]
      ]

  unfoldable pub check_throttled :
      Time → OrderRequest → Result RiskError (Unit {0}) × Manager o → Option RiskError × Manager o
  check_throttled now req (err e, m) = (some e, m)
  check_throttled now req (ok _, m) = check_locked m now req

  -- CheckOrder. `now` is the clock at the lock; `none` in the result is a nil error.
  unfoldable pub check_order :
      Manager o → Context → Time → Option OrderRequest → Option RiskError × Manager o
  unfolding check_throttled
  check_order m ctx now none = (some nil_order_request, m)
  check_order m ctx now (some req) = check_throttled now req (throttle ctx req m)
