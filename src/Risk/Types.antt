-- ===== src/Risk/Types.antt =====
-- The limits and the state of the risk manager (risk.go: Limits, Manager, BreachError).
-- The rate limiter of golang.org/x/time/rate and the context that bounds its wait are parameters.
use meltica_gateway.Common.{ℕ, Bool, List, Option}
use meltica_gateway.Common.Text.{Text}
use meltica_gateway.Common.Map.{Map}
use meltica_gateway.Common.Int.{ℤ}
use meltica_gateway.Common.Decimal.{Decimal}
use meltica_gateway.Common.Float.{Float}
use meltica_gateway.Schema.Order.{TradeSide, Time}

-- What the manager takes from outside the repository.
pub record Outside : Type 1 where
  pub decimal : Decimal
  pub float : Float
  -- decimal.NewFromFloat
  pub new_from_float : float.F → decimal.Num
  pub Context : Type 0
  pub Limiter : Type 0
  -- rate.NewLimiter(rate.Limit(throttle), burst)
  pub new_limiter : float.F → ℕ → Limiter
  -- limiter.Wait(ctx): the limiter after the wait, and the text of the error, if any.
  pub wait : Limiter → Context → Limiter × Option Text

pub data BreachType : Type 0 where
  rate_limit order_type order_validation price_band position_limit : BreachType
  notional_limit concurrency kill_switch : BreachType

-- `cause` is the text of the wrapped error. The Details map, which only describes the breach to
-- the API, is left out.
pub record BreachError : Type 0 where
  pub kind : BreachType
  pub reason : Text
  pub kill_switch_engaged : Bool
  pub circuit_breaker_open : Bool
  pub cause : Option Text

-- The errors that the manager's operations return or record.
pub data RiskError : Type 0 where
  nil_order_request : RiskError
  kill_switch_engaged : RiskError
  circuit_breaker_open : RiskError
  breach : BreachError → RiskError
  plain : Text → RiskError

pub record CircuitBreaker : Type 0 where
  pub enabled : Bool
  pub threshold : ℤ
  pub cooldown : ℤ

pub record Limits (o : Outside) : Type 0 where
  pub max_position_size : o.decimal.Num
  pub max_notional_value : o.decimal.Num
  pub notional_currency : Text
  pub order_throttle : o.float.F
  pub order_burst : ℤ
  pub max_concurrent_orders : ℤ
  pub price_band_percent : o.float.F
  pub allowed_order_types : List Text
  pub kill_switch_enabled : Bool
  pub max_risk_breaches : ℤ
  pub circuit_breaker : CircuitBreaker

pub record OrderState (o : Outside) : Type 0 where
  pub symbol : Text
  pub side : TradeSide
  pub quantity : o.decimal.Num
  pub filled : o.decimal.Num
  pub limit_px : o.decimal.Num

pub record Manager (o : Outside) : Type 0 where
  pub limits : Limits o
  pub limiter : o.Limiter
  pub symbol_limiter : Map Text o.Limiter
  pub positions : Map Text o.decimal.Num
  pub notionals : Map Text o.decimal.Num
  pub market_prices : Map Text o.decimal.Num
  pub orders : Map Text (OrderState o)
  pub inflight : Map Text ℕ
  pub allowed_types : Map Text (Unit {0})
  pub failure_count : ℕ
  pub kill_switch : Bool
  pub kill_reason : Text
  pub cooldown_until : Time
