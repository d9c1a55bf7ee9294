-- ===== src/Risk/Frame.antt =====
-- What an operation leaves alone: recording a breach and the trading-active test touch only the
-- halt state, and a fill touches neither orders nor slots.
use meltica_gateway.Common.{Bool, true, false, ◌≡◌, arith}
use meltica_gateway.Common.Text.{Text}
use meltica_gateway.Schema.Order.{ExecReportPayload, Time}
use meltica_gateway.Risk.Types.{Outside, RiskError, plain, Manager}
use meltica_gateway.Risk.Breach.{record_risk_breach, ensure_trading_active, engage_kill_switch}
use meltica_gateway.Risk.Fills.{halt_if, halt_over, count_rejection, reject_reason}

-- Everything but the halt state is as before.
pub record SameBook {o : Outside} (m m' : Manager o) : Type 0 where
  pub limits : m'.limits ≡ m.limits
  pub limiter : m'.limiter ≡ m.limiter
  pub symbol_limiter : m'.symbol_limiter ≡ m.symbol_limiter
  pub positions : m'.positions ≡ m.positions
  pub notionals : m'.notionals ≡ m.notionals
  pub market_prices : m'.market_prices ≡ m.market_prices
  pub orders : m'.orders ≡ m.orders
  pub inflight : m'.inflight ≡ m.inflight
  pub allowed_types : m'.allowed_types ≡ m.allowed_types

module _ {o : Outside} where
  SameBook-refl : (m : Manager o) → SameBook m m
  SameBook-refl m = ground arith

  pub SameBook-trans : {a b c : Manager o} → SameBook a b → SameBook b c → SameBook a c
  SameBook-trans p q = ground arith

  pub record_risk_breach-SameBook :
      (m : Manager o) (now : Time) (e : RiskError) → SameBook m (record_risk_breach m now e).1
  unfolding record_risk_breach
  record_risk_breach-SameBook m now e = ground arith

  pub ensure_trading_active-SameBook :
      (m : Manager o) (now : Time) → SameBook m (ensure_trading_active m now).1
  unfolding ensure_trading_active
  ensure_trading_active-SameBook m now = ground arith

  engage-SameBook :
      (m : Manager o) (now : Time) (r : Text) → SameBook m (engage_kill_switch m now r)
  unfolding engage_kill_switch
  engage-SameBook m now r = ground arith

  halt_if-SameBook :
      (b : Bool) (e : RiskError) (now : Time) (m : Manager o) → SameBook m (halt_if b e now m)
  unfolding halt_if
  halt_if-SameBook true e now m =
      SameBook-trans (record_risk_breach-SameBook m now e) (engage-SameBook _ now _)
  halt_if-SameBook false e now m = ground arith

  pub halt_over-SameBook :
      (m : Manager o) (now : Time) (pos notional : o.decimal.Num)
      → SameBook m (halt_over m now pos notional)
  unfolding halt_over
  halt_over-SameBook m now pos notional =
      SameBook-trans (halt_if-SameBook _ _ now m) (halt_if-SameBook _ _ now _)

  pub count_rejection-SameBook :
      (m : Manager o) (now : Time) (p : ExecReportPayload) → SameBook m (count_rejection m now p)
  unfolding count_rejection
  count_rejection-SameBook m now p =
      ground (arith, record_risk_breach-SameBook m now (plain (reject_reason p.reject_reason)))
