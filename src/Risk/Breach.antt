-- ===== src/Risk/Breach.antt =====
-- Breaches and the kill switch (risk.go: newBreachError, Error, engageKillSwitchLocked,
-- recordRiskBreachLocked, ensureTradingActiveLocked). `now` is the clock that a handler reads.
use meltica_gateway.Common.{
  ℕ, ◌+◌, Bool, true, false, ◌&&◌, not, Option, none, some, ◌++◌, ltb, leb, nat_eq, if◌then◌else◌,
}
use meltica_gateway.Common.Text.{Text, codes}
use meltica_gateway.Common.Int.{ℤ, is_positive, pos_part}
use meltica_gateway.Schema.Order.{Time}
use meltica_gateway.Risk.Types.{
  Outside, BreachType, RiskError, nil_order_request, kill_switch_engaged, circuit_breaker_open,
  breach, plain, Manager,
}

-- newBreachError
unfoldable pub new_breach : BreachType → Text → Option Text → RiskError
new_breach t reason cause = breach (record {
  kind = t;
  reason = reason;
  kill_switch_engaged = false;
  circuit_breaker_open = false;
  cause = cause;
})

breach_text : Text → Option Text → Text
breach_text reason none = reason
breach_text reason (some cause) = reason ++ codes ": " ++ cause

-- err.Error()
unfoldable pub error_text : RiskError → Text
unfolding breach_text
error_text nil_order_request = codes "nil order request"
error_text kill_switch_engaged = codes "risk: kill switch engaged"
error_text circuit_breaker_open = codes "risk: circuit breaker open"
error_text (breach b) = breach_text b.reason b.cause
error_text (plain t) = t

-- A positive limit that the count has reached.
abbrev pub reached : ℤ → ℕ → Bool
reached limit count = is_positive limit && leb (pos_part limit) count

module _ {o : Outside} where
  -- engageKillSwitchLocked
  unfoldable pub engage_kill_switch : Manager o → Time → Text → Manager o
  engage_kill_switch m now reason =
      if m.limits.kill_switch_enabled
      then record m {
        kill_switch = true;
        kill_reason = reason;
        cooldown_until =
            if m.limits.circuit_breaker.enabled && is_positive m.limits.circuit_breaker.cooldown
            then now + pos_part m.limits.circuit_breaker.cooldown
            else m.cooldown_until;
      }
      else m

  -- The flags that a recorded breach carries to the caller.
  unfoldable pub flag_breach : Manager o → Time → RiskError → RiskError
  flag_breach m now (breach b) = breach (record b {
    kill_switch_engaged = m.kill_switch;
    circuit_breaker_open =
        if m.limits.circuit_breaker.enabled && not (nat_eq m.cooldown_until 0)
        then m.kill_switch && ltb now m.cooldown_until
        else b.circuit_breaker_open;
  })
  flag_breach m now e = e

  -- The two thresholds of recordRiskBreachLocked.
  unfoldable pub trip_breaches : Manager o → Time → Text → Manager o
  unfolding engage_kill_switch
  trip_breaches m now reason =
      if m.limits.kill_switch_enabled && reached m.limits.max_risk_breaches m.failure_count
      then engage_kill_switch m now (codes "risk breach threshold reached: " ++ reason)
      else m

  unfoldable pub trip_breaker : Manager o → Time → Text → Manager o
  unfolding engage_kill_switch
  trip_breaker m now reason =
      if m.limits.circuit_breaker.enabled
        && reached m.limits.circuit_breaker.threshold m.failure_count
      then engage_kill_switch m now (codes "circuit breaker threshold reached: " ++ reason)
      else m

  -- recordRiskBreachLocked, for an error that is not nil
  unfoldable pub record_risk_breach : Manager o → Time → RiskError → RiskError × Manager o
  unfolding trip_breaches trip_breaker
  record_risk_breach m now e =
      let counted = record m { failure_count = m.failure_count + 1 } in
      let tripped = trip_breaker (trip_breaches counted now (error_text e)) now (error_text e) in
      (flag_breach tripped now e, tripped)

  -- ensureTradingActiveLocked: `some` is the refusal.
  unfoldable pub ensure_trading_active : Manager o → Time → Option RiskError × Manager o
  ensure_trading_active m now =
      let cooled =
        m.kill_switch
        && m.limits.circuit_breaker.enabled
        && not (nat_eq m.cooldown_until 0)
        && ltb m.cooldown_until now in
      if cooled
      then (none, record m { kill_switch = false; kill_reason = codes "" })
      else if m.kill_switch
      then (
        some (
            if m.limits.circuit_breaker.enabled && ltb now m.cooldown_until
            then circuit_breaker_open
            else kill_switch_engaged),
        m,
      )
      else (none, m)
