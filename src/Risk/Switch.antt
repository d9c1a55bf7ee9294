-- ===== src/Risk/Switch.antt =====
-- When the kill switch engages, and what the halt test answers at each time.
use meltica_gateway.Common.{
  ◌+◌, ◌<◌, Bool, true, false, ◌&&◌, ◌||◌, ◌≡◌, none, some, [], arith, if◌then◌else◌,
}
use Prim.Native.Nat.{compare, Ordering}
use meltica_gateway.Common.Int.{is_positive, pos_part}
use meltica_gateway.Schema.Order.{Time}
use meltica_gateway.Risk.Types.{
  Outside, RiskError, kill_switch_engaged, circuit_breaker_open, Manager,
}
use meltica_gateway.Risk.Breach.{record_risk_breach, ensure_trading_active, reached}

module _ {o : Outside} where
  -- The thresholds that one more breach would reach.
  abbrev pub trips : Manager o → Bool
  trips m =
      m.limits.kill_switch_enabled
      && (reached m.limits.max_risk_breaches (m.failure_count + 1)
          || (m.limits.circuit_breaker.enabled
              && reached m.limits.circuit_breaker.threshold (m.failure_count + 1)))

  -- Recording a breach counts it, and engages the kill switch exactly when the switch is enabled and
  -- the count reaches the breach threshold or that of an enabled circuit breaker; a switch that was
  -- engaged stays so. When it trips with a positive cooldown of an enabled breaker, the cooldown ends
  -- that long after the clock's reading, and else the cooldown's end is as before.
  pub record_risk_breach-trips :
      (m : Manager o) (now : Time) (e : RiskError)
      → let m' = (record_risk_breach m now e).1 in
        (m'.failure_count ≡ m.failure_count + 1)
        × (m'.kill_switch ≡ (m.kill_switch || trips m))
        × (m'.cooldown_until ≡ (
            if trips m
              && (m.limits.circuit_breaker.enabled && is_positive m.limits.circuit_breaker.cooldown)
            then now + pos_part m.limits.circuit_breaker.cooldown
            else m.cooldown_until))
  unfolding record_risk_breach
  record_risk_breach-trips m now e = ground arith

  -- The halt test on an engaged switch under an enabled breaker whose cooldown is set: trading
  -- resumes, with the switch and its reason cleared and nothing else changed, strictly after the
  -- cooldown's end; before it the breaker is reported open, and at that instant the switch engaged.
  pub ensure_trading_active-engaged :
      (m : Manager o) (now : Time)
      → m.kill_switch ≡ true
      → m.limits.circuit_breaker.enabled ≡ true
      → 0 < m.cooldown_until
      → ensure_trading_active m now ≡ elim (compare now m.cooldown_until) [
        | Ordering.lt ↦ (some circuit_breaker_open, m)
        | Ordering.eq ↦ (some kill_switch_engaged, m)
        | Ordering.gt ↦ (none, record m { kill_switch = false; kill_reason = [] })
      ]
  unfolding ensure_trading_active
  ensure_trading_active-engaged m now h k c = ground arith
