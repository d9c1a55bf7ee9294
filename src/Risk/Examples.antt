-- ===== src/Risk/Examples.antt =====
-- Runs of the risk manager and the theorems at concrete states: a limit of 10 on positions, of 1000
-- on notionals and of 2 on concurrent orders, with a kill switch that trips at the third breach.
use meltica_gateway.Common.{ℕ, ◌+◌, true, false, ◌≡◌, ◌≢◌, refl, none, some, List, [], ◌∷◌, arith}
use meltica_gateway.Common.Text.{Text, codes, text_beq, to_lower, text_eq}
use meltica_gateway.Common.Map.{get, put}
use meltica_gateway.Common.Int.{pos}
use meltica_gateway.Common.Sample.{sample_decimal, sample_float}
use meltica_gateway.Schema.Order.{
  OrderRequest, buy, ExecReportPayload, partial, cancelled, ExecReportState,
}
use meltica_gateway.Risk.Types.{
  Outside, RiskError, Limits, OrderState, Manager, breach, position_limit,
}
use meltica_gateway.Risk.Breach.{record_risk_breach, ensure_trading_active, new_breach, flag_breach}
use meltica_gateway.Risk.Fills.{position, signed_quantity, is_terminal}
use meltica_gateway.Risk.Check.{
  check_order, throttle, check_throttled, check_active, check_locked, evaluate, enforce_order_type,
  order_quantity, resolve_order_price, quoted_price, validate_price_band, check_limits,
  enforce_concurrency, conclude,
}
use meltica_gateway.Risk.Handlers.{run, Call, checks, executes, observes}
use meltica_gateway.Risk.Admission.{SameDesk, check_order-refused}
use meltica_gateway.Risk.Halt.{run_halted, run_unarmed}
use meltica_gateway.Risk.Positions.{deliver, deliver-highest}
use meltica_gateway.Risk.Slots.{slots, count_open}
use meltica_gateway.Risk.Slots.Invariant.{Accounted, run-Accounted, reused_id_leaks}
use meltica_gateway.Risk.Slots.Bound.{IsBounded, run-IsBounded}

-- A limiter that never makes a caller wait.
abbrev sample : Outside
sample = record {
  decimal = sample_decimal;
  float = sample_float;
  new_from_float = λ f. f;
  Context = Unit {0};
  Limiter = ℕ;
  new_limiter = λ throttle burst. burst;
  wait = λ limiter ctx. (limiter, none);
}

abbrev limits : Limits sample
limits = record {
  max_position_size = pos 10;
  max_notional_value = pos 1000;
  notional_currency = codes "USDT";
  order_throttle = pos 5;
  order_burst = pos 1;
  max_concurrent_orders = pos 2;
  price_band_percent = pos 0;
  allowed_order_types = [];
  kill_switch_enabled = true;
  max_risk_breaches = pos 3;
  circuit_breaker = record { enabled = false; threshold = pos 0; cooldown = pos 0 };
}

-- The state of NewManager with these limits, written out.
abbrev start : Manager sample
start = record {
  limits = limits;
  limiter = 1;
  symbol_limiter = [];
  positions = [];
  notionals = [];
  market_prices = [];
  orders = [];
  inflight = [];
  allowed_types = [];
  failure_count = 0;
  kill_switch = false;
  kill_reason = [];
  cooldown_until = 0;
}

abbrev buy_three : OrderRequest
buy_three = record {
  returned = false;
  client_order_id = codes "a1";
  consumer_id = codes "grid";
  provider = codes "okx";
  symbol = codes "BTC-USDT";
  side = buy;
  order_type = codes "Limit";
  price = some (codes "20");
  quantity = codes "3";
  tif = codes "GTC";
  timestamp = 0;
}

abbrev report : ExecReportState → Text → ExecReportPayload
report state filled = record {
  client_order_id = codes "a1";
  exchange_order_id = codes "77";
  state = state;
  side = buy;
  order_type = codes "Limit";
  price = codes "20";
  quantity = codes "3";
  filled_quantity = filled;
  remaining_qty = codes "0";
  avg_fill_price = codes "";
  commission_amount = codes "";
  commission_asset = codes "";
  timestamp = 0;
  reject_reason = none;
}

abbrev booked : OrderState sample
booked = record {
  symbol = codes "BTC-USDT";
  side = buy;
  quantity = pos 3;
  filled = pos 0;
  limit_px = pos 20;
}

-- After buy_three is accepted.
abbrev working : Manager sample
working = record start {
  symbol_limiter = (codes "okx::BTC-USDT", 1) ∷ [];
  orders = (codes "a1", booked) ∷ [];
  inflight = (codes "BTC-USDT", 1) ∷ [];
}

-- A quantity of 30 is over the position limit.
abbrev buy_thirty : OrderRequest
buy_thirty = record buy_three { quantity = codes "30" }

abbrev too_large : RiskError
too_large = breach (record {
  kind = position_limit;
  reason = codes "projected position exceeds maximum";
  kill_switch_engaged = false;
  circuit_breaker_open = false;
  cause = none;
})

refuses_thirty : (check_order start tt 5 (some buy_thirty)).0 ≡ some too_large
unfolding check_order throttle check_throttled check_locked check_active ensure_trading_active
    evaluate enforce_order_type order_quantity resolve_order_price quoted_price validate_price_band
    check_limits enforce_concurrency conclude text_beq get put signed_quantity to_lower
    record_risk_breach new_breach flag_breach
refuses_thirty = refl

check_order-refused_example : SameDesk start (check_order start tt 5 (some buy_thirty)).1
check_order-refused_example =
    check_order-refused start tt 5 (some buy_thirty) too_large refuses_thirty

-- Two breaches were recorded before.
abbrev strained : Manager sample
strained = record start { failure_count = 2 }

-- A breaker that is open until time 9.
abbrev cooling : Manager sample
cooling = record start {
  limits = record limits {
    circuit_breaker = record { enabled = true; threshold = pos 1; cooldown = pos 4 };
  };
  kill_switch = true;
  cooldown_until = 9;
}

abbrev halted : Manager sample
halted = record working { kill_switch = true }

abbrev history : List (Call sample)
history =
    checks tt 6 (some buy_three)
    ∷ executes 7 (codes "BTC-USDT") (report partial (codes "1"))
    ∷ observes (codes "BTC-USDT") (pos 21)
    ∷ []

run_halted_example :
    ((run halted history).kill_switch ≡ true)
    × ((run halted history).limits ≡ limits)
    × ((ctx : Unit {0}) (now : ℕ) (req : OrderRequest)
        → (check_order (run halted history) ctx now (some req)).0 ≢ none)
run_halted_example = run_halted halted history refl refl (refl, (refl, (refl, tt)))

-- A circuit breaker without the kill switch.
abbrev breaker_only : Manager sample
breaker_only = record working {
  limits = record limits {
    kill_switch_enabled = false;
    circuit_breaker = record { enabled = true; threshold = pos 1; cooldown = pos 4 };
  };
}

run_unarmed_example : (run breaker_only history).kill_switch ≡ false
run_unarmed_example = run_unarmed breaker_only history refl refl (refl, (refl, (refl, tt)))

-- A duplicate, and a report that was overtaken.
abbrev reports : List (ℕ × ExecReportPayload)
reports =
    (6, report partial (codes "2"))
    ∷ (7, report partial (codes "1"))
    ∷ (8, report partial (codes "2"))
    ∷ []

deliver-highest_example :
    (get (deliver working (codes "BTC-USDT") reports).orders (codes "a1")
      ≡ some (record booked { filled = pos 2 }))
    × (position (deliver working (codes "BTC-USDT") reports) (codes "BTC-USDT") ≡ pos 2)
    × ((deliver working (codes "BTC-USDT") reports).inflight ≡ working.inflight)
    × ((deliver working (codes "BTC-USDT") reports).limits ≡ limits)
unfolding text_beq get signed_quantity is_terminal
deliver-highest_example =
    deliver-highest (codes "a1") buy (codes "BTC-USDT") reports working booked refl
      ((refl, refl, refl), ((refl, refl, refl), ((refl, refl, refl), tt)))

start-Accounted : Accounted start
unfolding get
start-Accounted = record { distinct = tt; balanced = λ s. refl }

abbrev one_order : List (Call sample)
one_order =
    checks tt 5 (some buy_three) ∷ executes 7 (codes "BTC-USDT") (report cancelled (codes "1")) ∷ []

run-Accounted_example : Accounted (run start one_order)
unfolding get
run-Accounted_example = run-Accounted start one_order start-Accounted (refl, (tt, tt))

working-Accounted : Accounted working
unfolding get
working-Accounted = record { distinct = (refl, tt); balanced = λ s. ground arith }

accepts_again : (check_order working tt 6 (some buy_three)).0 ≡ none
unfolding check_order throttle check_throttled check_locked check_active ensure_trading_active
    evaluate enforce_order_type order_quantity resolve_order_price quoted_price validate_price_band
    check_limits enforce_concurrency conclude text_beq get put signed_quantity to_lower
accepts_again = refl

reused_id_leaks_example :
    let m' = (check_order working tt 6 (some buy_three)).1 in
    slots m' (codes "BTC-USDT") ≡ count_open m'.orders (codes "BTC-USDT") + 1
unfolding get text_beq
reused_id_leaks_example =
    reused_id_leaks working tt 6 buy_three booked working-Accounted refl refl accepts_again

start-IsBounded : IsBounded start
unfolding get
start-IsBounded = record { limited = refl; bounded = λ s. omega arith }

run-IsBounded_example : IsBounded (run start (checks tt 4 (some buy_three) ∷ one_order))
run-IsBounded_example =
    run-IsBounded start (checks tt 4 (some buy_three) ∷ one_order) start-IsBounded
      (refl, (refl, (refl, tt)))
