-- ===== src/Risk/Handlers.antt =====
-- The manager's other operations (risk.go: normalizeAllowedOrderTypes, NewManager, UpdateLimits,
-- ObserveMarketPrice, ResetKillSwitch) and a call of any operation as one step.
use meltica_gateway.Common.{Bool, false, Option, is_some, List, [], ◌∷◌, if◌then◌else◌}
use meltica_gateway.Common.Text.{Text, codes, trim_space, to_lower, text_beq, text_eq}
use meltica_gateway.Common.Map.{Map, get, put}
use meltica_gateway.Common.Decimal.{le}
use meltica_gateway.Schema.Order.{OrderRequest, ExecReportPayload, Time}
use meltica_gateway.Risk.Types.{Outside, Limits, Manager}
use meltica_gateway.Risk.Fills.{handle_execution}
use meltica_gateway.Risk.Check.{check_order, fresh_limiter}

-- normalizeAllowedOrderTypes: `seen` holds the lower-case spellings met so far.
normalize_types : Map Text (Unit {0}) → List Text → List Text
normalize_types seen [] = []
normalize_types seen (raw ∷ types) =
    let trimmed = trim_space raw in
    let skip = normalize_types seen types in
    let keep = normalize_types (put seen (to_lower trimmed) tt) types in
    if text_beq trimmed (codes "")
    then skip
    else if is_some (get seen (to_lower trimmed))
    then skip
    else trimmed ∷ keep

unfoldable pub normalize_allowed_order_types : List Text → List Text
unfolding normalize_types
normalize_allowed_order_types types = normalize_types [] types

-- The set of lower-case spellings that enforceOrderTypeLocked reads.
allow : Map Text (Unit {0}) → List Text → Map Text (Unit {0})
allow allowed [] = allowed
allow allowed (t ∷ types) = allow (put allowed (to_lower t) tt) types

unfoldable pub allowed_set : List Text → Map Text (Unit {0})
unfolding allow
allowed_set types = allow [] types

module _ {o : Outside} where
  copy_limits : Limits o → Limits o
  copy_limits l = record l {
    allowed_order_types = normalize_allowed_order_types l.allowed_order_types;
  }

  -- NewManager
  unfoldable pub new_manager : Limits o → Manager o
  unfolding copy_limits
  new_manager l = record {
    limits = copy_limits l;
    limiter = fresh_limiter l;
    symbol_limiter = [];
    positions = [];
    notionals = [];
    market_prices = [];
    orders = [];
    inflight = [];
    allowed_types = allowed_set (copy_limits l).allowed_order_types;
    failure_count = 0;
    kill_switch = false;
    kill_reason = codes "";
    cooldown_until = 0;
  }

  -- UpdateLimits
  unfoldable pub update_limits : Manager o → Limits o → Manager o
  unfolding copy_limits
  update_limits m l = record m {
    limits = copy_limits l;
    limiter = fresh_limiter l;
    symbol_limiter = [];
    allowed_types = allowed_set (copy_limits l).allowed_order_types;
  }

  -- ObserveMarketPrice
  unfoldable pub observe_market_price : Manager o → Text → o.decimal.Num → Manager o
  observe_market_price m symbol price =
      if le o.decimal price o.decimal.nil
      then m
      else record m { market_prices = put m.market_prices symbol price }

  -- ResetKillSwitch
  unfoldable pub reset_kill_switch : Manager o → Manager o
  reset_kill_switch m = record m {
    kill_switch = false;
    kill_reason = codes "";
    failure_count = 0;
    cooldown_until = 0;
  }

  -- KillSwitchStatus
  unfoldable pub kill_switch_status : Manager o → Bool × Text
  kill_switch_status m = (m.kill_switch, m.kill_reason)

-- One call of an operation that changes the manager, with the clock that it reads.
pub data Call (o : Outside) : Type 0 where
  checks : o.Context → Time → Option OrderRequest → Call o
  executes : Time → Text → ExecReportPayload → Call o
  observes : Text → o.decimal.Num → Call o
  resets : Call o
  updates : Limits o → Call o

module _ {o : Outside} where
  unfoldable pub step : Manager o → Call o → Manager o
  step m (checks ctx now req) = (check_order m ctx now req).1
  step m (executes now symbol payload) = handle_execution m now symbol payload
  step m (observes symbol price) = observe_market_price m symbol price
  step m resets = reset_kill_switch m
  step m (updates l) = update_limits m l

  -- The manager after a sequence of calls. The manager's lock orders concurrent ones.
  unfoldable pub run : Manager o → List (Call o) → Manager o
  run m [] = m
  run m (c ∷ cs) = run (step m c) cs
