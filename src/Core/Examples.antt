-- ===== src/Core/Examples.antt =====
-- The theorems on lambdas at concrete inputs.
use meltica_gateway.Common.{ℕ, ◌+◌, true, false, ◌≡◌, refl, none, some, [], ◌∷◌, ◌⊎◌, or_else}
use meltica_gateway.Common.Text.{
  codes, text_beq, text_eq, trim_space, trim_left, trim_right, is_space, to_lower,
}
use meltica_gateway.Common.Map.{get, put}
use meltica_gateway.Common.Int.{pos}
use meltica_gateway.Common.Sample.{sample_decimal, sample_float}
use meltica_gateway.Dispatcher.Table.Match.{has_text}
use meltica_gateway.Schema.Order.{buy, filled, ExecReportPayload}
use meltica_gateway.Schema.Payload.{Payload, exec_report}
use meltica_gateway.Schema.Route.{Event}
use meltica_gateway.Risk.Types.{Outside, OrderState}
use meltica_gateway.Risk.Breach.{ensure_trading_active}
use meltica_gateway.Risk.Fills.{signed_quantity}
use meltica_gateway.Risk.Check.{
  check_order, throttle, check_throttled, check_active, check_locked, evaluate, enforce_order_type,
  order_quantity, resolve_order_price, quoted_price, validate_price_band, check_limits,
  enforce_concurrency, conclude,
}
use meltica_gateway.Risk.Admission.{Admitted}
use meltica_gateway.Core.Config.{BaseLambda, symbol_for_provider, first_symbol, is_my_order}
use meltica_gateway.Core.Orders.{
  Answers, Desk, new_order_id, order_request, check_provider, place_order, check_and_store,
  store_order, send_order,
}
use meltica_gateway.Core.Events.{Around}
use meltica_gateway.Core.Submission.{is_late, place_order-Admitted, place_order-keeps_slot}
use meltica_gateway.Core.Reports.{is_my_order-new_order_id}

-- A limiter that never makes a caller wait.
abbrev outside : Outside
outside = record {
  decimal = sample_decimal;
  float = sample_float;
  new_from_float = λ f. f;
  Context = Unit {0};
  Limiter = ℕ;
  new_limiter = λ throttle burst. burst;
  wait = λ limiter ctx. (limiter, none);
}

abbrev lambda : BaseLambda (sample_float).F
lambda = record {
  id = codes "grid";
  config = record {
    providers = codes "okx" ∷ [];
    provider_symbols = (codes "okx", codes "BTC-USDT" ∷ []) ∷ [];
    dry_run = false;
  };
  base_currency = codes "BTC";
  quote_currency = codes "USDT";
  provider_symbols = (codes "okx", codes "BTC-USDT" ∷ []) ∷ [];
  default_symbols = (codes "okx", codes "BTC-USDT") ∷ [];
  all_symbols = codes "BTC-USDT" ∷ [];
  global_primary = codes "BTC-USDT";
  balance_currencies = codes "BTC" ∷ codes "USDT" ∷ [];
  last_price = pos 0;
  bid_price = pos 0;
  ask_price = pos 0;
  trading_active = true;
  order_count = 0;
  dry_run = false;
}

abbrev desk : Desk outside
desk = record {
  base = lambda;
  risk = record {
    limits = record {
      max_position_size = pos 10;
      max_notional_value = pos 1_000;
      notional_currency = codes "USDT";
      order_throttle = pos 5;
      order_burst = pos 1;
      max_concurrent_orders = pos 2;
      price_band_percent = pos 0;
      allowed_order_types = [];
      kill_switch_enabled = true;
      max_risk_breaches = pos 3;
      circuit_breaker = record { enabled = false; threshold = pos 0; cooldown = pos 0 };
    };
    limiter = 1;
    symbol_limiter = [];
    positions = [];
    notionals = [];
    market_prices = [];
    orders = [];
    inflight = [];
    allowed_types = [];
    failure_count = 0;
    kill_switch = false;
    kill_reason = [];
    cooldown_until = 0;
  };
  sent = [];
  stored = [];
  alerts = [];
}

-- A provider that refuses every order.
abbrev refusing : Answers (Unit {0})
refusing = record {
  now = 1_000;
  has_request = true;
  context = tt;
  create_error = λ _. none;
  submit_error = λ _. some (codes "insufficient balance");
}

refused_late :
    is_late (
      (place_order {o = outside} refusing
        (codes " okx")
        buy
        (codes "Limit")
        (some (codes "20"))
        (codes "3")
        (codes "GTC")
        desk).0)
    ≡ true
unfolding place_order check_provider check_and_store store_order send_order is_late order_request
    symbol_for_provider first_symbol has_text text_beq trim_space trim_left trim_right is_space
    to_lower get put check_order throttle check_throttled check_locked check_active
    ensure_trading_active evaluate enforce_order_type order_quantity resolve_order_price
    quoted_price validate_price_band check_limits enforce_concurrency conclude signed_quantity
refused_late = refl

place_order-keeps_slot_example :
    let d' =
      (place_order {o = outside} refusing
        (codes " okx")
        buy
        (codes "Limit")
        (some (codes "20"))
        (codes "3")
        (codes "GTC")
        desk).1 in
    let req =
      order_request lambda
        (trim_space (codes " okx"))
        buy
        (codes "Limit")
        (some (codes "20"))
        (codes "3")
        (codes "GTC")
        1_000 in
    (order : OrderState outside) × (get d'.risk.orders req.client_order_id ≡ some order)
    × (or_else (get d'.risk.inflight req.symbol) 0
        ≡ or_else (get desk.risk.inflight req.symbol) 0 + 1)
place_order-keeps_slot_example =
    place_order-keeps_slot refusing (codes " okx") buy (codes "Limit") (some (codes "20"))
      (codes "3") (codes "GTC") desk refused_late

place_order-Admitted_example :
    let d' =
      (place_order {o = outside} refusing
        (codes " okx")
        buy
        (codes "Limit")
        (some (codes "20"))
        (codes "3")
        (codes "GTC")
        desk).1 in
    let req =
      order_request lambda
        (trim_space (codes " okx"))
        buy
        (codes "Limit")
        (some (codes "20"))
        (codes "3")
        (codes "GTC")
        1_000 in
    (d'.sent ≡ [])
    ⊎ ((d'.sent ≡ req ∷ [])
        × (lambda.dry_run ≡ false)
        × (check_provider lambda (trim_space (codes " okx")) ≡ none)
        × (order : OrderState outside) × Admitted desk.risk d'.risk req order)
place_order-Admitted_example =
    place_order-Admitted refusing (codes " okx") buy (codes "Limit") (some (codes "20")) (codes "3")
      (codes "GTC") desk

is_my_order-new_order_id_example :
    (is_my_order (codes "grid") (new_order_id (codes "grid") 1_000 0) ≡ true)
    × (is_my_order (codes "grid") (new_order_id (codes "grid-eth") 1_000 0) ≡ true)
is_my_order-new_order_id_example = is_my_order-new_order_id (codes "grid") (codes "eth") 1_000 0

abbrev around : Around outside
around = record {
  parse_float = λ _. (pos 20, false);
  half = λ x. x;
  now = 2_000;
  takes_extensions = false;
}

abbrev fill : ExecReportPayload
fill = record {
  client_order_id = codes "grid-1000-0";
  exchange_order_id = codes "x1";
  state = filled;
  side = buy;
  order_type = codes "Limit";
  price = codes "20";
  quantity = codes "3";
  filled_quantity = codes "3";
  remaining_qty = codes "0";
  avg_fill_price = codes "20";
  commission_amount = [];
  commission_asset = [];
  timestamp = 1_500;
  reject_reason = none;
}

abbrev fill_event : Event (Payload (sample_float).F ℕ)
fill_event = record {
  returned = false;
  event_id = codes "okx:BTCUSDT:ExecReport:1";
  routing_version = 1;
  provider = codes "okx";
  symbol = codes "BTC-USDT";
  kind = codes "ExecReport";
  seq_provider = 1;
  ingest_ts = 1_600;
  emit_ts = 1_500;
  payload = some (exec_report fill);
}
