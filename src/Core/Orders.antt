-- ===== src/Core/Orders.antt =====
-- base.go: orders that a strategy submits. The risk manager is the real one; the pool, the store and
-- the provider behind the router answer as they like.
mod Records
unfoldable pub use Records.*
use meltica_gateway.Common.{
  ℕ, ◌+◌, ◌/◌, Bool, true, false, not, ◌&&◌, Option, none, some, List, [], ◌∷◌, ◌++◌, is_nil,
  nat_eq, if◌then◌else◌,
}
use meltica_gateway.Common.Text.{Text, codes, text_beq, trim_space, to_upper}
use meltica_gateway.Common.Map.{Map}
use meltica_gateway.Schema.Order.{OrderRequest, TradeSide, buy, sell, other_side, Time}
use meltica_gateway.Schema.Payload.{RiskControlPayload}
use meltica_gateway.Dispatcher.Table.Match.{has_text}
use meltica_gateway.Publisher.Emit.{uint64_text, decimal_text}
use meltica_gateway.Risk.Types.{
  Outside, RiskError, breach, BreachType, Manager, rate_limit, order_type, order_validation,
  price_band, position_limit, notional_limit, concurrency, kill_switch, nil_order_request,
  kill_switch_engaged, circuit_breaker_open, plain,
}
use meltica_gateway.Risk.Breach.{error_text}
use meltica_gateway.Risk.Check.{check_order}
use meltica_gateway.Core.Config.{BaseLambda, symbol_for_provider}

-- What surrounds a submission: the clock, whether the pool has a request, the context of the wait, and
-- the errors of the store and of the provider.
pub record Answers (Context : Type 0) : Type 0 where
  pub now : Time
  pub has_request : Bool
  pub context : Context
  pub create_error : StoredOrder → Option Text
  pub submit_error : OrderRequest → Option Text

pub data SubmitError : Type 0 where
  provider_required provider_unknown request_unavailable : SubmitError
  risk_failed : RiskError → SubmitError
  persist_failed submit_failed : Text → SubmitError

-- A lambda with its risk manager, and what it has sent so far: requests to the order router, calls of
-- the order store, and payloads of risk control events.
pub record Desk (o : Outside) : Type 0 where
  pub base : BaseLambda o.float.F
  pub risk : Manager o
  pub sent : List OrderRequest
  pub stored : List StoreCall
  pub alerts : List RiskControlPayload

-- The update of persistOrderFailure.
unfoldable pub failure_update : Text → Time → Text → OrderUpdate
failure_update id now e = record {
  id = id;
  state = codes "REJECTED";
  acknowledged_at = none;
  completed_at = unix_ptr now;
  metadata = (codes "error", e) ∷ [];
}

module _ {F : Type 0} where
  -- buildRiskControlPayload, without the details of a breach.
  unfoldable pub risk_control_payload : BaseLambda F → Text → Time → RiskError → RiskControlPayload
  risk_control_payload l given now e =
      let trimmed = trim_space given in
      let provider : Text = elim l.config.providers [
        | [] ↦ trimmed
        | p ∷ rest ↦ if text_beq trimmed [] && is_nil rest then p else trimmed
      ] in
      let payload : RiskControlPayload = record {
        strategy_id = l.id;
        provider = provider;
        symbol = symbol_for_provider l provider;
        status = codes "TRIGGERED";
        reason = error_text e;
        breach_type = codes "UNKNOWN";
        metrics = [];
        kill_switch_engaged = false;
        circuit_breaker_open = false;
        timestamp = now;
      } in
      elim e [
        | breach b ↦ record payload {
          reason = b.reason;
          breach_type = breach_type_text b.kind;
          kill_switch_engaged = b.kill_switch_engaged;
          circuit_breaker_open = b.circuit_breaker_open;
        }
        | kill_switch_engaged ↦ record payload {
          breach_type = codes "KILL_SWITCH";
          kill_switch_engaged = true;
          reason = codes "kill switch engaged";
        }
        | circuit_breaker_open ↦ record payload {
          breach_type = codes "KILL_SWITCH";
          kill_switch_engaged = true;
          circuit_breaker_open = true;
          reason = codes "circuit breaker open";
        }
        | nil_order_request ↦ payload
        | plain _ ↦ payload
      ]

  -- The request that SubmitOrder and SubmitMarketOrder fill in.
  unfoldable pub order_request :
      BaseLambda F → Text → TradeSide → Text → Option Text → Text → Text → Time → OrderRequest
  order_request l provider side kind price quantity tif now = record {
    returned = false;
    client_order_id = new_order_id l.id now l.order_count;
    consumer_id = l.id;
    provider = provider;
    symbol = symbol_for_provider l provider;
    side = side;
    order_type = kind;
    price = price;
    quantity = quantity;
    tif = tif;
    timestamp = now;
  }

  -- The row of persistNewOrder. The clock is not at the zero time.
  unfoldable pub new_row : BaseLambda F → OrderRequest → StoredOrder
  new_row l req = record {
    id = req.client_order_id;
    provider = trim_space req.provider;
    strategy_instance = l.id;
    client_order_id = req.client_order_id;
    symbol = req.symbol;
    side = side_text req.side;
    kind = req.order_type;
    quantity = req.quantity;
    price = req.price;
    state = codes "PENDING";
    external_reference = [];
    placed_at = unix req.timestamp;
    metadata =
        (if text_beq (trim_space req.tif) []
          then []
          else (codes "tif", to_upper (trim_space req.tif)) ∷ [])
        ++ elim req.price [ none ↦ [] | some price ↦ (codes "price", price) ∷ [] ];
  }

  -- The tests that both submissions begin with.
  unfoldable pub check_provider : BaseLambda F → Text → Option SubmitError
  check_provider l provider =
      if text_beq provider []
      then some provider_required
      else if not (is_nil l.config.providers) && not (has_text l.config.providers provider)
      then some provider_unknown
      else none

module _ {o : Outside} where
  -- The end of a submission, with a request that the risk manager accepted and the store has.
  unfoldable pub send_order :
      Answers o.Context → OrderRequest → Desk o → Option SubmitError × Desk o
  send_order a req d =
      let d' = record d { sent = d.sent ++ req ∷ [] } in
      elim (a.submit_error req) [
        | some e ↦ (
          some (submit_failed e),
          record d' {
            stored = d'.stored ++ update_order (failure_update req.client_order_id a.now e) ∷ [];
          },
        )
        | none ↦ (none, record d' { base = record d.base { order_count = d.base.order_count + 1 } })
      ]

  -- persistNewOrder and what follows.
  unfoldable pub store_order :
      Answers o.Context → OrderRequest → Desk o → Option SubmitError × Desk o
  store_order a req d =
      let row = new_row d.base req in
      let d' = record d { stored = d.stored ++ create_order row ∷ [] } in
      elim (a.create_error row) [
        | some e ↦ (some (persist_failed e), d')
        | none ↦ send_order a req d'
      ]

  -- CheckOrder and what follows.
  unfoldable pub check_and_store :
      Answers o.Context → Text → OrderRequest → Desk o → Option SubmitError × Desk o
  check_and_store a provider req d =
      let (refusal, risk) = check_order d.risk a.context a.now (some req) in
      elim refusal [
        | some e ↦ (
          some (risk_failed e),
          record d {
            risk = risk;
            alerts = d.alerts ++ risk_control_payload d.base provider a.now e ∷ [];
          },
        )
        | none ↦ store_order a req (record d { risk = risk })
      ]

  unfoldable pub place_order :
      Answers o.Context
      → Text
      → TradeSide
      → Text
      → Option Text
      → Text
      → Text
      → Desk o
      → Option SubmitError × Desk o
  place_order a given side kind price quantity tif d =
      let provider = trim_space given in
      elim (check_provider d.base provider) [
        | some e ↦ (some e, d)
        | none ↦
            if d.base.dry_run
            then (none, d)
            else if not a.has_request
            then (some request_unavailable, d)
            else check_and_store a provider
                (order_request d.base provider side kind price quantity tif a.now) d
      ]

  -- SubmitOrder
  unfoldable pub submit_order :
      Answers o.Context
      → Text
      → TradeSide
      → Text
      → Option Text
      → Desk o
      → Option SubmitError × Desk o
  submit_order a provider side quantity price d =
      place_order a provider side (codes "Limit") price quantity (codes "GTC") d

  -- SubmitMarketOrder
  unfoldable pub submit_market_order :
      Answers o.Context → Text → TradeSide → Text → Desk o → Option SubmitError × Desk o
  submit_market_order a provider side quantity d =
      place_order a provider side (codes "Market") none quantity (codes "IOC") d
