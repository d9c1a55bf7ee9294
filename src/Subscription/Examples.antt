-- ===== src/Subscription/Examples.antt =====
-- The theorems on subscriptions at concrete inputs.
use meltica_gateway.Common.{none, some, List, [], ◌∷◌}
use meltica_gateway.Common.Text.{Text, codes}
use meltica_gateway.Dispatcher.Table.{Route, FilterRule, route_key}
use meltica_gateway.Dispatcher.Sample.{Words, words}
use meltica_gateway.Subscription.Manager.{SubscriptionManager, RouteSubscriber}

abbrev pairs : List Text → List (FilterRule Words)
pairs symbols = record { field = codes "instrument"; op = codes "in"; value = words symbols } ∷ []

abbrev trades_of : List Text → Route Words
trades_of symbols = record {
  provider = codes "binance";
  kind = codes "TRADE";
  ws_topics = [];
  rest_fns = [];
  filters = pairs symbols;
}

abbrev before : Route Words
before = trades_of (codes "BTC-USDT" ∷ codes "ETH-USDT" ∷ [])

abbrev after : Route Words
after = trades_of (codes "ETH-USDT" ∷ codes "SOL-USDT" ∷ [])

abbrev manager : SubscriptionManager Words
manager = record {
  active = (record { provider = codes "binance"; kind = codes "TRADE" }, before) ∷ [];
}

-- A subscriber that accepts every call, and one that cannot unsubscribe.
abbrev willing : RouteSubscriber Words
willing = record { subscribe_route = λ r. none; unsubscribe_route = λ r. none }

abbrev stubborn : RouteSubscriber Words
stubborn = record { subscribe_route = λ r. none; unsubscribe_route = λ r. some (codes "timeout") }
