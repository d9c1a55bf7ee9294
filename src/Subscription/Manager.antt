-- ===== src/Subscription/Manager.antt =====
-- subscription_manager.go: SubscriptionManager. The subscriber is two functions, its errors for a
-- route, and a call leaves the list of what it was asked.
use meltica_gateway.Common.{
  Bool, Option, none, some, List, [], ◌∷◌, ◌++◌, is_nil, if◌then◌else◌, not,
}
use meltica_gateway.Common.Text.{Text, trim_space, to_lower}
use meltica_gateway.Common.Map.{Map, get, put, delete}
use meltica_gateway.Schema.Route.{normalize_route_type}
use meltica_gateway.Dispatcher.Table.{Route, RouteKey, FilterRule, route_key}
use meltica_gateway.Dispatcher.Filters.{AnyWriter}
use meltica_gateway.Dispatcher.Compare.{equal_routes}
use meltica_gateway.Subscription.Diff.{diff_filters}

-- SubscriptionManager
pub record SubscriptionManager (V : Type 0) : Type 0 where
  pub active : Map RouteKey (Route V)

-- RouteSubscriber
pub record RouteSubscriber (V : Type 0) : Type 0 where
  pub subscribe_route : Route V → Option Text
  pub unsubscribe_route : Route V → Option Text

-- A call of the subscriber.
pub data Call (V : Type 0) : Type 0 where
  subscribed unsubscribed : Route V → Call V

-- What a method returns: its error, the calls in their order, and the manager.
pub record Outcome (V : Type 0) : Type 0 where
  pub error : Option Text
  pub calls : List (Call V)
  pub manager : SubscriptionManager V

module _ (w : AnyWriter) where
  open w use {any}
  open w.any use {V}

  -- NewSubscriptionManager
  unfoldable pub new_subscription_manager : SubscriptionManager V
  new_subscription_manager = record { active = [] }

  -- makeRouteKey
  unfoldable pub make_route_key : Route V → RouteKey
  make_route_key route = record {
    provider = to_lower (trim_space route.provider);
    kind = normalize_route_type route.kind;
  }

  -- sameNonFilterConfig
  unfoldable pub same_non_filter_config : Route V → Route V → Bool
  same_non_filter_config a b =
      equal_routes w (record a { filters = [] }) (record b { filters = [] })

  -- buildDeltaRoute of filters that are not empty, which is when its result is used.
  unfoldable pub build_delta_route : Route V → List (FilterRule V) → Route V
  build_delta_route base filters = record base { filters = filters }

  -- mergeRouteState
  unfoldable pub merge_route_state : Route V → Route V → Route V
  merge_route_state existing updated = record updated {
    ws_topics = if is_nil updated.ws_topics then existing.ws_topics else updated.ws_topics;
    rest_fns = if is_nil updated.rest_fns then existing.rest_fns else updated.rest_fns;
  }

  module _ (s : RouteSubscriber V) where
    -- The end of Activate: the route is stored unless the last call failed.
    unfoldable pub store_route :
        SubscriptionManager V → RouteKey → Route V → List (Call V) → Option Text → Outcome V
    store_route m key route calls (some e) = record { error = some e; calls = calls; manager = m }
    store_route m key route calls none = record {
      error = none;
      calls = calls;
      manager = record m { active = put m.active key route };
    }

    -- Activate of a route that is not active.
    unfoldable pub start : SubscriptionManager V → RouteKey → Route V → Outcome V
    start m key route = store_route m key route (subscribed route ∷ []) (s.subscribe_route route)

    -- Activate of a route whose other settings changed: the old one goes, and comes back if the new one
    -- is refused, whatever the subscriber says to that.
    unfoldable pub replace : SubscriptionManager V → RouteKey → Route V → Route V → Outcome V
    replace m key existing route = elim (s.unsubscribe_route existing) [
      | some e ↦ record { error = some e; calls = unsubscribed existing ∷ []; manager = m }
      | none ↦ elim (s.subscribe_route route) [
        | some e ↦ record {
          error = some e;
          calls = unsubscribed existing ∷ subscribed route ∷ subscribed existing ∷ [];
          manager = m;
        }
        | none ↦ store_route m key route (unsubscribed existing ∷ subscribed route ∷ []) none
      ]
    ]

    -- The additions of refine, `calls` being those before them.
    unfoldable pub add_filters :
        SubscriptionManager V → RouteKey → Route V → Route V → List (Call V) → Outcome V
    add_filters m key existing route calls =
        let added = diff_filters w route.filters existing.filters in
        let additions = build_delta_route route added in
        let merged = merge_route_state existing route in
        if is_nil added
        then store_route m key merged calls none
        else store_route m key merged (calls ++ subscribed additions ∷ [])
            (s.subscribe_route additions)

    -- Activate of a route of which the filters changed.
    unfoldable pub refine : SubscriptionManager V → RouteKey → Route V → Route V → Outcome V
    refine m key existing route =
        let removed = diff_filters w existing.filters route.filters in
        let removals = build_delta_route existing removed in
        if is_nil removed
        then add_filters m key existing route []
        else elim (s.unsubscribe_route removals) [
          | some e ↦ record { error = some e; calls = unsubscribed removals ∷ []; manager = m }
          | none ↦ add_filters m key existing route (unsubscribed removals ∷ [])
        ]

    -- Activate
    unfoldable pub activate : SubscriptionManager V → Route V → Outcome V
    activate m route =
        let key = make_route_key route in
        elim (get m.active key) [
          | none ↦ start m key route
          | some existing ↦
              if equal_routes w existing route
              then record { error = none; calls = []; manager = m }
              else if not (same_non_filter_config existing route)
              then replace m key existing route
              else refine m key existing route
        ]

    -- Deactivate
    unfoldable pub deactivate : SubscriptionManager V → Route V → Outcome V
    deactivate m route =
        let key = make_route_key route in
        elim (get m.active key) [
          | none ↦ record { error = none; calls = []; manager = m }
          | some existing ↦ record {
            error = s.unsubscribe_route existing;
            calls = unsubscribed existing ∷ [];
            manager = record m { active = delete m.active key };
          }
        ]
