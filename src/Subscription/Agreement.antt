-- ===== src/Subscription/Agreement.antt =====
-- The manager's record of a route against what its subscriber was asked for.
use meltica_gateway.Common.{Bool, false, not, ◌&&◌, ◌||◌, ◌≡◌, Option, none, some, List, [], ◌∷◌}
use meltica_gateway.Common.Text.{Text}
use meltica_gateway.Common.Map.{get}
use meltica_gateway.Dispatcher.Table.{Route, RouteKey, route_key}
use meltica_gateway.Dispatcher.Filters.{AnyWriter}
use meltica_gateway.Dispatcher.Compare.{equal_routes}
use meltica_gateway.Subscription.Values.{has_value}
use meltica_gateway.Subscription.Manager.{Call, subscribed, unsubscribed, Outcome}

module _ (w : AnyWriter) where
  open w use {any}
  open w.any use {V}

  -- Whether a value of a field is subscribed after a call, given whether it was before: the filters
  -- of a route are values that are added or removed.
  unfoldable pub after_call : Text → Text → Call V → Bool → Bool
  after_call key v (subscribed r) now = now || has_value w r.filters key v
  after_call key v (unsubscribed r) now = now && not (has_value w r.filters key v)

  unfoldable pub after_calls : Text → Text → List (Call V) → Bool → Bool
  after_calls key v [] now = now
  after_calls key v (c ∷ calls) now = after_calls key v calls (after_call key v c now)

  -- What the manager has on record.
  unfoldable pub recorded : Option (Route V) → Text → Text → Bool
  recorded none key v = false
  recorded (some r) key v = has_value w r.filters key v

  module _ (k : RouteKey) (key v : Text) (now : Bool) where
    -- After a call without an error the subscriber and the record both say `wanted`.
    Agrees : Bool → Outcome V → Type 0
    Agrees wanted o =
        o.error ≡ none
        → (after_calls key v o.calls now ≡ wanted)
          × (recorded (get o.manager.active k) key v ≡ wanted)

  -- Whether Activate finds the route as it is.
  unfoldable pub finds_same : Option (Route V) → Route V → Bool
  finds_same none route = false
  finds_same (some existing) route = equal_routes w existing route
