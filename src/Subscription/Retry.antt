-- ===== src/Subscription/Retry.antt =====
-- What a deactivation that failed leaves behind.
use meltica_gateway.Common.{◌≡◌, ◌∙◌, none, [], inl, inr, Option-cases, ==_refl}
use meltica_gateway.Common.Map.{get, get-delete}
use meltica_gateway.Dispatcher.Table.{Route, route_key}
use meltica_gateway.Dispatcher.Filters.{AnyWriter}
use meltica_gateway.Subscription.Manager.{
  SubscriptionManager, RouteSubscriber, make_route_key, deactivate,
}

module _ (w : AnyWriter) (s : RouteSubscriber w.any.V) where
  open w use {any}
  open w.any use {V}

  deactivate-absent :
      (m : SubscriptionManager V) (route : Route V)
      → get m.active (make_route_key w route) ≡ none
      → deactivate w s m route ≡ record { error = none; calls = []; manager = m }
  unfolding deactivate
  deactivate-absent m route gone = rw (deactivate, gone)

  -- A second Deactivate of a route succeeds and asks the subscriber nothing, whether or not the first
  -- one failed to unsubscribe, so a failure is not retried.
  pub deactivate_twice :
      (m : SubscriptionManager V) (route : Route V)
      → let m' = (deactivate w s m route).manager in
        deactivate w s m' route ≡ record { error = none; calls = []; manager = m' }
  unfolding deactivate
  deactivate_twice m route =
      deactivate-absent (deactivate w s m route).manager route
        (elim (Option-cases (get m.active (make_route_key w route))) [
          | inl p ↦ rw (deactivate, p) p
          | inr (existing, p) ↦
              rw (deactivate, p)
                (get-delete m.active (make_route_key w route) (make_route_key w route)
                  ∙ rw (==_refl (make_route_key w route)))
        ])
