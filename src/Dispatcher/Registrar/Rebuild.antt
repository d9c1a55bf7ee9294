-- ===== src/Dispatcher/Registrar/Rebuild.antt =====
-- What a rebuild makes of the routing table.
use meltica_gateway.Common.{
  Bool, true, false, ◌≡◌, refl, sym, subst, Option, none, some, is_some, [], ◌∷◌, inl, inr,
  Bool-cases, option-both, if-both,
}
use meltica_gateway.Common.Text.{Text, trim_space}
use meltica_gateway.Common.Exec.{Result, ok, err}
use meltica_gateway.Common.Map.{get}
use meltica_gateway.Schema.Route.{normalize_route_type, RouteTypeError}
use meltica_gateway.Dispatcher.Table.{
  Table, Route, RouteKey, RouteError, route_key, normalize_key, upsert, remove, store, next_version,
  normalize_route, check_route,
}
use meltica_gateway.Dispatcher.Filters.{AnyWriter}
use meltica_gateway.Dispatcher.Registrar.{Lambdas}
use meltica_gateway.Dispatcher.Registrar.Apply.{
  Applied, Router, Routes, build_desired, drop_route, raise_route, record_upsert, is_settled,
  each_route, settle_routes, bump, apply_desired, apply_routes,
}
use meltica_gateway.Dispatcher.Registrar.Keyed.{IsKeyed, put-IsKeyed, delete-IsKeyed}
use meltica_gateway.Dispatcher.Registrar.Settle.{settled_entry}

store-IsKeyed :
    {V : Type 0} (e : Option RouteError) (t : Table V) (r : Route V)
    → IsKeyed t.routes
    → IsKeyed (store e t r).1.routes
unfolding store normalize_route
store-IsKeyed none t r keyed =
    put-IsKeyed t.routes (normalize_key (trim_space r.provider) (normalize_route_type r.kind))
      (normalize_route r) keyed refl
store-IsKeyed (some e) t r keyed = keyed

module _ (w : AnyWriter) where
  open w use {any}
  open w.any use {V}

  module _ (router : Router V) where
    drop_route-IsKeyed :
        (desired : Routes V) (entry : RouteKey × Route V) (st : Applied V)
        → IsKeyed st.table.routes
        → IsKeyed (drop_route w router desired entry st).table.routes
    unfolding drop_route remove
    drop_route-IsKeyed desired (key, existing) st keyed =
        if-both (λ (s : Applied V). IsKeyed s.table.routes) (is_some (get desired key)) (λ _. keyed)
          (λ _.
            option-both (λ (s : Applied V). IsKeyed s.table.routes) (router.deactivate existing)
              (λ _.
                delete-IsKeyed st.table.routes (normalize_key existing.provider existing.kind)
                  keyed)
              (λ e _. keyed))

    record_upsert-IsKeyed :
        (st : Applied V) (answer : Option RouteError × Table V)
        → IsKeyed answer.1.routes
        → IsKeyed (record_upsert w router st answer).table.routes
    unfolding record_upsert
    record_upsert-IsKeyed st (some e, t) keyed = keyed
    record_upsert-IsKeyed st (none, t) keyed = keyed

    raise_route-IsKeyed :
        (current : Routes V) (entry : RouteKey × Route V) (st : Applied V)
        → IsKeyed st.table.routes
        → IsKeyed (raise_route w router current entry st).table.routes
    unfolding raise_route upsert
    raise_route-IsKeyed current (key, route) st keyed =
        if-both (λ (s : Applied V). IsKeyed s.table.routes)
          (is_settled w router (get current key) route) (λ _. keyed)
          (λ _.
            option-both (λ (s : Applied V). IsKeyed s.table.routes) (router.activate route)
              (λ _.
                record_upsert-IsKeyed st (upsert st.table route)
                  (store-IsKeyed (check_route route) st.table route keyed))
              (λ e _. keyed))

    each_route-IsKeyed :
        (step : RouteKey × Route V → Applied V → Applied V)
        → ((entry : RouteKey × Route V) (st : Applied V)
            → IsKeyed st.table.routes
            → IsKeyed (step entry st).table.routes)
        → (m : Routes V) (st : Applied V) → IsKeyed st.table.routes
        → IsKeyed (each_route step m st).table.routes
    unfolding each_route
    each_route-IsKeyed step kept [] st keyed = keyed
    each_route-IsKeyed step kept (entry ∷ m) st keyed =
        each_route-IsKeyed step kept m (step entry st) (kept entry st keyed)

    bump-routes : (st : Applied V) → (bump w router st).1.routes ≡ st.table.routes
    unfolding bump next_version
    bump-routes st = elim (Bool-cases st.changed) [ inl p ↦ rw p | inr p ↦ rw p ]

    settle_routes-IsKeyed :
        (desired : Routes V) (table : Table V)
        → IsKeyed table.routes
        → IsKeyed (settle_routes w router desired table).table.routes
    unfolding settle_routes
    settle_routes-IsKeyed desired table keyed =
        each_route-IsKeyed (raise_route w router table.routes) (raise_route-IsKeyed table.routes)
          desired _
          (each_route-IsKeyed (drop_route w router desired) (drop_route-IsKeyed desired)
            table.routes (record { table = table; errs = []; changed = false }) keyed)

    apply_desired-IsKeyed :
        (table : Table V) (r : Result RouteTypeError (Routes V))
        → IsKeyed table.routes
        → IsKeyed (apply_desired w router table r).1.routes
    unfolding apply_desired
    apply_desired-IsKeyed table (err e) keyed = keyed
    apply_desired-IsKeyed table (ok desired) keyed =
        subst IsKeyed (sym (bump-routes (settle_routes w router desired table)))
          (settle_routes-IsKeyed desired table keyed)

    -- A rebuild keeps a table one in which every route stands under its own key, and once.
    pub apply_routes-IsKeyed :
        (over : Bool) (state : Lambdas V) (table : Table V)
        → IsKeyed table.routes
        → IsKeyed (apply_routes w router over state table).1.routes
    unfolding apply_routes
    apply_routes-IsKeyed true state table keyed = keyed
    apply_routes-IsKeyed false state table keyed =
        apply_desired-IsKeyed table (build_desired w state []) keyed

    -- An entry after a rebuild, from the entry before it and what is desired, if anything is.
    unfoldable pub rebuilt_entry :
        RouteKey → Option (Route V) → Result RouteTypeError (Routes V) → Option (Route V)
    rebuilt_entry k now (err e) = now
    rebuilt_entry k now (ok desired) = settled_entry w router now (get desired k)
