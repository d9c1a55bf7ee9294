-- ===== src/Dispatcher/Registrar/Settle.antt =====
-- Where the two loops of applyRoutes bring the routing table.
use meltica_gateway.Common.{
  Bool, false, ◌&&◌, ◌≡◌, refl, ap, ◌∙◌, Option, none, some, is_none, [], inl, inr, Option-cases,
  Bool-cases, if◌then◌else◌, ◌==◌, ==_refl,
}
use meltica_gateway.Common.Map.{get, get-delete}
use meltica_gateway.Dispatcher.Table.{
  Table, Route, RouteKey, RouteError, route_key, normalize_key, normalize_route, check_route,
  upsert, remove,
}
use meltica_gateway.Dispatcher.Table.Laws.{get-upsert}
use meltica_gateway.Dispatcher.Filters.{AnyWriter}
use meltica_gateway.Dispatcher.Compare.{equal_routes}
use meltica_gateway.Dispatcher.Registrar.Apply.{
  Applied, Router, Routes, drop_route, raise_route, each_route, record_upsert, is_settled,
  settle_routes,
}
use meltica_gateway.Dispatcher.Registrar.Keyed.{IsKeyed, after_each, get-each_route}

module _ (w : AnyWriter) (router : Router w.any.V) where
  open w use {any}
  open w.any use {V}

  -- What a round of the first loop leaves of a table's entry, given what is desired.
  unfoldable after_drop : Option (Route V) → Route V → Option (Route V) → Option (Route V)
  after_drop wanted existing now =
      if is_none wanted && is_none (router.deactivate existing) then none else now

  drop_route-table :
      (desired : Routes V) (key : RouteKey) (existing : Route V) (st : Applied V)
      → (drop_route w router desired (key, existing) st).table ≡ (
          if is_none (get desired key) && is_none (router.deactivate existing)
          then remove st.table existing.provider existing.kind
          else st.table)
  unfolding drop_route
  drop_route-table desired key existing st = elim (Option-cases (get desired key)) [
    | inl p ↦ elim (Option-cases (router.deactivate existing)) [
      | inl q ↦ rw (p, q)
      | inr (e, q) ↦ rw (p, q)
    ]
    | inr (r, p) ↦ rw p
  ]

  get-drop_self :
      (desired : Routes V) (key : RouteKey) (existing : Route V) (st : Applied V)
      → normalize_key existing.provider existing.kind ≡ key
      → get (drop_route w router desired (key, existing) st).table.routes key
        ≡ after_drop (get desired key) existing (get st.table.routes key)
  unfolding after_drop remove
  get-drop_self desired key existing st own =
      ap (λ t. get t.routes key) (drop_route-table desired key existing st)
      ∙ elim (Bool-cases (is_none (get desired key) && is_none (router.deactivate existing))) [
        | inl p ↦ rw p (
            get-delete st.table.routes (normalize_key existing.provider existing.kind) key
            ∙ rw (own, ==_refl key))
        | inr p ↦ rw p
      ]

  get-drop_other :
      (desired : Routes V) (key k : RouteKey) (existing : Route V) (st : Applied V)
      → normalize_key existing.provider existing.kind ≡ key
      → (key == k) ≡ false
      → get (drop_route w router desired (key, existing) st).table.routes k ≡ get st.table.routes k
  unfolding remove
  get-drop_other desired key k existing st own other =
      ap (λ t. get t.routes k) (drop_route-table desired key existing st)
      ∙ elim (Bool-cases (is_none (get desired key) && is_none (router.deactivate existing))) [
        | inl p ↦ rw p (
            get-delete st.table.routes (normalize_key existing.provider existing.kind) k
            ∙ rw (own, other))
        | inr p ↦ rw p
      ]

  -- What a round of the second loop leaves of it.
  unfoldable after_raise : Bool → Route V → Option (Route V) → Option (Route V)
  after_raise settled route now =
      if settled
      then now
      else if is_none (router.activate route) && is_none (check_route route)
      then some (normalize_route route)
      else now

  record_upsert-table :
      (st : Applied V) (answer : Option RouteError × Table V)
      → (record_upsert w router st answer).table ≡ answer.1
  unfolding record_upsert
  record_upsert-table st (some e, t) = refl
  record_upsert-table st (none, t) = refl

  raise_route-table :
      (current : Routes V) (key : RouteKey) (route : Route V) (st : Applied V)
      → (raise_route w router current (key, route) st).table ≡ (
          if is_settled w router (get current key) route
          then st.table
          else if is_none (router.activate route)
          then (upsert st.table route).1
          else st.table)
  unfolding raise_route
  raise_route-table current key route st =
      elim (Bool-cases (is_settled w router (get current key) route)) [
        | inl p ↦ rw p
        | inr p ↦ elim (Option-cases (router.activate route)) [
          | inl q ↦ rw (p, q) (record_upsert-table st (upsert st.table route))
          | inr (e, q) ↦ rw (p, q)
        ]
      ]

  get-raise_self :
      (current : Routes V) (key : RouteKey) (route : Route V) (st : Applied V)
      → normalize_key route.provider route.kind ≡ key
      → get (raise_route w router current (key, route) st).table.routes key
        ≡ after_raise (is_settled w router (get current key) route) route (get st.table.routes key)
  unfolding after_raise
  get-raise_self current key route st own =
      ap (λ t. get t.routes key) (raise_route-table current key route st)
      ∙ elim (Bool-cases (is_settled w router (get current key) route)) [
        | inl p ↦ rw p
        | inr p ↦ elim (Bool-cases (is_none (router.activate route))) [
          | inl q ↦
              rw (p, q)
                (get-upsert st.table route key
                  ∙ rw (own, ==_refl key)
                      (elim (Bool-cases (is_none (check_route route))) [
                        | inl c ↦ rw c
                        | inr c ↦ rw c
                      ]))
          | inr q ↦ rw (p, q)
        ]
      ]

  get-raise_other :
      (current : Routes V) (key k : RouteKey) (route : Route V) (st : Applied V)
      → normalize_key route.provider route.kind ≡ key
      → (key == k) ≡ false
      → get (raise_route w router current (key, route) st).table.routes k ≡ get st.table.routes k
  get-raise_other current key k route st own other =
      ap (λ t. get t.routes k) (raise_route-table current key route st)
      ∙ elim (Bool-cases (is_settled w router (get current key) route)) [
        | inl p ↦ rw p
        | inr p ↦ elim (Bool-cases (is_none (router.activate route))) [
          | inl q ↦
              rw (p, q)
                (get-upsert st.table route k
                  ∙ rw (own, other)
                      (elim (Bool-cases (is_none (check_route route))) [
                        | inl c ↦ rw c
                        | inr c ↦ rw c
                      ]))
          | inr q ↦ rw (p, q)
        ]
      ]

  -- What the table has under a key afterwards, from what it had and what is desired.
  unfoldable pub settled_entry : Option (Route V) → Option (Route V) → Option (Route V)
  settled_entry none none = none
  settled_entry (some existing) none =
      if is_none (router.deactivate existing) then none else some existing
  settled_entry none (some route) =
      if is_none (router.activate route) && is_none (check_route route)
      then some (normalize_route route)
      else none
  settled_entry (some existing) (some route) =
      if equal_routes w existing route
      then some existing
      else if is_none (router.activate route) && is_none (check_route route)
      then some (normalize_route route)
      else some existing

  get-dropped :
      (desired : Routes V) (k : RouteKey) (st : Applied V)
      → IsKeyed st.table.routes
      → get (each_route (drop_route w router desired) st.table.routes st).table.routes k
        ≡ (let now = get st.table.routes k in after_each (after_drop (get desired k)) now now)
  get-dropped desired k st keyed =
      get-each_route (drop_route w router desired) (λ key. after_drop (get desired key))
        (get-drop_self desired) (get-drop_other desired) st.table.routes k st keyed

  both_loops :
      (found wanted : Option (Route V))
      → after_each
          (λ r. after_raise (is_settled w router found r) r)
          wanted
          (after_each (after_drop wanted) found found)
        ≡ settled_entry found wanted
  unfolding after_each settled_entry after_raise after_drop is_settled
  both_loops none none = refl
  both_loops none (some r) = refl
  both_loops (some old) none = refl
  both_loops (some old) (some r) = refl

  pub get-settle_routes :
      (desired : Routes V) (table : Table V) (k : RouteKey)
      → IsKeyed table.routes
      → IsKeyed desired
      → get (settle_routes w router desired table).table.routes k
        ≡ settled_entry (get table.routes k) (get desired k)
  unfolding settle_routes
  get-settle_routes desired table k keyed wanted =
      get-each_route (raise_route w router table.routes)
        (λ key r. after_raise (is_settled w router (get table.routes key) r) r)
        (get-raise_self table.routes) (get-raise_other table.routes) desired k
        (each_route (drop_route w router desired) table.routes
          (record { table = table; errs = []; changed = false }))
        wanted
      ∙ ap
          (after_each (λ r. after_raise (is_settled w router (get table.routes k) r) r)
            (get desired k))
          (get-dropped desired k (record { table = table; errs = []; changed = false }) keyed)
      ∙ both_loops (get table.routes k) (get desired k)
