-- ===== src/Dispatcher/Registrar/Apply.antt =====
-- registrar.go, applyRoutes: the routes that the lambdas ask for, and how the table is brought to them.
-- The router is two functions: the errors of DeactivateRoute and ActivateRoute, which the loops ask at
-- most once for each route; a nil router is the two functions that give none. Go visits its maps in any
-- order, here in the order of the lists.
use meltica_gateway.Common.{
  Bool, true, false, Option, none, some, is_some, List, [], ◌∷◌, ◌++◌, if◌then◌else◌, or_else,
}
use meltica_gateway.Common.Text.{Text}
use meltica_gateway.Common.Map.{Map, get, put}
use meltica_gateway.Common.Exec.{Result, ok, err}
use meltica_gateway.Schema.Route.{validate_route_type, RouteTypeError}
use meltica_gateway.Dispatcher.Table.{
  Table, Route, RouteKey, RouteError, route_key, normalize_key, upsert, remove, next_version,
}
use meltica_gateway.Dispatcher.Filters.{AnyWriter, merge_filters}
use meltica_gateway.Dispatcher.Compare.{equal_routes}
use meltica_gateway.Dispatcher.Registrar.{Lambdas, RouteDeclaration}

-- What applyRoutes reports, errors.Join being a list.
pub data ApplyError : Type 0 where
  context_over : ApplyError
  declared_type : RouteTypeError → ApplyError
  deactivate_failed activate_failed : Text → Text → Text → ApplyError
  refused : RouteError → ApplyError

-- The variables of the two loops.
pub record Applied (V : Type 0) : Type 0 where
  pub table : Table V
  pub errs : List ApplyError
  pub changed : Bool

-- ProviderRouter
pub record Router (V : Type 0) : Type 0 where
  pub deactivate : Route V → Option Text
  pub activate : Route V → Option Text

abbrev pub Routes : Type 0 → Type 0
Routes V = Map RouteKey (Route V)

-- A loop over the entries of a map.
unfoldable pub each_route :
    {V : Type 0} → (RouteKey × Route V → Applied V → Applied V) → Routes V → Applied V → Applied V
each_route step [] st = st
each_route step (entry ∷ m) st = each_route step m (step entry st)

module _ (w : AnyWriter) where
  open w use {any}
  open w.any use {V}

  -- The route that a declaration starts from.
  unfoldable pub empty_route : Text → Text → Route V
  empty_route provider kind = record {
    provider = provider;
    kind = kind;
    ws_topics = [];
    rest_fns = [];
    filters = [];
  }

  -- One round of the inner loop.
  unfoldable pub declare_route : Text → Routes V → RouteDeclaration V → Routes V
  declare_route provider desired decl =
      let key = normalize_key provider decl.kind in
      let route = or_else (get desired key) (empty_route provider decl.kind) in
      put desired key (record route { filters = merge_filters w route.filters decl.filters })

  unfoldable pub declare_routes :
      Text → List (RouteDeclaration V) → Routes V → Result RouteTypeError (Routes V)
  declare_routes provider [] desired = ok desired
  declare_routes provider (decl ∷ decls) desired =
      let rest = declare_routes provider decls (declare_route provider desired decl) in
      elim (validate_route_type decl.kind) [ some e ↦ err e | none ↦ rest ]

  unfoldable pub declare_providers :
      List Text → List (RouteDeclaration V) → Routes V → Result RouteTypeError (Routes V)
  declare_providers [] decls desired = ok desired
  declare_providers (provider ∷ providers) decls desired =
      elim (declare_routes provider decls desired) [
        | err e ↦ err e
        | ok desired' ↦ declare_providers providers decls desired'
      ]

  -- The first loop of applyRoutes.
  unfoldable pub build_desired : Lambdas V → Routes V → Result RouteTypeError (Routes V)
  build_desired [] desired = ok desired
  build_desired ((id, reg) ∷ state) desired =
      elim (declare_providers reg.providers reg.routes desired) [
        | err e ↦ err e
        | ok desired' ↦ build_desired state desired'
      ]

  module _ (router : Router V) where
    -- One round of the loop that removes obsolete routes.
    unfoldable pub drop_route : Routes V → RouteKey × Route V → Applied V → Applied V
    drop_route desired (key, existing) st =
        if is_some (get desired key) then st else elim (router.deactivate existing) [
          | some e ↦ record st {
            errs = st.errs ++ deactivate_failed existing.provider existing.kind e ∷ [];
          }
          | none ↦ record st {
            table = remove st.table existing.provider existing.kind;
            changed = true;
          }
        ]

    -- The current table has the same route under the key, given what it has there.
    unfoldable pub is_settled : Option (Route V) → Route V → Bool
    is_settled none route = false
    is_settled (some existing) route = equal_routes w existing route

    -- What follows the table's answer.
    unfoldable pub record_upsert : Applied V → Option RouteError × Table V → Applied V
    record_upsert st (some e, t) = record st { table = t; errs = st.errs ++ refused e ∷ [] }
    record_upsert st (none, t) = record st { table = t; changed = true }

    -- One round of the loop that adds or updates desired routes.
    unfoldable pub raise_route : Routes V → RouteKey × Route V → Applied V → Applied V
    raise_route current (key, route) st =
        if is_settled (get current key) route then st else elim (router.activate route) [
          | some e ↦ record st {
            errs = st.errs ++ activate_failed route.provider route.kind e ∷ [];
          }
          | none ↦ record_upsert st (upsert st.table route)
        ]

    -- The rest of applyRoutes, from the snapshot of the table on.
    unfoldable pub settle_routes : Routes V → Table V → Applied V
    settle_routes desired table = each_route (raise_route table.routes) desired (
        each_route (drop_route desired) table.routes
          (record { table = table; errs = []; changed = false }))

    unfoldable pub bump : Applied V → List ApplyError × Table V
    bump st = (st.errs, if st.changed then (next_version st.table).1 else st.table)

    -- applyRoutes after its first loop.
    unfoldable pub apply_desired :
        Table V → Result RouteTypeError (Routes V) → List ApplyError × Table V
    apply_desired table (err e) = (declared_type e ∷ [], table)
    apply_desired table (ok desired) = bump (settle_routes desired table)

    -- applyRoutes
    unfoldable pub apply_routes : Bool → Lambdas V → Table V → List ApplyError × Table V
    apply_routes over state table =
        if over then (context_over ∷ [], table) else apply_desired table (build_desired state [])
