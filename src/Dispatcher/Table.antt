-- ===== src/Dispatcher/Table.antt =====
-- table.go: the routing table. A filter's value has any type, V.
pub mod Laws
pub mod Match
use meltica_gateway.Common.{
  ℕ, ◌+◌, Bool, true, false, ◌&&◌, not, ◌≡◌, refl, ◌↔◌, Option, none, some, List, [], ◌∷◌, arith,
  if◌then◌else◌, Key, ◌==◌,
}
use meltica_gateway.Common.Text.{Text, to_lower, trim_space, text_beq, text_beq_iff, text_eq}
use meltica_gateway.Common.Map.{Map, get, put, delete}
use meltica_gateway.Common.Int.{ℤ, is_positive}
use meltica_gateway.Common.Exec.{Result, ok, err}
use meltica_gateway.Schema.Route.{normalize_route_type, validate_route_type, RouteTypeError}

-- RestFn
pub record RestFn : Type 0 where
  pub name : Text
  pub endpoint : Text
  pub interval : ℤ
  pub parser : Text

-- FilterRule
pub record FilterRule (V : Type 0) : Type 0 where
  pub field : Text
  pub op : Text
  pub value : V

-- Route
pub record Route (V : Type 0) : Type 0 where
  pub provider : Text
  pub kind : Text
  pub ws_topics : List Text
  pub rest_fns : List RestFn
  pub filters : List (FilterRule V)

-- RouteKey
pub record RouteKey : Type 0 where
  pub provider : Text
  pub kind : Text

unfoldable pub route_key_beq : RouteKey → RouteKey → Bool
route_key_beq a b = text_beq a.provider b.provider && text_beq a.kind b.kind

pub route_key_beq_iff : (a b : RouteKey) → (route_key_beq a b ≡ true) ↔ (a ≡ b)
unfolding route_key_beq
route_key_beq_iff a b =
    ground (arith, text_beq_iff a.provider b.provider, text_beq_iff a.kind b.kind)

instance abbrev pub route_key : Key RouteKey
route_key = record { same = route_key_beq; same_iff = route_key_beq_iff }

-- RouteKey{provider, type}.normalize()
unfoldable pub normalize_key : Text → Text → RouteKey
normalize_key provider kind = record {
  provider = trim_space (to_lower provider);
  kind = normalize_route_type kind;
}

-- Table
pub record Table (V : Type 0) : Type 0 where
  pub routes : Map RouteKey (Route V)
  pub version : ℕ

pub data RouteError : Type 0 where
  bad_type : RouteTypeError → RouteError
  provider_required : RouteError
  rest_name_required rest_endpoint_required rest_interval : RouteError
  filter_field_required filter_operator_required : RouteError

-- validateRestFn
unfoldable pub validate_rest_fn : RestFn → Option RouteError
validate_rest_fn fn =
    if text_beq (trim_space fn.name) []
    then some rest_name_required
    else if text_beq (trim_space fn.endpoint) []
    then some rest_endpoint_required
    else if is_positive fn.interval
    then none
    else some rest_interval

-- The first error of a loop of checks.
unfoldable pub first_error : {A : Type 0} → (A → Option RouteError) → List A → Option RouteError
first_error check [] = none
first_error check (x ∷ xs) =
    let rest = first_error check xs in elim (check x) [ some e ↦ some e | none ↦ rest ]

module _ {V : Type 0} where
  -- FilterRule.Validate
  unfoldable pub validate_filter : FilterRule V → Option RouteError
  validate_filter rule =
      if text_beq (trim_space rule.field) []
      then some filter_field_required
      else if text_beq (trim_space rule.op) []
      then some filter_operator_required
      else none

  -- NewTable
  unfoldable pub new_table : Table V
  new_table = record { routes = []; version = 0 }

  -- The route that Upsert stores.
  unfoldable pub normalize_route : Route V → Route V
  normalize_route r = record r {
    kind = normalize_route_type r.kind;
    provider = trim_space r.provider;
  }

  -- The checks of Upsert, in order.
  unfoldable pub check_route : Route V → Option RouteError
  check_route r = elim (validate_route_type r.kind) [
    | some e ↦ some (bad_type e)
    | none ↦
        if text_beq (trim_space r.provider) []
        then some provider_required
        else elim (first_error validate_rest_fn r.rest_fns) [
          | some e ↦ some e
          | none ↦ first_error validate_filter r.filters
        ]
  ]

  -- Upsert after its checks: what they refuse is not stored.
  unfoldable pub store : Option RouteError → Table V → Route V → Option RouteError × Table V
  store (some e) t r = (some e, t)
  store none t r =
      let stored = normalize_route r in
      (none, record t { routes = put t.routes (normalize_key stored.provider stored.kind) stored })

  -- Upsert
  unfoldable pub upsert : Table V → Route V → Option RouteError × Table V
  upsert t r = store (check_route r) t r

  -- Remove
  unfoldable pub remove : Table V → Text → Text → Table V
  remove t provider kind = record t { routes = delete t.routes (normalize_key provider kind) }

  -- Lookup
  unfoldable pub lookup : Table V → Text → Text → Option (Route V)
  lookup t provider kind = get t.routes (normalize_key provider kind)

  -- SetVersion and NextVersion
  unfoldable pub set_version : Table V → ℕ → Table V
  set_version t v = record t { version = v }

  unfoldable pub next_version : Table V → ℕ × Table V
  next_version t = (t.version + 1, record t { version = t.version + 1 })
