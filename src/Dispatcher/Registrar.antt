-- ===== src/Dispatcher/Registrar.antt =====
-- registrar.go: the routes that the registered lambdas ask for, and how the table is brought to them.
pub mod Apply
pub mod Keyed
pub mod Settle
pub mod Rebuild
mod Examples
use meltica_gateway.Common.{
  ℕ, Bool, true, false, not, ◌&&◌, ◌||◌, Option, none, some, is_some, is_none, List, [], ◌∷◌, ◌++◌,
  map, is_nil, if◌then◌else◌, or_else,
}
use meltica_gateway.Common.Text.{Text, text_beq, text_eq, trim_space}
use meltica_gateway.Common.Map.{Map, get, put, delete}
use meltica_gateway.Common.Exec.{Result, ok, err}
use meltica_gateway.Schema.Route.{normalize_route_type, validate_route_type, RouteTypeError}
use meltica_gateway.Dispatcher.Table.{
  Table, Route, RouteKey, RouteError, route_key, normalize_key, upsert, remove, next_version,
}
use meltica_gateway.Dispatcher.Filters.{AnyWriter, add_text, merge_filters}
use meltica_gateway.Dispatcher.Compare.{equal_routes}

-- RouteDeclaration
pub record RouteDeclaration (V : Type 0) : Type 0 where
  pub kind : Text
  pub filters : Map Text V

-- lambdaRegistration
pub record LambdaRegistration (V : Type 0) : Type 0 where
  pub providers : List Text
  pub routes : List (RouteDeclaration V)

-- LambdaBatchRegistration
pub record LambdaBatchRegistration (V : Type 0) : Type 0 where
  pub id : Text
  pub providers : List Text
  pub routes : List (RouteDeclaration V)

-- Why a registration is refused.
pub data RegistrarError : Type 0 where
  context_over lambda_id_required providers_required : RegistrarError
  route_type : RouteTypeError → RegistrarError

-- normalizeProviders: trimmed, without blanks and repetitions.
unfoldable pub keep_providers : List Text → List Text → List Text
keep_providers out [] = out
keep_providers out (raw ∷ providers) =
    let candidate = trim_space raw in
    keep_providers (if text_beq candidate [] then out else add_text out candidate) providers

unfoldable pub normalize_providers : List Text → List Text
normalize_providers providers = keep_providers [] providers

abbrev pub Lambdas : Type 0 → Type 0
Lambdas V = Map Text (LambdaRegistration V)

module _ {V : Type 0} where
  -- The loop over the routes of a registration.
  unfoldable pub normalize_routes :
      List (RouteDeclaration V) → Result RegistrarError (List (RouteDeclaration V))
  normalize_routes [] = ok []
  normalize_routes (route ∷ routes) = elim (validate_route_type route.kind) [
    | some e ↦ err (route_type e)
    | none ↦ elim (normalize_routes routes) [
      | err e ↦ err e
      | ok copied ↦ ok (record route { kind = normalize_route_type route.kind } ∷ copied)
    ]
  ]

  -- normalizeLambdaRegistration
  unfoldable pub normalize_registration :
      Text
      → List Text
      → List (RouteDeclaration V)
      → Result RegistrarError (Text × LambdaRegistration V)
  normalize_registration id providers routes =
      let kept = normalize_providers providers in
      if text_beq (trim_space id) []
      then err lambda_id_required
      else if is_nil kept
      then err providers_required
      else elim (normalize_routes routes) [
        | err e ↦ err e
        | ok copied ↦ ok (trim_space id, record { providers = kept; routes = copied })
      ]

  -- RegisterLambda: an error changes nothing. A rebuild follows a success.
  unfoldable pub register_lambda :
      Lambdas V
      → Bool
      → Text
      → List Text
      → List (RouteDeclaration V)
      → Option RegistrarError × Lambdas V
  register_lambda lambdas over id providers routes =
      if over
      then (some context_over, lambdas)
      else elim (normalize_registration id providers routes) [
        | err e ↦ (some e, lambdas)
        | ok (key, reg) ↦ (none, put lambdas key reg)
      ]

  -- The loop of RegisterLambdaBatch, into a map of its own.
  unfoldable pub normalize_batch :
      Lambdas V → List (LambdaBatchRegistration V) → Result RegistrarError (Lambdas V)
  normalize_batch normalized [] = ok normalized
  normalize_batch normalized (entry ∷ regs) =
      elim (normalize_registration entry.id entry.providers entry.routes) [
        | err e ↦ err e
        | ok (key, reg) ↦ normalize_batch (put normalized key reg) regs
      ]

  unfoldable pub put_all : Lambdas V → Lambdas V → Lambdas V
  put_all lambdas [] = lambdas
  put_all lambdas ((id, reg) ∷ regs) = put_all (put lambdas id reg) regs

  -- RegisterLambdaBatch: all of the registrations or none.
  unfoldable pub register_batch :
      Lambdas V → Bool → List (LambdaBatchRegistration V) → Option RegistrarError × Lambdas V
  register_batch lambdas over regs =
      if over then (some context_over, lambdas) else elim (normalize_batch [] regs) [
        | err e ↦ (some e, lambdas)
        | ok normalized ↦ (none, put_all lambdas normalized)
      ]

  -- UnregisterLambda
  unfoldable pub unregister_lambda : Lambdas V → Bool → Text → Option RegistrarError × Lambdas V
  unregister_lambda lambdas over id =
      if over
      then (some context_over, lambdas)
      else if text_beq (trim_space id) []
      then (none, lambdas)
      else (none, delete lambdas (trim_space id))
