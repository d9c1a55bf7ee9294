-- ===== src/Lambda/Manager/State.antt =====
-- manager.go: the state of a manager that has a registrar and a store. What surrounds the manager is a
-- record of its answers: the loaded strategies, the references that the JavaScript loader resolves, the
-- providers, and whether routes are registered and a lambda's base starts.
use meltica_gateway.Common.{
  ℕ, Bool, true, false, not, ◌&&◌, ◌||◌, Option, none, some, is_some, List, [], ◌∷◌, ◌++◌, nat_eq,
  if◌then◌else◌,
}
use meltica_gateway.Common.Text.{Text, text_beq, text_eq, trim_space, to_lower}
use meltica_gateway.Common.Map.{Map, get, put}
use meltica_gateway.Common.Exec.{Result, ok, err}
use meltica_gateway.Schema.Order.{Time}
use meltica_gateway.Dispatcher.Table.Match.{has_text}
use meltica_gateway.Dispatcher.Filters.{add_text}
use meltica_gateway.Lambda.Spec.{StrategySpec, LambdaSpec}
use meltica_gateway.Lambda.Usage.{RevisionUsage, remove_text}

-- lambdaInstance: the number of its base, which runs until it is cancelled, and its revision's key.
pub record Instance : Type 0 where
  pub base : ℕ
  pub rev_key : Text

-- strategystore.Snapshot
pub record Snapshot (C : Type 0) : Type 0 where
  pub id : Text
  pub strategy : StrategySpec C
  pub providers : List Text
  pub provider_symbols : Map Text (List Text)
  pub running : Bool
  pub is_dynamic : Bool
  pub is_baseline : Bool

-- Manager. `registered` has the ids whose routes the registrar has, `live` the bases that were started
-- and not cancelled, with their ids, and `stored` what the strategy store was told.
pub record Manager (C : Type 0) : Type 0 where
  pub specs : Map Text (LambdaSpec C)
  pub instances : Map Text Instance
  pub usage : Map Text RevisionUsage
  pub baseline : List Text
  pub dynamic_instances : List Text
  pub registered : List Text
  pub live : List (Text × ℕ)
  pub next_base : ℕ
  pub stored : Map Text (Snapshot C)

-- ModuleResolution
pub record Resolution : Type 0 where
  pub name : Text
  pub hash : Text
  pub tag : Text

-- A strategy that was built: whether it wants events of several providers, and whether it has routes.
pub record Built : Type 0 where
  pub wants_cross_provider : Bool
  pub has_routes : Bool

-- What surrounds the manager during a call. `resolve` is ResolveReference, if there is a loader.
pub record World (C : Type 0) : Type 0 where
  pub strategies : Text → Bool
  pub dynamic : Text → Bool
  pub resolve : Option (Text → Option Resolution)
  pub has_provider : Text → Bool
  pub build : LambdaSpec C → Option Built
  pub registers : Text → Bool
  pub starts : Text → Bool
  pub now : Time

pub data ManagerError : Type 0 where
  fields_required symbols_required loader_unavailable unresolved not_registered : ManagerError
  instance_exists instance_not_found already_running not_running : ManagerError
  providers_required provider_unavailable no_valid_providers build_failed no_cross_provider
        register_failed start_failed :
      ManagerError
  providers_immutable scope_immutable strategy_immutable load_failed : ManagerError

-- strings.ContainsAny(s, ":@")
unfoldable pub has_mark : Text → Bool
has_mark [] = false
has_mark (c ∷ s) = nat_eq c b':' || nat_eq c b'@' || has_mark s

unfoldable pub has_char : ℕ → Text → Bool
has_char d [] = false
has_char d (c ∷ s) = nat_eq c d || has_char d s

-- canonicalSelector
unfoldable pub canonical_selector : Text → Resolution → Text
canonical_selector raw res =
    let lowered = to_lower (trim_space res.name) in
    let name = if text_beq lowered [] then to_lower (trim_space raw) else lowered in
    let trimmed = trim_space raw in
    if text_beq trimmed []
    then name
    else if has_char b'@' trimmed && not (text_beq res.hash [])
    then name ++ b'@' ∷ res.hash
    else if has_char b':' trimmed && not (text_beq res.tag [])
    then name ++ b':' ∷ res.tag
    else name

-- The key of an instance in the sets of flags.
unfoldable pub flag_key : Text → Text
flag_key id = to_lower (trim_space id)

-- setBaselineInstance and setDynamicInstance on their set.
unfoldable pub set_flag : List Text → Text → Bool → List Text
set_flag set id true = add_text set (flag_key id)
set_flag set id false = remove_text set (flag_key id)

-- The loop of launch over the providers' names.
unfoldable pub resolve_providers : (Text → Bool) → List Text → Result ManagerError (List Text)
resolve_providers has_provider [] = ok []
resolve_providers has_provider (name ∷ names) =
    let rest = resolve_providers has_provider names in
    if text_beq (trim_space name) []
    then rest
    else if not (has_provider (trim_space name))
    then err provider_unavailable
    else elim rest [ err e ↦ err e | ok resolved ↦ ok (trim_space name ∷ resolved) ]

-- inst.cancel(): a base of an id does not run any more.
unfoldable pub cancel : List (Text × ℕ) → Text → ℕ → List (Text × ℕ)
cancel [] id base = []
cancel ((j, p) ∷ live) id base =
    let rest = cancel live id base in if text_beq j id && nat_eq p base then rest else (j, p) ∷ rest

-- errors.Is(err, ErrInstanceNotRunning), or no error.
unfoldable pub is_stopped : Option ManagerError → Bool
is_stopped none = true
is_stopped (some not_running) = true
is_stopped (some e) = false

module _ {C : Type 0} where
  -- NewManager
  unfoldable pub new_manager : Manager C
  new_manager = record {
    specs = [];
    instances = [];
    usage = [];
    baseline = [];
    dynamic_instances = [];
    registered = [];
    live = [];
    next_base = 0;
    stored = [];
  }

  -- A strategy after ResolveReference gave its module.
  unfoldable pub pin : StrategySpec C → Text → Resolution → StrategySpec C
  pin s raw res = record s {
    identifier = res.name;
    hash = res.hash;
    tag = res.tag;
    selector = canonical_selector raw res;
  }

  -- The part of ensureSpec that resolves the strategy.
  unfoldable pub resolve_strategy : World C → StrategySpec C → Result ManagerError (StrategySpec C)
  resolve_strategy w s =
      let raw = trim_space s.identifier in
      if has_mark raw || w.dynamic (to_lower raw)
      then elim w.resolve [
        | none ↦ err loader_unavailable
        | some resolve ↦ elim (resolve raw) [
          | none ↦ err unresolved
          | some res ↦ ok (pin s raw res)
        ]
      ]
      else ok (record s { identifier = to_lower raw; selector = to_lower raw; hash = []; tag = [] })

  -- strategySnapshot
  unfoldable pub strategy_snapshot : Manager C → LambdaSpec C → Snapshot C
  strategy_snapshot m spec = record {
    id = spec.id;
    strategy = spec.strategy;
    providers = spec.providers;
    provider_symbols = spec.provider_symbols;
    running = is_some (get m.instances spec.id);
    is_dynamic = has_text m.dynamic_instances (flag_key spec.id);
    is_baseline = has_text m.baseline (flag_key spec.id);
  }

  -- persistStrategy
  unfoldable pub persist_strategy : Manager C → Text → Manager C
  persist_strategy m id = elim (get m.specs id) [
    | none ↦ m
    | some spec ↦ record m { stored = put m.stored id (strategy_snapshot m spec) }
  ]
