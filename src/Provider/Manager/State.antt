-- ===== src/Provider/Manager/State.antt =====
-- manager.go: the state of a provider and of the manager, what is persisted, and a state that is
-- stopped.
use meltica_gateway.Common.{
  ℕ, Bool, true, false, not, Option, none, some, List, [], ◌∷◌, if◌then◌else◌,
}
use meltica_gateway.Common.Text.{Text, codes, text_beq, text_eq, trim_space, to_lower}
use meltica_gateway.Common.Map.{Map, get, put}
use meltica_gateway.Lambda.Manager.{cancel}

-- config.ProviderSpec; `C` is the type of its configuration.
pub record ProviderSpec (C : Type 0) : Type 0 where
  pub name : Text
  pub adapter : Text
  pub config : C

pub data Status : Type 0 where
  pending starting running stopped failed : Status

-- The types that the manager only passes on: configurations, routes, the subscription managers of
-- instances, and instruments.
pub record Parts : Type 1 where
  pub Config : Type 0
  pub Route : Type 0
  pub Subscriptions : Type 0
  pub Instrument : Type 0
  -- NewSubscriptionManager, Activate and what it leaves whether or not it fails, Snapshot.
  pub new_subscriptions : Subscriptions
  pub activate : Subscriptions → Route → Subscriptions
  pub snapshot : Subscriptions → List Route
  -- route.Provider = name
  pub with_provider : Route → Text → Route

-- providerState. An instance is the number of its start, which its cancel function shares.
pub record ProviderState (p : Parts) : Type 0 where
  pub spec : ProviderSpec p.Config
  pub instance_no : Option ℕ
  pub subscriptions : Option p.Subscriptions
  pub cached_routes : List p.Route
  pub cached_instruments : List p.Instrument
  pub is_running : Bool
  pub status : Status
  pub startup_err : Option Text

-- providerstore.Snapshot
pub record Snapshot (C : Type 0) : Type 0 where
  pub name : Text
  pub display_name : Text
  pub adapter : Text
  pub config : C
  pub status : Text

-- Manager with a store. `live` has the starts whose contexts are not cancelled, with their names.
pub record Manager (p : Parts) : Type 0 where
  pub states : Map Text (ProviderState p)
  pub live : List (Text × ℕ)
  pub next_start : ℕ
  pub stored : Map Text (Snapshot p.Config)
  pub stored_routes : Map Text (List p.Route)

-- What the registry and the instances answer during a call: the error of Create, the instruments of an
-- instance, and whether the context of the call is over.
pub record World (p : Parts) : Type 0 where
  pub create_error : ProviderSpec p.Config → Option Text
  pub instruments : ℕ → List p.Instrument
  pub ended : Bool

pub data ProviderError : Type 0 where
  name_required context_ended already_exists not_found already_running is_starting not_running :
      ProviderError
  startup_failed : Text → ProviderError

-- The constants of Status.
unfoldable pub status_text : Status → Text
status_text pending = codes "pending"
status_text starting = codes "starting"
status_text running = codes "running"
status_text stopped = codes "stopped"
status_text failed = codes "failed"

-- statusFromString
unfoldable pub status_from_string : Text → Status
status_from_string value =
    let s = to_lower (trim_space value) in
    if text_beq s (codes "pending")
    then pending
    else if text_beq s (codes "starting")
    then starting
    else if text_beq s (codes "running")
    then running
    else if text_beq s (codes "stopped")
    then stopped
    else if text_beq s (codes "failed")
    then failed
    else pending

-- normalizeRestoredStatus
unfoldable pub normalize_restored_status : Status → Status
normalize_restored_status pending = pending
normalize_restored_status running = stopped
normalize_restored_status starting = stopped
normalize_restored_status stopped = stopped
normalize_restored_status failed = failed

unfoldable pub is_starting_status : Status → Bool
is_starting_status starting = true
is_starting_status s = false

-- normalizeProviderSpec
unfoldable pub normalize_provider_spec : {C : Type 0} → ProviderSpec C → ProviderSpec C
normalize_provider_spec s = record s { name = trim_space s.name; adapter = trim_space s.adapter }

-- The loop over the cached routes.
unfoldable pub reapply_routes :
    (p : Parts) → Text → List p.Route → p.Subscriptions → p.Subscriptions
reapply_routes p name [] sub = sub
reapply_routes p name (r ∷ routes) sub =
    reapply_routes p name routes (p.activate sub (p.with_provider r name))

module _ {p : Parts} where
  open p use {Route}

  unfoldable pub no_providers : Manager p
  no_providers = record { states = []; live = []; next_start = 0; stored = []; stored_routes = [] }

  -- The state of a provider that has not been started.
  unfoldable pub fresh_state : ProviderSpec p.Config → Status → ProviderState p
  fresh_state spec status = record {
    spec = spec;
    instance_no = none;
    subscriptions = none;
    cached_routes = [];
    cached_instruments = [];
    is_running = false;
    status = status;
    startup_err = none;
  }

  -- snapshotFor
  unfoldable pub snapshot_for : ProviderState p → Snapshot p.Config
  snapshot_for s = record {
    name = s.spec.name;
    display_name = s.spec.name;
    adapter = s.spec.adapter;
    config = s.spec.config;
    status = status_text s.status;
  }

  -- persistSnapshot
  unfoldable pub persist_snapshot : Manager p → Text → Manager p
  persist_snapshot m name = elim (get m.states name) [
    | none ↦ m
    | some s ↦ record m { stored = put m.stored name (snapshot_for s) }
  ]

  -- persistRoutes
  unfoldable pub persist_routes : Manager p → Text → Manager p
  persist_routes m name = elim (get m.states name) [
    | none ↦ m
    | some s ↦ record m { stored_routes = put m.stored_routes name s.cached_routes }
  ]

  -- stopProviderLocked on a state.
  unfoldable pub stopped_state : World p → ProviderState p → ProviderState p
  stopped_state w s = if not s.is_running then s else record s {
    cached_instruments = elim s.instance_no [
      | none ↦ s.cached_instruments
      | some n ↦ w.instruments n
    ];
    cached_routes = elim s.subscriptions [ none ↦ s.cached_routes | some sub ↦ p.snapshot sub ];
    instance_no = none;
    subscriptions = none;
    is_running = false;
    status = stopped;
    startup_err = none;
  }

  -- The call of its cancel function.
  unfoldable pub cancel_state : Text → ProviderState p → List (Text × ℕ) → List (Text × ℕ)
  cancel_state name s live =
      if not s.is_running
      then live
      else elim s.instance_no [ none ↦ live | some n ↦ cancel live name n ]
