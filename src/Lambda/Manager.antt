-- ===== src/Lambda/Manager.antt =====
-- manager.go: what Create, Start, Stop, Remove and Update do.
mod State
unfoldable pub use State.*
use meltica_gateway.Common.{
  ℕ, ◌+◌, Bool, true, false, not, ◌&&◌, ◌||◌, Option, none, some, is_some, is_none, List, [], ◌∷◌,
  ◌++◌, is_nil, length, ltb, nat_eq, if◌then◌else◌,
}
use meltica_gateway.Common.Text.{Text, text_beq, text_eq, trim_space, to_lower}
use meltica_gateway.Common.Map.{Map, get, put, delete}
use meltica_gateway.Common.Exec.{Result, ok, err}
use meltica_gateway.Schema.Order.{Time}
use meltica_gateway.Dispatcher.Table.Match.{has_text}
use meltica_gateway.Dispatcher.Filters.{add_text}
use meltica_gateway.Lambda.Spec.{
  StrategySpec, LambdaSpec, sanitize_spec, all_symbols, equal_string_slices, equal_provider_symbols,
}
use meltica_gateway.Lambda.Usage.{
  RevisionUsage, remove_text, revision_key, ensure_revision_usage, mark_instance_running,
  mark_instance_stopped,
}

module _ {C : Type 0} where
  -- The end of ensureSpec, where the strategy is there.
  unfoldable pub store_spec : Manager C → LambdaSpec C → Manager C
  store_spec m spec =
      persist_strategy
        (record m {
          usage = ensure_revision_usage m.usage spec.strategy;
          specs = put m.specs spec.id spec;
        })
        spec.id

  -- ensureSpec: the spec with its strategy resolved, or an error and an unchanged manager.
  unfoldable pub ensure_spec :
      World C → Bool → LambdaSpec C → Manager C → Result ManagerError (LambdaSpec C) × Manager C
  ensure_spec w allow_replace spec m = elim (resolve_strategy w spec.strategy) [
    | err e ↦ (err e, m)
    | ok strategy ↦
        let resolved = record spec { strategy = strategy } in
        if not (w.strategies (to_lower (trim_space strategy.identifier)))
        then (err not_registered, m)
        else if is_some (get m.specs spec.id) && not allow_replace
        then (err instance_exists, m)
        else (ok resolved, store_spec m resolved)
  ]

  -- Create after its tests.
  unfoldable pub mark_created : Text → Manager C → Manager C
  mark_created id m =
      persist_strategy
        (record m {
          baseline = set_flag m.baseline id false;
          dynamic_instances = set_flag m.dynamic_instances id true;
        })
        id

  -- Create
  unfoldable pub create : World C → LambdaSpec C → Manager C → Option ManagerError × Manager C
  create w given m =
      let spec = sanitize_spec given in
      if text_beq spec.id [] || is_nil spec.providers || text_beq spec.strategy.identifier []
      then (some fields_required, m)
      else if is_nil (all_symbols spec)
      then (some symbols_required, m)
      else (let (r, m') = ensure_spec w false spec m in
          elim r [ err e ↦ (some e, m') | ok resolved ↦ (none, mark_created spec.id m') ])

  -- specForID
  unfoldable pub spec_for_id : Manager C → Text → Option (LambdaSpec C)
  spec_for_id m id = if text_beq (trim_space id) [] then none else get m.specs (trim_space id)

  -- launch up to the registration of the routes: whether there are any.
  unfoldable pub prepare : World C → LambdaSpec C → Result ManagerError Bool
  prepare w spec =
      if is_nil spec.providers
      then err providers_required
      else elim (resolve_providers w.has_provider spec.providers) [
        | err e ↦ err e
        | ok resolved ↦ if is_nil resolved then err no_valid_providers else elim (w.build spec) [
          | none ↦ err build_failed
          | some built ↦
              if ltb 1 (length resolved) && not built.wants_cross_provider
              then err no_cross_provider
              else ok built.has_routes
        ]
      ]

  -- The end of launch, after the base started.
  unfoldable pub finish_launch : World C → LambdaSpec C → Manager C → Manager C
  finish_launch w spec m =
      persist_strategy
        (record m {
          usage = mark_instance_running m.usage spec.strategy spec.id w.now;
          instances =
              put m.instances spec.id
                (record { base = m.next_base; rev_key = revision_key spec.strategy });
          live = (spec.id, m.next_base) ∷ m.live;
          next_base = m.next_base + 1;
        })
        spec.id

  -- launch once the routes are known: they are registered before the base starts, and taken back if it
  -- does not.
  unfoldable pub run_base :
      World C → LambdaSpec C → Bool → Manager C → Option ManagerError × Manager C
  run_base w spec has_routes m =
      if has_routes && not (w.registers spec.id)
      then (some register_failed, m)
      else (let m' =
            if has_routes then record m { registered = add_text m.registered spec.id } else m in
          if w.starts spec.id then (none, finish_launch w spec m') else (
            some start_failed,
            if has_routes then record m' { registered = remove_text m'.registered spec.id } else m',
          ))

  -- launch
  unfoldable pub launch : World C → LambdaSpec C → Manager C → Option ManagerError × Manager C
  launch w spec m = elim (prepare w spec) [
    | err e ↦ (some e, m)
    | ok has_routes ↦ run_base w spec has_routes m
  ]

  -- The test of Start: the spec that it goes on to launch.
  unfoldable pub check_start : Text → Manager C → Result ManagerError (LambdaSpec C)
  check_start id m = elim (spec_for_id m id) [
    | none ↦ err instance_not_found
    | some spec ↦ if is_some (get m.instances spec.id) then err already_running else ok spec
  ]

  -- Start, with nothing between its test and the launch. The lock is given up there; Lambda.Race has the
  -- two parts apart.
  unfoldable pub start : World C → Text → Manager C → Option ManagerError × Manager C
  start w id m = elim (check_start id m) [ err e ↦ (some e, m) | ok spec ↦ launch w spec m ]

  -- Stop of an instance that runs.
  unfoldable pub end_instance : World C → Text → Instance → Manager C → Manager C
  end_instance w id inst m =
      persist_strategy
        (record m {
          instances = delete m.instances id;
          usage = mark_instance_stopped m.usage inst.rev_key id w.now;
          live = cancel m.live id inst.base;
          registered = remove_text m.registered id;
        })
        id

  -- Stop
  unfoldable pub stop : World C → Text → Manager C → Option ManagerError × Manager C
  stop w given m =
      let id = trim_space given in
      elim (get m.instances id) [
        | some inst ↦ (none, end_instance w id inst m)
        | none ↦ (if is_some (get m.specs id) then some not_running else some instance_not_found, m)
      ]

  -- The end of Remove, which takes the id as it was given.
  unfoldable pub forget : Text → Manager C → Option ManagerError × Manager C
  forget id m = if is_none (get m.specs id) then (some instance_not_found, m) else (
    none,
    record m {
      specs = delete m.specs id;
      baseline = remove_text m.baseline (flag_key id);
      dynamic_instances = remove_text m.dynamic_instances (flag_key id);
      stored = delete m.stored id;
    },
  )

  -- Remove
  unfoldable pub remove : World C → Text → Manager C → Option ManagerError × Manager C
  remove w id m = let (e, m') = stop w id m in if is_stopped e then forget id m' else (e, m')

  -- What Update does after ensureSpec.
  unfoldable pub relaunch :
      World C → LambdaSpec C → Bool → Manager C → Option ManagerError × Manager C
  relaunch w spec was_running m =
      let (e, m') = stop w spec.id m in
      if not (is_stopped e) then (e, m') else if was_running then launch w spec m' else (none, m')

  -- Update
  unfoldable pub update : World C → LambdaSpec C → Manager C → Option ManagerError × Manager C
  update w given m =
      let spec = sanitize_spec given in
      let was_running = is_some (get m.instances spec.id) in
      if text_beq spec.id [] then (some instance_not_found, m) else elim (get m.specs spec.id) [
        | none ↦ (some instance_not_found, m)
        | some current ↦
            if not (equal_string_slices current.providers spec.providers)
            then (some providers_immutable, m)
            else if not (equal_provider_symbols current.provider_symbols spec.provider_symbols)
            then (some scope_immutable, m)
            else if not (text_beq current.strategy.identifier spec.strategy.identifier)
            then (some strategy_immutable, m)
            else (let (r, m') = ensure_spec w true spec m in
                elim r [ err e ↦ (some e, m') | ok resolved ↦ relaunch w resolved was_running m' ])
      ]
