-- ===== src/Provider/Manager.antt =====
-- manager.go: what starts, stops and replaces the instance of a provider. The manager's lock is given
-- up between the parts of a start and before the rollback of Create, so each part is a function of its
-- own; StartProvider, Create and Update put the parts together as they run with no other call between
-- them.
mod State
unfoldable pub use State.*
use meltica_gateway.Common.{
  ℕ, ◌+◌, Bool, true, false, not, Option, none, some, is_some, List, [], ◌∷◌, is_nil, if◌then◌else◌,
}
use meltica_gateway.Common.Text.{Text, codes, text_beq, text_eq, trim_space, to_lower}
use meltica_gateway.Common.Map.{Map, get, put, delete}
use meltica_gateway.Common.Exec.{Result, ok, err}
use meltica_gateway.Lambda.Manager.{cancel}

module _ {p : Parts} where
  open p use {Route}

  -- prepareProviderStart: the spec and the cached routes of a provider that now is starting.
  unfoldable pub prepare_provider_start :
      Text → Manager p → Result ProviderError (ProviderSpec p.Config × List Route) × Manager p
  prepare_provider_start name m = elim (get m.states name) [
    | none ↦ (err not_found, m)
    | some s ↦
        if s.is_running
        then (err already_running, m)
        else if is_starting_status s.status
        then (err is_starting, m)
        else (
          ok (s.spec, s.cached_routes),
          persist_snapshot
              (record m {
                states = put m.states name (record s { status = starting; startup_err = none });
              })
              name,
        )
  ]

  -- recordProviderStartFailure
  unfoldable pub record_start_failure : Text → Text → Manager p → Manager p
  record_start_failure name e m = elim (get m.states name) [
    | none ↦ m
    | some s ↦
        persist_snapshot
          (record m {
            states = put m.states name (record s {
              instance_no = none;
              subscriptions = none;
              is_running = false;
              status = failed;
              startup_err = some e;
            });
          })
          name
  ]

  -- recordProviderStartSuccess, where there is a state, and the loop over the cached routes, which
  -- clears them.
  unfoldable pub started_state : Text → List Route → ℕ → ProviderState p → ProviderState p
  started_state name routes n s = record s {
    instance_no = some n;
    subscriptions = some (reapply_routes p name routes p.new_subscriptions);
    cached_routes = if is_nil routes then s.cached_routes else [];
    cached_instruments = [];
    is_running = true;
    status = running;
    startup_err = none;
  }

  -- startProviderRuntime
  unfoldable pub start_provider_runtime :
      World p
      → Text
      → ProviderSpec p.Config × List Route
      → Manager p
      → Option ProviderError × Manager p
  start_provider_runtime w name (spec, routes) m = elim (w.create_error spec) [
    | some e ↦ (some (startup_failed e), record_start_failure name e m)
    | none ↦ elim (get m.states name) [
      | none ↦ (some not_found, record m { next_start = m.next_start + 1 })
      | some s ↦ (
        none,
        persist_snapshot
            (record m {
              states = put m.states name (started_state spec.name routes m.next_start s);
              live = (name, m.next_start) ∷ m.live;
              next_start = m.next_start + 1;
            })
            name,
      )
    ]
  ]

  -- StartProvider after its tests.
  unfoldable pub start_checked : World p → Text → Manager p → Option ProviderError × Manager p
  start_checked w name m =
      let (r, m') = prepare_provider_start name m in
      elim r [ err e ↦ (some e, m') | ok job ↦ start_provider_runtime w name job m' ]

  -- StartProvider
  unfoldable pub start_provider : World p → Text → Manager p → Option ProviderError × Manager p
  start_provider w given m =
      if text_beq (trim_space given) []
      then (some name_required, m)
      else if w.ended
      then (some context_ended, m)
      else start_checked w (trim_space given) m

  -- The rollback of Create.
  unfoldable pub forget_provider : Text → Manager p → Manager p
  forget_provider name m = record m {
    states = delete m.states name;
    stored = delete m.stored name;
    stored_routes = delete m.stored_routes name;
  }

  -- Create
  unfoldable pub create_provider :
      World p → ProviderSpec p.Config → Bool → Manager p → Option ProviderError × Manager p
  create_provider w given start m =
      let spec = normalize_provider_spec given in
      let m' =
        persist_snapshot (record m { states = put m.states spec.name (fresh_state spec pending) })
          spec.name in
      let (e, started) = start_provider w spec.name m' in
      if text_beq spec.name []
      then (some name_required, m)
      else if w.ended
      then (some context_ended, m)
      else if is_some (get m.states spec.name)
      then (some already_exists, m)
      else if not start
      then (none, m')
      else if is_some e
      then (e, forget_provider spec.name started)
      else (none, started)

  -- The state of Update, stopped and with its new spec.
  unfoldable pub replace_spec :
      World p → ProviderSpec p.Config → ProviderState p → Manager p → Manager p
  replace_spec w spec s m =
      let m' = record m {
        states = put m.states spec.name (record (stopped_state w s) { spec = spec });
        live = cancel_state spec.name s m.live;
      } in
      persist_snapshot (if s.is_running then persist_routes m' spec.name else m') spec.name

  -- Update
  unfoldable pub update_provider :
      World p → ProviderSpec p.Config → Bool → Manager p → Option ProviderError × Manager p
  update_provider w given start m =
      let spec = normalize_provider_spec given in
      if text_beq spec.name []
      then (some name_required, m)
      else if w.ended
      then (some context_ended, m)
      else elim (get m.states spec.name) [
        | none ↦ (some not_found, m)
        | some s ↦
            if is_starting_status s.status
            then (some is_starting, m)
            else if start
            then start_provider w spec.name (replace_spec w spec s m)
            else (none, replace_spec w spec s m)
      ]

  -- Remove
  unfoldable pub remove_provider : World p → Text → Manager p → Option ProviderError × Manager p
  remove_provider w given m =
      let name = trim_space given in
      if text_beq name [] then (some name_required, m) else elim (get m.states name) [
        | none ↦ (some not_found, m)
        | some s ↦ (none, forget_provider name (record m { live = cancel_state name s m.live }))
      ]

  -- StopProvider
  unfoldable pub stop_provider : World p → Text → Manager p → Option ProviderError × Manager p
  stop_provider w given m =
      let name = trim_space given in
      if text_beq name [] then (some name_required, m) else elim (get m.states name) [
        | none ↦ (some not_found, m)
        | some s ↦ if not s.is_running then (some not_running, m) else (
          none,
          persist_routes
              (persist_snapshot
                (record m {
                  states = put m.states name (stopped_state w s);
                  live = cancel_state name s m.live;
                })
                name)
              name,
        )
      ]

  -- Restore, with the routes that the store has.
  unfoldable pub restore_provider : Snapshot p.Config → List Route → Manager p → Manager p
  restore_provider snap routes m =
      let name = trim_space snap.name in
      let spec : ProviderSpec p.Config = record {
        name = name;
        adapter = trim_space snap.adapter;
        config = snap.config;
      } in
      let s = fresh_state spec (normalize_restored_status (status_from_string snap.status)) in
      if text_beq name []
      then m
      else if is_some (get m.states name)
      then m
      else record m { states = put m.states name (record s { cached_routes = routes }) }

  -- ActivateRoute on the manager's subscriptions of the route's provider.
  unfoldable pub activate_route : Text → Route → Manager p → Option ProviderError × Manager p
  activate_route given route m =
      let name = trim_space given in
      if text_beq name [] then (some name_required, m) else elim (get m.states name) [
        | none ↦ (some not_found, m)
        | some s ↦ elim s.subscriptions [
          | none ↦ (some not_running, m)
          | some sub ↦ if not s.is_running then (some not_running, m) else (
            none,
            record m {
              states = put m.states name (record s { subscriptions = some (p.activate sub route) });
            },
          )
        ]
      ]

  -- The instance that SubmitOrder calls.
  unfoldable pub order_instance : Text → Manager p → Result ProviderError ℕ
  order_instance given m =
      let name = trim_space given in
      if text_beq name [] then err name_required else elim (get m.states name) [
        | none ↦ err not_found
        | some s ↦ elim s.instance_no [
          | none ↦ err not_running
          | some n ↦ if s.is_running then ok n else err not_running
        ]
      ]

-- A step of the manager. The first five are whole calls. The parts between which the lock is given up
-- are steps, too, so that calls can overlap: a start (StartProvider, StartProviderAsync) begins in one
-- step and ends in another; Create and Update with a start are Create and Update without one and the
-- steps of the start, and Create's rollback after a start that failed is a step.
pub data Call (p : Parts) : Type 0 where
  creates updates : World p → ProviderSpec p.Config → Bool → Call p
  removes stops starts : World p → Text → Call p
  restores : Snapshot p.Config → List p.Route → Call p
  activates : Text → p.Route → Call p
  begins : Text → Call p
  finishes : World p → Text → ProviderSpec p.Config × List p.Route → Call p
  rolls_back : Text → Call p

module _ {p : Parts} where
  unfoldable pub perform : Call p → Manager p → Manager p
  perform (creates w spec start) m = (create_provider w spec start m).1
  perform (updates w spec start) m = (update_provider w spec start m).1
  perform (removes w name) m = (remove_provider w name m).1
  perform (stops w name) m = (stop_provider w name m).1
  perform (starts w name) m = (start_provider w name m).1
  perform (restores snap routes) m = restore_provider snap routes m
  perform (activates name route) m = (activate_route name route m).1
  perform (begins name) m = (prepare_provider_start (trim_space name) m).1
  perform (finishes w name job) m = (start_provider_runtime w name job m).1
  perform (rolls_back name) m = forget_provider name m

  unfoldable pub perform_all : List (Call p) → Manager p → Manager p
  perform_all [] m = m
  perform_all (c ∷ calls) m = perform_all calls (perform c m)
