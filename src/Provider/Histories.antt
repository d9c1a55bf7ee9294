-- ===== src/Provider/Histories.antt =====
-- What every history of steps keeps, where the parts of a start and of Create's rollback find their
-- provider not running, and what happens where they do not.
use meltica_gateway.Common.{
  ℕ, Bool, not, ◌≡◌, refl, ◌∙◌, Option, none, some, is_some, List, [], ◌∷◌, Option-cases, inl, inr,
  if◌then◌else◌, option-both, if-both, arith,
}
use meltica_gateway.Common.Text.{Text, text_beq, text_beq_iff, text_eq, trim_space}
use meltica_gateway.Common.Map.{get, put, get-put_self}
use meltica_gateway.Lambda.Accounting.{bases_of}
use meltica_gateway.Provider.Manager.{
  Parts, ProviderSpec, ProviderState, Manager, World, pending, ProviderError, Snapshot, Call,
  creates, updates, removes, stops, starts, restores, activates, begins, finishes, rolls_back,
  no_providers, fresh_state, persist_snapshot, stopped_state, cancel_state, start_provider_runtime,
  started_state, start_provider, create_provider, replace_spec, update_provider, remove_provider,
  stop_provider, restore_provider, activate_route, normalize_provider_spec,
  normalize_restored_status, status_from_string, is_starting_status, perform, perform_all,
}
use meltica_gateway.Provider.Sound.{
  IsSound, is_running_status, starts_of, persist_snapshot-IsSound, persist_routes-IsSound,
  put_state, same_starts, cancel_state-starts,
}
use meltica_gateway.Provider.Starts.{
  persist_snapshot-states, IsIdle, prepare_provider_start-IsSound, start_provider_runtime-IsSound,
  start_provider-IsSound,
}
use meltica_gateway.Provider.Changes.{
  normalize_restored_status-idle, forget_provider-IsSound, put_fresh-IsSound, start_provider-failed,
  stopped_state-IsSteady, persist_snapshot-live, no_starts,
}

module _ {p : Parts} where
  create_provider-IsSound :
      (w : World p) (given : ProviderSpec p.Config) (start : Bool) (m : Manager p)
      → IsSound m
      → IsSound ((create_provider w given start m).1)
  unfolding create_provider is_running_status fresh_state
  create_provider-IsSound w given start m s =
      let spec = normalize_provider_spec given in
      let made : Manager p =
        persist_snapshot (record m { states = put m.states spec.name (fresh_state spec pending) })
          spec.name in
      if-both (λ (r : Option ProviderError × Manager p). IsSound (r.1)) (text_beq spec.name [])
        (λ _. s)
        (λ _.
          if-both (λ (r : Option ProviderError × Manager p). IsSound (r.1)) w.ended (λ _. s)
            (λ _.
              if-both (λ (r : Option ProviderError × Manager p). IsSound (r.1))
                (is_some (get m.states spec.name)) (λ _. s)
                (λ new.
                  let missing : get m.states spec.name ≡ none = ground (arith, new) in
                  let sound : IsSound made =
                    persist_snapshot-IsSound _ spec.name
                      (put_fresh-IsSound m spec pending [] refl missing s) in
                  let begun : IsSound ((start_provider w spec.name made).1) =
                    start_provider-IsSound w spec.name made sound in
                  if-both (λ (r : Option ProviderError × Manager p). IsSound (r.1)) (not start)
                    (λ _. sound)
                    (λ _.
                      if-both (λ (r : Option ProviderError × Manager p). IsSound (r.1))
                        (is_some ((start_provider w spec.name made).0))
                        (λ failed_start.
                          let same : (start_provider w spec.name made).1.live ≡ m.live =
                            start_provider-failed w spec.name made failed_start
                            ∙ persist_snapshot-live _ spec.name in
                          forget_provider-IsSound spec.name
                            ((start_provider w spec.name made).1.live) _
                            (λ j. rw same (no_starts m spec.name j missing s)) begun)
                        (λ _. begun)))))

  replace_spec-IsSound :
      (w : World p) (spec : ProviderSpec p.Config) (st : ProviderState p) (m : Manager p)
      → get m.states spec.name ≡ some st
      → IsSound m
      → IsSound (replace_spec w spec st m)
  unfolding replace_spec starts_of
  replace_spec-IsSound w spec st m there s =
      let (steady, none_left) =
        stopped_state-IsSteady w spec.name st (s.steady spec.name st there) in
      let stored : IsSound (record m {
        states = put m.states spec.name (record (stopped_state w st) { spec = spec });
        live = cancel_state spec.name st m.live;
      }) =
        put_state m spec.name _ (cancel_state spec.name st m.live) m.next_start
          (record {
            has_instance = steady.has_instance;
            has_subscriptions = steady.has_subscriptions;
            has_status = steady.has_status;
            keyed = refl;
          })
          (λ j. rw none_left (cancel_state-starts m spec.name j st there s)) s in
      persist_snapshot-IsSound _ spec.name (
        if-both (λ (n : Manager p). IsSound n) st.is_running
          (λ _. persist_routes-IsSound _ spec.name stored) (λ _. stored))

  update_provider-IsSound :
      (w : World p) (given : ProviderSpec p.Config) (start : Bool) (m : Manager p)
      → IsSound m
      → IsSound ((update_provider w given start m).1)
  unfolding update_provider
  update_provider-IsSound w given start m s =
      let spec = normalize_provider_spec given in
      if-both (λ (r : Option ProviderError × Manager p). IsSound (r.1)) (text_beq spec.name [])
        (λ _. s)
        (λ _.
          if-both (λ (r : Option ProviderError × Manager p). IsSound (r.1)) w.ended (λ _. s)
            (λ _.
              option-both (λ (r : Option ProviderError × Manager p). IsSound (r.1))
                (get m.states spec.name) (λ _. s)
                (λ st there.
                  if-both (λ (r : Option ProviderError × Manager p). IsSound (r.1))
                    (is_starting_status st.status) (λ _. s)
                    (λ _.
                      if-both (λ (r : Option ProviderError × Manager p). IsSound (r.1)) start
                        (λ _.
                          start_provider-IsSound w spec.name _
                            (replace_spec-IsSound w spec st m there s))
                        (λ _. replace_spec-IsSound w spec st m there s)))))

  remove_provider-IsSound :
      (w : World p) (given : Text) (m : Manager p)
      → IsSound m
      → IsSound ((remove_provider w given m).1)
  unfolding remove_provider
  remove_provider-IsSound w given m s =
      let name = trim_space given in
      if-both (λ (r : Option ProviderError × Manager p). IsSound (r.1)) (text_beq name []) (λ _. s)
        (λ _.
          option-both (λ (r : Option ProviderError × Manager p). IsSound (r.1)) (get m.states name)
            (λ _. s)
            (λ st there.
              forget_provider-IsSound name (cancel_state name st m.live) m
                (λ j. cancel_state-starts m name j st there s) s))

  stop_provider-IsSound :
      (w : World p) (given : Text) (m : Manager p)
      → IsSound m
      → IsSound ((stop_provider w given m).1)
  unfolding stop_provider starts_of
  stop_provider-IsSound w given m s =
      let name = trim_space given in
      if-both (λ (r : Option ProviderError × Manager p). IsSound (r.1)) (text_beq name []) (λ _. s)
        (λ _.
          option-both (λ (r : Option ProviderError × Manager p). IsSound (r.1)) (get m.states name)
            (λ _. s)
            (λ st there.
              if-both (λ (r : Option ProviderError × Manager p). IsSound (r.1)) (not st.is_running)
                (λ _. s)
                (λ _.
                  let (steady, none_left) =
                    stopped_state-IsSteady w name st (s.steady name st there) in
                  persist_routes-IsSound _ name (
                    persist_snapshot-IsSound _ name (
                      put_state m name (stopped_state w st) (cancel_state name st m.live)
                        m.next_start steady
                        (λ j. rw none_left (cancel_state-starts m name j st there s)) s)))))

  restore_provider-IsSound :
      (snap : Snapshot p.Config) (routes : List p.Route) (m : Manager p)
      → IsSound m
      → IsSound (restore_provider snap routes m)
  unfolding restore_provider
  restore_provider-IsSound snap routes m s =
      let name = trim_space snap.name in
      if-both (λ (n : Manager p). IsSound n) (text_beq name []) (λ _. s)
        (λ _.
          if-both (λ (n : Manager p). IsSound n) (is_some (get m.states name)) (λ _. s)
            (λ new.
              put_fresh-IsSound m
                (record { name = name; adapter = trim_space snap.adapter; config = snap.config })
                (normalize_restored_status (status_from_string snap.status)) routes
                (normalize_restored_status-idle (status_from_string snap.status))
                (ground (arith, new)) s))

  activate_route-IsSound :
      (given : Text) (route : p.Route) (m : Manager p)
      → IsSound m
      → IsSound ((activate_route given route m).1)
  unfolding activate_route starts_of
  activate_route-IsSound given route m s =
      let name = trim_space given in
      if-both (λ (r : Option ProviderError × Manager p). IsSound (r.1)) (text_beq name []) (λ _. s)
        (λ _.
          option-both (λ (r : Option ProviderError × Manager p). IsSound (r.1)) (get m.states name)
            (λ _. s)
            (λ st there.
              option-both (λ (r : Option ProviderError × Manager p). IsSound (r.1)) st.subscriptions
                (λ _. s)
                (λ sub has.
                  if-both (λ (r : Option ProviderError × Manager p). IsSound (r.1))
                    (not st.is_running) (λ _. s)
                    (λ runs.
                      let steady = s.steady name st there in
                      put_state m name _ m.live m.next_start
                        (record {
                          has_instance = steady.has_instance;
                          has_subscriptions = ground (arith, runs);
                          has_status = steady.has_status;
                          keyed = steady.keyed;
                        })
                        (λ j. same_starts m name j st there s) s))))

  -- The second part of a start and the rollback of Create find their provider not running.
  unfoldable pub Fits : Call p → Manager p → Type 0
  Fits (finishes w name job) m = IsIdle m name
  Fits (rolls_back name) m = IsIdle m name
  Fits c m = Unit

  unfoldable pub IsOrderly : List (Call p) → Manager p → Type 0
  IsOrderly [] m = Unit
  IsOrderly (c ∷ calls) m = Fits c m × IsOrderly calls (perform c m)

  -- A provider that does not run has no live context.
  idle_starts :
      (m : Manager p) (name : Text)
      → IsIdle m name
      → IsSound m
      → (j : Text) → bases_of m.live j ≡ (if text_beq name j then [] else bases_of m.live j)
  unfolding IsIdle starts_of
  idle_starts m name idle s j = elim (Option-cases (get m.states name)) [
    | inl missing ↦ no_starts m name j missing s
    | inr (st, there) ↦
        let steady = s.steady name st there in
        let empty : starts_of (get m.states name) ≡ [] =
          ground (arith, there, idle st there, steady.has_instance) in
        let none_live : bases_of m.live name ≡ [] = s.tracked name ∙ empty in
        ground (arith, none_live, text_beq_iff name j)
  ]

  perform-IsSound : (c : Call p) (m : Manager p) → Fits c m → IsSound m → IsSound (perform c m)
  unfolding perform Fits
  perform-IsSound (creates w spec start) m fits s = create_provider-IsSound w spec start m s
  perform-IsSound (updates w spec start) m fits s = update_provider-IsSound w spec start m s
  perform-IsSound (removes w name) m fits s = remove_provider-IsSound w name m s
  perform-IsSound (stops w name) m fits s = stop_provider-IsSound w name m s
  perform-IsSound (starts w name) m fits s = start_provider-IsSound w name m s
  perform-IsSound (restores snap routes) m fits s = restore_provider-IsSound snap routes m s
  perform-IsSound (activates name route) m fits s = activate_route-IsSound name route m s
  perform-IsSound (begins name) m fits s = prepare_provider_start-IsSound (trim_space name) m s
  perform-IsSound (finishes w name job) m fits s =
      start_provider_runtime-IsSound w name job m fits s
  perform-IsSound (rolls_back name) m fits s =
      forget_provider-IsSound name m.live m (idle_starts m name fits s) s

  -- From a state of which what follows holds, whatever steps the manager takes, calls that are taken
  -- apart where they give the lock up included, while the second part of each start and each rollback of
  -- Create that are steps of their own find their provider not running: a provider runs, has the status
  -- of one that runs, an instance and its subscriptions, or none of these; and the contexts that are not
  -- cancelled are those of the instances, one each.
  pub run_providers-IsSound :
      (calls : List (Call p)) (m : Manager p)
      → IsOrderly calls m
      → IsSound m
      → IsSound (perform_all calls m)
  unfolding perform_all IsOrderly
  run_providers-IsSound [] m orderly s = s
  run_providers-IsSound (c ∷ calls) m (fits, orderly) s =
      run_providers-IsSound calls _ orderly (perform-IsSound c m fits s)

  pub no_providers-IsSound : IsSound (no_providers {p = p})
  unfolding no_providers bases_of starts_of get
  no_providers-IsSound = record {
    tracked = λ _. refl;
    steady = λ name st e. absurd (ground (arith, e));
  }

  -- A start on its own goroutine that ends while its provider runs already, as when the provider was
  -- removed, made again and started meanwhile: the instance that ran is forgotten, and its context
  -- stays without an owner.
  pub late_start_leaks :
      (w : World p) (name : Text) (job : ProviderSpec p.Config × List p.Route) (m : Manager p)
      (st : ProviderState p) (n : ℕ)
      → IsSound m
      → get m.states name ≡ some st
      → st.instance_no ≡ some n
      → w.create_error (job.0) ≡ none
      → let m' = (start_provider_runtime w name job m).1 in
        (bases_of m'.live name ≡ m.next_start ∷ n ∷ [])
        × (starts_of (get m'.states name) ≡ m.next_start ∷ [])
  unfolding bases_of starts_of started_state start_provider_runtime get
  late_start_leaks w name (spec, routes) m st n s there known creates_it =
      let old : bases_of m.live name ≡ n ∷ [] = s.tracked name ∙ rw there (rw known refl) in
      rw (start_provider_runtime, creates_it, there)
        (
          rw (persist_snapshot-live _ name) (ground (arith, old, text_beq_iff name name)),
          rw (persist_snapshot-states _ name, get-put_self m.states name _) refl,
        )
