-- ===== src/Lambda/Histories.antt =====
-- What refreshes and restorations keep, and so every history of calls.
use meltica_gateway.Common.{
  Bool, true, not, ◌&&◌, ◌≡◌, refl, ◌∙◌, Option, List, [], ◌∷◌, is_nil, if◌then◌else◌, option-both,
  if-both, arith,
}
use meltica_gateway.Common.Text.{Text, text_beq, text_beq_iff, text_eq, to_lower, trim_space}
use meltica_gateway.Common.Map.{Map, get, get-put}
use meltica_gateway.Common.Exec.{result-both}
use meltica_gateway.Dispatcher.Table.Match.{has_text}
use meltica_gateway.Lambda.Spec.{LambdaSpec}
use meltica_gateway.Lambda.Manager.{
  Manager, World, Instance, Snapshot, set_flag, ensure_spec, new_manager,
}
use meltica_gateway.Lambda.Refresh.{
  Plan, RefreshResult, RefreshTargets, new_target_filter, match_spec, selector_of, resolve_selector,
  retire, repin, plan_instance, plan_instances, apply_updates, stop_all, start_all, empty_plan,
  carry_out, refresh,
}
use meltica_gateway.Lambda.Restore.{
  Call, creates, starts, stops, removes, updates, refreshes, restores, perform, perform_all,
  spec_from_snapshot, resume, restore_snapshot,
}
use meltica_gateway.Lambda.Accounting.{
  usage_has-ensure, usage_has, entry_has, bases_of, base_list, runs_under,
}
use meltica_gateway.Lambda.Own.{own_ids, own_ids-put}
use meltica_gateway.Lambda.Sound.{IsSound, start-IsSound, stop-IsSound}
use meltica_gateway.Lambda.Calls.{
  sanitize_spec-trimmed, ensure_spec-IsSound, create-IsSound, remove-IsSound, update-IsSound,
}

module _ {C : Type 0} where
  plan_instance-own :
      (w : World C) (id : Text) (spec : LambdaSpec C) (running : Bool) (plan : Plan C)
      → spec.id ≡ id
      → trim_space id ≡ id
      → own_ids plan.updates ≡ true
      → own_ids (plan_instance w id spec running plan).updates ≡ true
  unfolding plan_instance retire repin
  plan_instance-own w id spec running plan named trimmed own =
      if-both (λ (p : Plan C). own_ids p.updates ≡ true)
        (not (w.dynamic (to_lower (trim_space spec.strategy.identifier)))
          && text_beq spec.strategy.hash [])
        (λ _. own)
        (λ _.
          if-both (λ (p : Plan C). own_ids p.updates ≡ true)
            (not (match_spec plan.filter spec).matched) (λ _. own)
            (λ _.
              option-both (λ (p : Plan C). own_ids p.updates ≡ true)
                (resolve_selector w (selector_of spec.strategy)) (λ _. own)
                (λ res _. own_ids-put plan.updates id _ named trimmed own)))

  plan_instances-own :
      (w : World C) (instances : Map Text Instance) (specs : Map Text (LambdaSpec C))
      (plan : Plan C)
      → own_ids specs ≡ true
      → own_ids plan.updates ≡ true
      → own_ids (plan_instances w instances specs plan).updates ≡ true
  unfolding plan_instances own_ids
  plan_instances-own w instances [] plan own kept = kept
  plan_instances-own w instances ((id, spec) ∷ specs) plan own kept =
      plan_instances-own w instances specs _ (ground (arith, own)) (
        plan_instance-own w id spec _ plan (ground (arith, own, text_beq_iff spec.id id))
          (ground (arith, own, text_beq_iff (trim_space id) id)) kept)

  apply_updates-IsSound :
      (changed : Map Text (LambdaSpec C)) (m : Manager C)
      → own_ids changed ≡ true
      → IsSound m
      → IsSound (apply_updates changed m)
  unfolding apply_updates own_ids
  apply_updates-IsSound [] m own s = s
  apply_updates-IsSound ((id, spec) ∷ changed) m own s =
      apply_updates-IsSound changed _ (ground (arith, own)) (record {
        own =
            own_ids-put m.specs id spec (ground (arith, own, text_beq_iff spec.id id))
              (ground (arith, own, text_beq_iff (trim_space id) id)) s.own;
        accounted = λ j key. usage_has-ensure m.usage spec.strategy key j ∙ s.accounted j key;
        tracked = s.tracked;
        routed = s.routed;
        specified = λ j runs. ground (arith, get-put m.specs id j spec, s.specified j runs);
        named = s.named;
      })

  stop_all-IsSound :
      (w : World C) (ids : List Text) (m : Manager C) → IsSound m → IsSound (stop_all w ids m)
  unfolding stop_all
  stop_all-IsSound w [] m s = s
  stop_all-IsSound w (id ∷ ids) m s = stop_all-IsSound w ids _ (stop-IsSound w id m s)

  start_all-IsSound :
      (w : World C) (ids : List Text) (m : Manager C) → IsSound m → IsSound (start_all w ids m)
  unfolding start_all
  start_all-IsSound w [] m s = s
  start_all-IsSound w (id ∷ ids) m s = start_all-IsSound w ids _ (start-IsSound w id m s)

  refresh-IsSound :
      (w : World C) (installed : Bool) (targets : RefreshTargets) (m : Manager C)
      → IsSound m
      → IsSound ((refresh w installed targets m).1)
  unfolding refresh carry_out empty_plan own_ids
  refresh-IsSound w installed targets m s =
      let plan = plan_instances w m.instances m.specs (empty_plan (new_target_filter targets)) in
      if-both (λ (r : Option (List RefreshResult) × Manager C). IsSound (r.1)) (not installed)
        (λ _. s)
        (λ _.
          if-both (λ (r : Option (List RefreshResult) × Manager C). IsSound (r.1)) (is_nil m.specs)
            (λ _. s)
            (λ _. stop_all-IsSound w plan.stops _ (
              start_all-IsSound w plan.restarts _ (
                stop_all-IsSound w plan.restarts _ (
                  apply_updates-IsSound plan.updates m
                    (plan_instances-own w m.instances m.specs _ s.own refl) s)))))

  resume-IsSound :
      (w : World C) (snapshot : Snapshot C) (m : Manager C)
      → IsSound m
      → IsSound (resume w snapshot m)
  unfolding resume
  resume-IsSound w snapshot m s =
      let flagged : IsSound (record m {
        baseline = set_flag m.baseline snapshot.id snapshot.is_baseline;
        dynamic_instances =
            if text_beq snapshot.id []
            then m.dynamic_instances
            else set_flag m.dynamic_instances snapshot.id snapshot.is_dynamic;
      }) =
        record {
          own = s.own;
          accounted = s.accounted;
          tracked = s.tracked;
          routed = s.routed;
          specified = s.specified;
          named = s.named;
        } in
      if-both (λ (n : Manager C). IsSound n) snapshot.running
        (λ _. start-IsSound w snapshot.id _ flagged) (λ _. flagged)

  spec_from_snapshot-trimmed :
      (s : Snapshot C) → trim_space (spec_from_snapshot s).id ≡ (spec_from_snapshot s).id
  unfolding spec_from_snapshot
  spec_from_snapshot-trimmed s = sanitize_spec-trimmed _

  restore_snapshot-IsSound :
      (w : World C) (snapshot : Snapshot C) (m : Manager C)
      → IsSound m
      → IsSound (restore_snapshot w snapshot m)
  unfolding restore_snapshot
  restore_snapshot-IsSound w snapshot m s =
      let spec = spec_from_snapshot snapshot in
      let ensured : IsSound ((ensure_spec w true spec m).1) =
        ensure_spec-IsSound w true spec m (spec_from_snapshot-trimmed snapshot) s in
      if-both (λ (n : Manager C). IsSound n) (text_beq snapshot.id []) (λ _. s)
        (λ _.
          result-both (λ (n : Manager C). IsSound n) ((ensure_spec w true spec m).0)
            (λ _ _. ensured) (λ _ _. resume-IsSound w snapshot _ ensured))

  perform-IsSound : (c : Call C) (m : Manager C) → IsSound m → IsSound (perform c m)
  unfolding perform
  perform-IsSound (creates w spec) m s = create-IsSound w spec m s
  perform-IsSound (starts w id) m s = start-IsSound w id m s
  perform-IsSound (stops w id) m s = stop-IsSound w id m s
  perform-IsSound (removes w id) m s = remove-IsSound w id m s
  perform-IsSound (updates w spec) m s = update-IsSound w spec m s
  perform-IsSound (refreshes w installed targets) m s = refresh-IsSound w installed targets m s
  perform-IsSound (restores w snapshot) m s = restore_snapshot-IsSound w snapshot m s

  perform_all-kept :
      (calls : List (Call C)) (m : Manager C) → IsSound m → IsSound (perform_all calls m)
  unfolding perform_all
  perform_all-kept [] m s = s
  perform_all-kept (c ∷ calls) m s = perform_all-kept calls _ (perform-IsSound c m s)

  new_manager-IsSound : IsSound (new_manager {C = C})
  unfolding new_manager get own_ids runs_under usage_has entry_has base_list bases_of has_text
  new_manager-IsSound = record {
    own = refl;
    accounted = λ _ _. refl;
    tracked = λ _. refl;
    routed = λ id has. ground (arith, has);
    specified = λ id runs. ground (arith, runs);
    named = λ id inst e. absurd (ground (arith, e));
  }

  -- Whatever calls of Create, Start, Stop, Remove, Update, refreshes and restorations a new manager has
  -- had, and whatever surrounds each of them: every spec stands under its own trimmed id, the usage of
  -- a revision lists exactly the instances that run under its key, the bases that run under an id are
  -- the one of its instance, routes are registered only for instances, and every instance has a spec
  -- and a name.
  pub perform_all-IsSound : (calls : List (Call C)) → IsSound (perform_all calls new_manager)
  perform_all-IsSound calls = perform_all-kept calls new_manager new_manager-IsSound
