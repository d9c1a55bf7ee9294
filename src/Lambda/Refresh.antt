-- ===== src/Lambda/Refresh.antt =====
-- manager.go: the refresh of JavaScript strategies, whole or for some targets, once the modules are
-- loaded again. Instances are visited in the order of the list.
mod Targets
unfoldable pub use Targets.*
use meltica_gateway.Common.{
  Bool, false, not, ◌&&◌, ◌||◌, Option, none, some, is_some, List, [], ◌∷◌, ◌++◌, is_nil, map,
  if◌then◌else◌,
}
use meltica_gateway.Common.Text.{Text, codes, text_beq, text_eq, text_lt, trim_space, to_lower}
use meltica_gateway.Common.Map.{Map, get, put}
use meltica_gateway.Dispatcher.Table.Match.{has_text}
use meltica_gateway.Dispatcher.Filters.{add_text}
use meltica_gateway.Lambda.Spec.{StrategySpec, LambdaSpec}
use meltica_gateway.Lambda.Usage.{
  normalize_strategy_name, normalize_revision_hash, ensure_revision_usage,
}
use meltica_gateway.Lambda.Manager.{Manager, Instance, World, Resolution, pin, stop, start}

-- The variables of the loop of refreshJavaScriptStrategies.
pub record Plan (C : Type 0) : Type 0 where
  pub filter : TargetFilter
  pub updates : Map Text (LambdaSpec C)
  pub restarts : List Text
  pub stops : List Text
  pub results : List RefreshResult

module _ {C : Type 0} where
  -- matchSpec
  unfoldable pub match_spec : TargetFilter → LambdaSpec C → RefreshMatch
  match_spec f spec =
      let hash = normalize_revision_hash spec.strategy.hash in
      let selector = normalize_strategy_name spec.strategy.selector in
      let identifier = normalize_strategy_name spec.strategy.identifier in
      let by_hash = not f.all && is_target f.hashes hash in
      let by_selector = not f.all && is_target f.selectors selector in
      let by_identifier = not f.all && is_target f.identifiers identifier in
      record {
        matched = f.all || by_hash || by_selector || by_identifier;
        by_hash = by_hash;
        by_selector = by_selector;
        by_identifier = by_identifier;
        selector_key = key_if by_selector selector;
        identifier_key = key_if by_identifier identifier;
        hash_key = key_if by_hash hash;
      }

  -- The reference of a spec.
  unfoldable pub selector_of : StrategySpec C → Text
  selector_of s = if text_beq s.selector [] then s.identifier else s.selector

  -- ResolveReference, if there is a loader and a reference.
  unfoldable pub resolve_selector : World C → Text → Option Resolution
  resolve_selector w selector =
      if text_beq selector []
      then none
      else elim w.resolve [ none ↦ none | some resolve ↦ resolve selector ]

  -- ensureRefreshResult and what follows, for an instance whose reference does not resolve.
  unfoldable pub retire : Text → LambdaSpec C → Plan C → Plan C
  retire id spec plan = record plan {
    stops = plan.stops ++ id ∷ [];
    results =
        plan.results
        ++ record {
          selector = selector_of spec.strategy;
          strategy = spec.strategy.identifier;
          hash = spec.strategy.hash;
          previous_hash = spec.strategy.hash;
          instances = id ∷ [];
          reason = codes "retired";
        }
          ∷ [];
  }

  -- The same for one whose reference resolves.
  unfoldable pub repin : Text → LambdaSpec C → Bool → Resolution → Plan C → Plan C
  repin id spec running res plan =
      let same = text_beq spec.strategy.hash res.hash in
      let pinned = pin spec.strategy (selector_of spec.strategy) res in
      record plan {
        updates = put plan.updates id (record spec { strategy = pinned });
        restarts = if running && not same then plan.restarts ++ id ∷ [] else plan.restarts;
        results =
            plan.results
            ++ record {
              selector = pinned.selector;
              strategy = pinned.identifier;
              hash = res.hash;
              previous_hash = spec.strategy.hash;
              instances = id ∷ [];
              reason = if same then codes "alreadyPinned" else codes "refreshed";
            }
              ∷ [];
      }

  -- One round of the loop.
  unfoldable pub plan_instance : World C → Text → LambdaSpec C → Bool → Plan C → Plan C
  plan_instance w id spec running plan =
      let found = match_spec plan.filter spec in
      let plan' = record plan { filter = record_match plan.filter found } in
      if not (w.dynamic (to_lower (trim_space spec.strategy.identifier)))
        && text_beq spec.strategy.hash []
      then plan
      else if not found.matched
      then plan
      else elim (resolve_selector w (selector_of spec.strategy)) [
        | none ↦ retire id spec plan'
        | some res ↦ repin id spec running res plan'
      ]

  unfoldable pub plan_instances :
      World C → Map Text Instance → Map Text (LambdaSpec C) → Plan C → Plan C
  plan_instances w instances [] plan = plan
  plan_instances w instances ((id, spec) ∷ specs) plan =
      plan_instances w instances specs (plan_instance w id spec (is_some (get instances id)) plan)

  -- The loop that writes the updated specs.
  unfoldable pub apply_updates : Map Text (LambdaSpec C) → Manager C → Manager C
  apply_updates [] m = m
  apply_updates ((id, spec) ∷ updates) m = apply_updates updates (record m {
    usage = ensure_revision_usage m.usage spec.strategy;
    specs = put m.specs id spec;
  })

  -- The loops over restartIDs and stopOnly, which log errors.
  unfoldable pub stop_all : World C → List Text → Manager C → Manager C
  stop_all w [] m = m
  stop_all w (id ∷ ids) m = stop_all w ids ((stop w id m).1)

  unfoldable pub start_all : World C → List Text → Manager C → Manager C
  start_all w [] m = m
  start_all w (id ∷ ids) m = start_all w ids ((start w id m).1)

  unfoldable pub empty_plan : TargetFilter → Plan C
  empty_plan f = record { filter = f; updates = []; restarts = []; stops = []; results = [] }

  -- What the plan does to the manager.
  unfoldable pub carry_out : World C → Plan C → Manager C → Manager C
  carry_out w plan m =
      stop_all w plan.stops
        (start_all w plan.restarts (stop_all w plan.restarts (apply_updates plan.updates m)))

  -- refreshJavaScriptStrategies after installJavaScriptStrategies, which has an error or not.
  unfoldable pub refresh :
      World C → Bool → RefreshTargets → Manager C → Option (List RefreshResult) × Manager C
  refresh w installed targets m =
      let plan = plan_instances w m.instances m.specs (empty_plan (new_target_filter targets)) in
      if not installed
      then (none, m)
      else if is_nil m.specs
      then (some (build_unmatched_results (new_target_filter targets)), m)
      else (
        some (sort_results (plan.results ++ build_unmatched_results plan.filter)),
        carry_out w plan m,
      )
