-- ===== src/Lambda/Examples.antt =====
-- The theorems on the lambda runtime at concrete inputs.
use meltica_gateway.Common.{
  ℕ, true, false, ◌&&◌, ◌≡◌, refl, none, some, is_some, List, [], ◌∷◌, if◌then◌else◌, arith,
}
use meltica_gateway.Common.Text.{
  codes, text_beq, text_eq, trim_space, trim_left, trim_right, is_space,
}
use meltica_gateway.Common.Map.{get}
use meltica_gateway.Common.Exec.{ok}
use meltica_gateway.Dispatcher.Table.Match.{has_text}
use meltica_gateway.Lambda.Spec.{StrategySpec, LambdaSpec}
use meltica_gateway.Lambda.Manager.{
  Manager, World, Snapshot, instance_not_found, new_manager, resolve_providers, prepare, run_base,
  launch, check_start, spec_for_id, stop, remove,
}
use meltica_gateway.Lambda.Restore.{
  Call, creates, starts, stops, refreshes, perform_all, restore_snapshot,
}
use meltica_gateway.Lambda.Accounting.{usage_has, entry_has, runs_under, bases_of, base_list}
use meltica_gateway.Lambda.Own.{own_ids}
use meltica_gateway.Lambda.Sound.{IsSound}
use meltica_gateway.Lambda.Histories.{perform_all-IsSound}
use meltica_gateway.Lambda.Pins.{repinned, restore_snapshot-repinned, remove_lem}
use meltica_gateway.Lambda.Race.{two_starts_leak}

-- One provider, and one JavaScript strategy with the tag v2, whose configuration is a number.
abbrev world : World ℕ
world = record {
  strategies = λ s. text_beq s (codes "logging");
  dynamic = λ s. text_beq s (codes "logging");
  resolve =
      some (λ _. some (record { name = codes "logging"; hash = codes "h2"; tag = codes "v2" }));
  has_provider = λ p. text_beq p (codes "binance");
  build = λ _. some (record { wants_cross_provider = false; has_routes = true });
  registers = λ _. true;
  starts = λ _. true;
  now = 1_000;
}

abbrev strategy : StrategySpec ℕ
strategy = record {
  identifier = codes "logging";
  config = 7;
  selector = codes "logging:v1";
  tag = codes "v1";
  hash = codes "h1";
}

abbrev spec : LambdaSpec ℕ
spec = record {
  id = codes "one";
  strategy = strategy;
  provider_symbols = (codes "binance", codes "BTC-USDT" ∷ []) ∷ [];
  providers = codes "binance" ∷ [];
}

abbrev stored_one : Snapshot ℕ
stored_one = record {
  id = codes "one";
  strategy = strategy;
  providers = codes "binance" ∷ [];
  provider_symbols = (codes "binance", codes "BTC-USDT" ∷ []) ∷ [];
  running = true;
  is_dynamic = true;
  is_baseline = false;
}

abbrev history : List (Call ℕ)
history =
    creates world spec
    ∷ starts world (codes " one ")
    ∷ refreshes world true (record { hashes = codes "h2" ∷ []; strategies = codes "logging" ∷ [] })
    ∷ stops world (codes "one")
    ∷ starts world (codes "one")
    ∷ []

perform_all-IsSound_example : IsSound (perform_all history new_manager)
perform_all-IsSound_example = perform_all-IsSound history

restore_snapshot-repinned_example :
    restore_snapshot world
      (record stored_one { strategy = repinned strategy (codes "logging@h0") [] (codes "h0") })
      new_manager
    ≡ restore_snapshot world stored_one new_manager
restore_snapshot-repinned_example =
    restore_snapshot-repinned world stored_one new_manager (codes "logging@h0") [] (codes "h0")

remove_lem_example :
    ((remove world (codes " one ") (perform_all history new_manager)).0 ≡ (
      if text_beq (trim_space (codes " one ")) (codes " one ")
        && is_some (get (perform_all history new_manager).specs (codes " one "))
      then none
      else some instance_not_found))
    × (get
          ((remove world (codes " one ") (perform_all history new_manager)).1).instances
          (trim_space (codes " one "))
        ≡ none)
remove_lem_example =
    remove_lem world (codes " one ") (perform_all history new_manager) (perform_all-IsSound history)

-- A manager with that spec, and nothing that runs.
abbrev created : Manager ℕ
created = record {
  specs = (codes "one", spec) ∷ [];
  instances = [];
  usage = [];
  baseline = [];
  dynamic_instances = codes "one" ∷ [];
  registered = [];
  live = [];
  next_base = 0;
  stored = [];
}

created-IsSound : IsSound created
unfolding own_ids get text_beq trim_space trim_left trim_right is_space has_text usage_has entry_has
    runs_under bases_of base_list
created-IsSound = record {
  own = refl;
  accounted = λ _ _. refl;
  tracked = λ _. refl;
  routed = λ id has. ground (arith, has);
  specified = λ id runs. ground (arith, runs);
  named = λ id inst e. absurd (ground (arith, e));
}

created_checks : check_start (codes " one ") created ≡ ok spec
unfolding check_start spec_for_id get text_beq trim_space trim_left trim_right is_space
created_checks = refl

created_launches : (launch world spec created).0 ≡ none
unfolding launch prepare resolve_providers run_base text_beq trim_space trim_left trim_right
    is_space
created_launches = refl

two_starts_leak_example :
    let first = (launch world spec created).1 in
    let second = (launch world spec first).1 in
    let stopped = (stop world (codes " one ") second).1 in
    ((launch world spec first).0 ≡ none)
    × (get stopped.instances (codes "one") ≡ none)
    × (bases_of stopped.live (codes "one") ≡ 0 ∷ [])
two_starts_leak_example =
    two_starts_leak world (codes " one ") spec created created-IsSound created_checks
      created_launches
