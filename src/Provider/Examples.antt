-- ===== src/Provider/Examples.antt =====
-- The theorems on providers at concrete inputs.
use meltica_gateway.Common.{
  ℕ, true, false, ◌≡◌, refl, sym, ap, or_else, none, some, List, [], ◌∷◌, ◌++◌,
}
use meltica_gateway.Common.Text.{
  Text, codes, text_beq, text_eq, trim_space, trim_left, trim_right, is_space,
}
use meltica_gateway.Common.Map.{get, put, delete}
use meltica_gateway.Lambda.Accounting.{bases_of}
use meltica_gateway.Provider.Manager.{
  Parts, ProviderSpec, ProviderState, Manager, World, running, Call, creates, updates, stops,
  begins, finishes, rolls_back, forget_provider, no_providers, start_provider_runtime,
  create_provider, prepare_provider_start, start_provider, persist_snapshot, fresh_state,
  normalize_provider_spec, is_starting_status, perform, perform_all,
}
use meltica_gateway.Provider.Sound.{IsSound, is_running_status, starts_of, put_state}
use meltica_gateway.Provider.Starts.{IsIdle}
use meltica_gateway.Provider.Histories.{
  Fits, IsOrderly, run_providers-IsSound, no_providers-IsSound, late_start_leaks,
}

-- Routes are texts, and subscriptions the routes that were activated.
abbrev parts : Parts
parts = record {
  Config = ℕ;
  Route = Text;
  Subscriptions = List Text;
  Instrument = Text;
  new_subscriptions = [];
  activate = λ sub route. sub ++ route ∷ [];
  snapshot = λ sub. sub;
  with_provider = λ route name. route;
}

abbrev world : World parts
world = record { create_error = λ _. none; instruments = λ _. codes "BTC-USDT" ∷ []; ended = false }

abbrev okx : ProviderSpec ℕ
okx = record { name = codes "okx"; adapter = codes "okx"; config = 1 }

abbrev running_state : ProviderState parts
running_state = record {
  spec = okx;
  instance_no = some 4;
  subscriptions = some [];
  cached_routes = [];
  cached_instruments = [];
  is_running = true;
  status = running;
  startup_err = none;
}

abbrev one_running : Manager parts
one_running = record {
  states = (codes "okx", running_state) ∷ [];
  live = (codes "okx", 4) ∷ [];
  next_start = 5;
  stored = [];
  stored_routes = [];
}

one_running-IsSound : IsSound one_running
unfolding no_providers put bases_of starts_of is_running_status
one_running-IsSound =
    put_state no_providers (codes "okx") running_state ((codes "okx", 4) ∷ []) 5
      (record { has_instance = refl; has_subscriptions = refl; has_status = refl; keyed = refl })
      (λ j. refl) no_providers-IsSound

-- A provider is made, a start of it begins, and its maker, whose own start is refused, rolls back. It is
-- made again and started on a goroutine, which ends; it is stopped, and gets a new spec.
abbrev history : List (Call parts)
history =
    creates world okx false
    ∷ begins (codes "okx")
    ∷ rolls_back (codes "okx")
    ∷ creates world okx false
    ∷ begins (codes "okx")
    ∷ finishes world (codes "okx") (okx, [])
    ∷ stops world (codes " okx")
    ∷ updates world okx true
    ∷ []

history-IsOrderly : IsOrderly history no_providers
unfolding IsOrderly Fits IsIdle perform create_provider normalize_provider_spec persist_snapshot
    fresh_state start_provider prepare_provider_start is_starting_status no_providers get put
    text_beq trim_space trim_left trim_right is_space forget_provider delete
history-IsOrderly = (
  tt,
  (
    tt,
    (
      λ st e. sym (ap (λ o. (or_else o running_state).is_running) e),
      (tt, (tt, (λ st e. sym (ap (λ o. (or_else o running_state).is_running) e), (tt, (tt, tt))))),
    ),
  ),
)

run_providers-IsSound_example : IsSound (perform_all history no_providers)
run_providers-IsSound_example =
    run_providers-IsSound history no_providers history-IsOrderly no_providers-IsSound

running_there : get one_running.states (codes "okx") ≡ some running_state
unfolding get text_beq
running_there = refl

late_start_leaks_example :
    let m' = (start_provider_runtime world (codes "okx") (okx, []) one_running).1 in
    (bases_of m'.live (codes "okx") ≡ 5 ∷ 4 ∷ [])
    × (starts_of (get m'.states (codes "okx")) ≡ 5 ∷ [])
late_start_leaks_example =
    late_start_leaks world (codes "okx") (okx, []) one_running running_state 4 one_running-IsSound
      running_there refl refl
