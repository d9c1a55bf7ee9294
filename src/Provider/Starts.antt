-- ===== src/Provider/Starts.antt =====
-- What the parts of a start keep.
use meltica_gateway.Common.{
  ◌+◌, false, ◌≡◌, refl, sym, ap, ◌∙◌, Option, none, some, List, [], ◌∷◌, if◌then◌else◌,
  option-both, if-both, or_else, arith,
}
use meltica_gateway.Common.Text.{Text, text_beq, text_eq, trim_space}
use meltica_gateway.Common.Map.{get, put, get-put_self}
use meltica_gateway.Common.Exec.{Result, ok, result-both}
use meltica_gateway.Lambda.Accounting.{bases_of}
use meltica_gateway.Provider.Manager.{
  Parts, ProviderSpec, ProviderState, Manager, World, starting, failed, ProviderError,
  persist_snapshot, prepare_provider_start, record_start_failure, started_state,
  start_provider_runtime, start_checked, start_provider, is_starting_status,
}
use meltica_gateway.Provider.Sound.{
  IsSound, is_running_status, starts_of, persist_snapshot-IsSound, put_state, same_starts,
}

module _ {p : Parts} where
  -- A provider does not run.
  unfoldable pub IsIdle : Manager p → Text → Type 0
  IsIdle m name = (st : ProviderState p) → get m.states name ≡ some st → st.is_running ≡ false

  pub persist_snapshot-states :
      (m : Manager p) (name : Text) → (persist_snapshot m name).states ≡ m.states
  unfolding persist_snapshot
  persist_snapshot-states m name =
      option-both (λ (n : Manager p). n.states ≡ m.states) (get m.states name) (λ _. refl)
        (λ _ _. refl)

  pub prepare_provider_start-IsSound :
      (name : Text) (m : Manager p) → IsSound m → IsSound ((prepare_provider_start name m).1)
  unfolding prepare_provider_start is_running_status starts_of
  prepare_provider_start-IsSound name m s =
      option-both
        (λ (r : Result ProviderError (ProviderSpec p.Config × List p.Route) × Manager p).
          IsSound (r.1))
        (get m.states name) (λ _. s)
        (λ st there.
          if-both
            (λ (r : Result ProviderError (ProviderSpec p.Config × List p.Route) × Manager p).
              IsSound (r.1))
            st.is_running (λ _. s)
            (λ idle.
              if-both
                (λ (r : Result ProviderError (ProviderSpec p.Config × List p.Route) × Manager p).
                  IsSound (r.1))
                (is_starting_status st.status) (λ _. s)
                (λ _.
                  let steady = s.steady name st there in
                  persist_snapshot-IsSound _ name (
                    put_state m name (record st { status = starting; startup_err = none }) m.live
                      m.next_start
                      (record {
                        has_instance = steady.has_instance;
                        has_subscriptions = steady.has_subscriptions;
                        has_status = sym idle;
                        keyed = steady.keyed;
                      })
                      (λ j. same_starts m name j st there s) s))))

  prepare_provider_start-IsIdle :
      (name : Text) (m : Manager p) (job : ProviderSpec p.Config × List p.Route)
      → (prepare_provider_start name m).0 ≡ ok job
      → IsIdle ((prepare_provider_start name m).1) name
  unfolding prepare_provider_start IsIdle
  prepare_provider_start-IsIdle name m job =
      option-both
        (λ (r : Result ProviderError (ProviderSpec p.Config × List p.Route) × Manager p).
          r.0 ≡ ok job → IsIdle (r.1) name)
        (get m.states name) (λ _ bad. absurd (ground (arith, bad)))
        (λ st there.
          if-both
            (λ (r : Result ProviderError (ProviderSpec p.Config × List p.Route) × Manager p).
              r.0 ≡ ok job → IsIdle (r.1) name)
            st.is_running (λ _ bad. absurd (ground (arith, bad)))
            (λ idle.
              if-both
                (λ (r : Result ProviderError (ProviderSpec p.Config × List p.Route) × Manager p).
                  r.0 ≡ ok job → IsIdle (r.1) name)
                (is_starting_status st.status) (λ _ bad. absurd (ground (arith, bad)))
                (λ _ _ found e.
                  let begun : ProviderState p = record st {
                    status = starting;
                    startup_err = none;
                  } in
                  let there : some begun ≡ some found =
                    sym (
                      rw
                        (persist_snapshot-states (record m { states = put m.states name begun })
                          name)
                        (get-put_self m.states name begun))
                    ∙ e in
                  sym (ap (λ o. (or_else o begun).is_running) there) ∙ idle)))

  idle_starts :
      (m : Manager p) (name j : Text) (st : ProviderState p)
      → get m.states name ≡ some st
      → st.is_running ≡ false
      → IsSound m
      → bases_of m.live j ≡ (if text_beq name j then [] else bases_of m.live j)
  unfolding starts_of
  idle_starts m name j st there idle s =
      let steady = s.steady name st there in
      let missing : st.instance_no ≡ none = ground (arith, idle, steady.has_instance) in
      same_starts m name j st there s ∙ rw missing refl

  record_start_failure-IsSound :
      (name e : Text) (m : Manager p)
      → IsIdle m name
      → IsSound m
      → IsSound (record_start_failure name e m)
  unfolding record_start_failure IsIdle is_running_status starts_of
  record_start_failure-IsSound name e m idle s =
      option-both (λ (n : Manager p). IsSound n) (get m.states name) (λ _. s)
        (λ st there.
          let steady = s.steady name st there in
          persist_snapshot-IsSound _ name (
            put_state m name
              (record st {
                instance_no = none;
                subscriptions = none;
                is_running = false;
                status = failed;
                startup_err = some e;
              })
              m.live m.next_start
              (record {
                has_instance = refl;
                has_subscriptions = refl;
                has_status = refl;
                keyed = steady.keyed;
              })
              (λ j. idle_starts m name j st there (idle st there) s) s))

  pub start_provider_runtime-IsSound :
      (w : World p) (name : Text) (job : ProviderSpec p.Config × List p.Route) (m : Manager p)
      → IsIdle m name
      → IsSound m
      → IsSound ((start_provider_runtime w name job m).1)
  unfolding start_provider_runtime started_state IsIdle is_running_status starts_of bases_of
  start_provider_runtime-IsSound w name (spec, routes) m idle s =
      option-both (λ (r : Option ProviderError × Manager p). IsSound (r.1)) (w.create_error spec)
        (λ _.
          option-both (λ (r : Option ProviderError × Manager p). IsSound (r.1)) (get m.states name)
            (λ _. record { tracked = s.tracked; steady = s.steady })
            (λ st there.
              let steady = s.steady name st there in
              persist_snapshot-IsSound _ name (
                put_state m name (started_state spec.name routes m.next_start st)
                  ((name, m.next_start) ∷ m.live) (m.next_start + 1)
                  (record {
                    has_instance = refl;
                    has_subscriptions = refl;
                    has_status = refl;
                    keyed = steady.keyed;
                  })
                  (λ j. ground (arith, idle_starts m name j st there (idle st there) s)) s)))
        (λ e _. record_start_failure-IsSound name e m idle s)

  pub start_checked-IsSound :
      (w : World p) (name : Text) (m : Manager p) → IsSound m → IsSound ((start_checked w name m).1)
  unfolding start_checked
  start_checked-IsSound w name m s =
      result-both (λ (r : Option ProviderError × Manager p). IsSound (r.1))
        ((prepare_provider_start name m).0) (λ _ _. prepare_provider_start-IsSound name m s)
        (λ job e.
          start_provider_runtime-IsSound w name job _ (prepare_provider_start-IsIdle name m job e)
            (prepare_provider_start-IsSound name m s))

  pub start_provider-IsSound :
      (w : World p) (given : Text) (m : Manager p)
      → IsSound m
      → IsSound ((start_provider w given m).1)
  unfolding start_provider
  start_provider-IsSound w given m s =
      if-both (λ (r : Option ProviderError × Manager p). IsSound (r.1))
        (text_beq (trim_space given) []) (λ _. s)
        (λ _.
          if-both (λ (r : Option ProviderError × Manager p). IsSound (r.1)) w.ended (λ _. s)
            (λ _. start_checked-IsSound w (trim_space given) m s))
