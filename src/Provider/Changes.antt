-- ===== src/Provider/Changes.antt =====
-- What stopping, forgetting and a failed start leave.
use meltica_gateway.Common.{
  ℕ, true, false, not, ◌≡◌, refl, ◌∙◌, subst, Option, none, is_some, List, [], if◌then◌else◌,
  option-both, if-both, Bool-cases, inl, inr, arith,
}
use meltica_gateway.Common.Text.{Text, text_beq, text_beq_iff, text_eq, trim_space}
use meltica_gateway.Common.Map.{get, put, get-delete}
use meltica_gateway.Common.Exec.{Result, result-both}
use meltica_gateway.Lambda.Accounting.{bases_of}
use meltica_gateway.Provider.Manager.{
  Parts, ProviderSpec, ProviderState, Manager, World, Status, pending, starting, running, stopped,
  failed, ProviderError, fresh_state, persist_snapshot, stopped_state, prepare_provider_start,
  record_start_failure, start_provider_runtime, start_checked, start_provider, forget_provider,
  normalize_restored_status, is_starting_status,
}
use meltica_gateway.Provider.Sound.{IsSound, IsSteady, is_running_status, starts_of, put_state}

pub normalize_restored_status-idle :
    (s : Status) → is_running_status (normalize_restored_status s) ≡ false
unfolding is_running_status normalize_restored_status
normalize_restored_status-idle pending = refl
normalize_restored_status-idle starting = refl
normalize_restored_status-idle running = refl
normalize_restored_status-idle stopped = refl
normalize_restored_status-idle failed = refl

module _ {p : Parts} where
  pub forget_provider-IsSound :
      (name : Text) (live : List (Text × ℕ)) (m : Manager p)
      → ((j : Text) → bases_of live j ≡ (if text_beq name j then [] else bases_of m.live j))
      → IsSound m
      → IsSound (forget_provider name (record m { live = live }))
  unfolding forget_provider starts_of
  forget_provider-IsSound name live m gone s = record {
    tracked =
        λ j. gone j ∙ ground (arith, s.tracked j, get-delete m.states name j, text_beq_iff name j);
    steady = λ j st e.
        s.steady j st (ground (arith, e, get-delete m.states name j, text_beq_iff name j));
  }

  pub no_starts :
      (m : Manager p) (name j : Text)
      → get m.states name ≡ none
      → IsSound m
      → bases_of m.live j ≡ (if text_beq name j then [] else bases_of m.live j)
  unfolding starts_of
  no_starts m name j missing s = elim (Bool-cases (text_beq name j)) [
    | inl same ↦
        let key : name ≡ j = ground (arith, same, text_beq_iff name j) in
        rw same
          (subst (λ (k : Text). bases_of m.live k ≡ []) key (s.tracked name ∙ rw missing refl))
    | inr other ↦ rw other refl
  ]

  pub put_fresh-IsSound :
      (m : Manager p) (spec : ProviderSpec p.Config) (status : Status) (routes : List p.Route)
      → is_running_status status ≡ false
      → get m.states spec.name ≡ none
      → IsSound m
      → IsSound (record m {
        states =
            put m.states spec.name (record (fresh_state spec status) { cached_routes = routes });
      })
  unfolding fresh_state starts_of
  put_fresh-IsSound m spec status routes idle missing s =
      put_state m spec.name _ m.live m.next_start
        (record { has_instance = refl; has_subscriptions = refl; has_status = idle; keyed = refl })
        (λ j. no_starts m spec.name j missing s) s

  -- A start that fails leaves the running starts alone.
  pub persist_snapshot-live :
      (m : Manager p) (name : Text) → (persist_snapshot m name).live ≡ m.live
  unfolding persist_snapshot
  persist_snapshot-live m name =
      option-both (λ (n : Manager p). n.live ≡ m.live) (get m.states name) (λ _. refl) (λ _ _. refl)

  prepare_provider_start-live :
      (name : Text) (m : Manager p) → (prepare_provider_start name m).1.live ≡ m.live
  unfolding prepare_provider_start
  prepare_provider_start-live name m =
      option-both
        (λ (r : Result ProviderError (ProviderSpec p.Config × List p.Route) × Manager p).
          (r.1).live ≡ m.live)
        (get m.states name) (λ _. refl)
        (λ st _.
          if-both
            (λ (r : Result ProviderError (ProviderSpec p.Config × List p.Route) × Manager p).
              (r.1).live ≡ m.live)
            st.is_running (λ _. refl)
            (λ _.
              if-both
                (λ (r : Result ProviderError (ProviderSpec p.Config × List p.Route) × Manager p).
                  (r.1).live ≡ m.live)
                (is_starting_status st.status) (λ _. refl) (λ _. persist_snapshot-live _ name)))

  start_provider_runtime-failed :
      (w : World p) (name : Text) (job : ProviderSpec p.Config × List p.Route) (m : Manager p)
      → is_some ((start_provider_runtime w name job m).0) ≡ true
      → (start_provider_runtime w name job m).1.live ≡ m.live
  unfolding start_provider_runtime record_start_failure
  start_provider_runtime-failed w name (spec, routes) m =
      option-both
        (λ (r : Option ProviderError × Manager p). is_some (r.0) ≡ true → (r.1).live ≡ m.live)
        (w.create_error spec)
        (λ _.
          option-both
            (λ (r : Option ProviderError × Manager p). is_some (r.0) ≡ true → (r.1).live ≡ m.live)
            (get m.states name) (λ _ _. refl) (λ _ _ bad. absurd (ground (arith, bad))))
        (λ e _ _.
          option-both (λ (n : Manager p). n.live ≡ m.live) (get m.states name) (λ _. refl)
            (λ _ _. persist_snapshot-live _ name))

  pub start_provider-failed :
      (w : World p) (given : Text) (m : Manager p)
      → is_some ((start_provider w given m).0) ≡ true
      → (start_provider w given m).1.live ≡ m.live
  unfolding start_provider start_checked
  start_provider-failed w given m =
      if-both (λ (r : Option ProviderError × Manager p). is_some (r.0) ≡ true → (r.1).live ≡ m.live)
        (text_beq (trim_space given) []) (λ _ _. refl)
        (λ _.
          if-both
            (λ (r : Option ProviderError × Manager p). is_some (r.0) ≡ true → (r.1).live ≡ m.live)
            w.ended (λ _ _. refl)
            (λ _.
              result-both
                (λ (r : Option ProviderError × Manager p).
                  is_some (r.0) ≡ true → (r.1).live ≡ m.live)
                ((prepare_provider_start (trim_space given) m).0)
                (λ _ _ _. prepare_provider_start-live (trim_space given) m)
                (λ job _ late.
                  start_provider_runtime-failed w (trim_space given) job _ late
                  ∙ prepare_provider_start-live (trim_space given) m)))

  -- A state that was stopped.
  pub stopped_state-IsSteady :
      (w : World p) (name : Text) (st : ProviderState p)
      → IsSteady name st
      → IsSteady name (stopped_state w st) × ((stopped_state w st).instance_no ≡ none)
  unfolding stopped_state is_running_status
  stopped_state-IsSteady w name st steady =
      if-both (λ (t : ProviderState p). IsSteady name t × (t.instance_no ≡ none))
        (not st.is_running) (λ idle. (steady, ground (arith, idle, steady.has_instance)))
        (λ _. (
          record {
            has_instance = refl;
            has_subscriptions = refl;
            has_status = refl;
            keyed = steady.keyed;
          },
          refl,
        ))
