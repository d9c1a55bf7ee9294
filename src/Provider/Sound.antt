-- ===== src/Provider/Sound.antt =====
-- What holds of the providers between steps, and that a step keeps it.
use meltica_gateway.Common.{
  ℕ, Bool, true, false, ◌≡◌, refl, sym, ap, ◌∙◌, subst, Option, none, some, is_some, List, [], ◌∷◌,
  nat_eq_iff, if◌then◌else◌, option-both, Bool-cases, Option-cases, or_else, inl, inr, arith,
}
use meltica_gateway.Common.Text.{Text, text_beq, text_beq_iff, text_eq}
use meltica_gateway.Common.Map.{get, put, get-put}
use meltica_gateway.Lambda.Accounting.{bases_of, without, bases_of-cancel}
use meltica_gateway.Provider.Manager.{
  Parts, ProviderState, Manager, Status, running, persist_snapshot, persist_routes, cancel_state,
}

unfoldable pub is_running_status : Status → Bool
is_running_status running = true
is_running_status s = false

-- The starts that a provider's state knows.
unfoldable pub starts_of : {p : Parts} → Option (ProviderState p) → List ℕ
starts_of none = []
starts_of (some s) = elim s.instance_no [ none ↦ [] | some n ↦ n ∷ [] ]

-- A provider that runs has an instance, its subscriptions and the status of one that runs, and another
-- has none of them.
pub record IsSteady {p : Parts} (name : Text) (s : ProviderState p) : Type 0 where
  pub has_instance : is_some s.instance_no ≡ s.is_running
  pub has_subscriptions : is_some s.subscriptions ≡ s.is_running
  pub has_status : is_running_status s.status ≡ s.is_running
  pub keyed : s.spec.name ≡ name

-- The starts whose contexts are not cancelled are those of the instances.
pub record IsSound {p : Parts} (m : Manager p) : Type 0 where
  pub tracked : (name : Text) → bases_of m.live name ≡ starts_of (get m.states name)
  pub steady : (name : Text) (s : ProviderState p) → get m.states name ≡ some s → IsSteady name s

module _ {p : Parts} where
  pub persist_snapshot-IsSound :
      (m : Manager p) (name : Text) → IsSound m → IsSound (persist_snapshot m name)
  unfolding persist_snapshot
  persist_snapshot-IsSound m name s =
      option-both (λ (n : Manager p). IsSound n) (get m.states name) (λ _. s)
        (λ _ _. record { tracked = s.tracked; steady = s.steady })

  pub persist_routes-IsSound :
      (m : Manager p) (name : Text) → IsSound m → IsSound (persist_routes m name)
  unfolding persist_routes
  persist_routes-IsSound m name s =
      option-both (λ (n : Manager p). IsSound n) (get m.states name) (λ _. s)
        (λ _ _. record { tracked = s.tracked; steady = s.steady })

  -- A new state for a name, with the starts that then run.
  pub put_state :
      (m : Manager p) (name : Text) (s' : ProviderState p) (live : List (Text × ℕ)) (next : ℕ)
      → IsSteady name s'
      → ((j : Text)
          → bases_of live j ≡ (if text_beq name j then starts_of (some s') else bases_of m.live j))
      → IsSound m
      → IsSound (record m { states = put m.states name s'; live = live; next_start = next })
  put_state m name s' live next ready runs s = record {
    tracked =
        λ j. runs j ∙ ground (arith, s.tracked j, get-put m.states name j s', text_beq_iff name j);
    steady = λ j found e. elim (Bool-cases (text_beq name j)) [
      | inl same ↦
          let key : name ≡ j = ground (arith, same, text_beq_iff name j) in
          let there : some s' ≡ some found = sym (get-put m.states name j s' ∙ rw same refl) ∙ e in
          subst (λ (t : ProviderState p). IsSteady j t) (ap (λ o. or_else o s') there)
            (subst (λ (k : Text). IsSteady k s') key ready)
      | inr other ↦ s.steady j found (ground (arith, e, other, get-put m.states name j s'))
    ];
  }

  -- The starts of a provider that is stopped.
  pub cancel_state-starts :
      (m : Manager p) (name j : Text) (st : ProviderState p)
      → get m.states name ≡ some st
      → IsSound m
      → bases_of (cancel_state name st m.live) j
        ≡ (if text_beq name j then [] else bases_of m.live j)
  unfolding cancel_state without starts_of
  cancel_state-starts m name j st there s =
      let steady = s.steady name st there in
      elim (Bool-cases st.is_running) [
        | inl runs ↦ elim (Option-cases st.instance_no) [
          | inl missing ↦ absurd (ground (arith, missing, runs, steady.has_instance))
          | inr (n, known) ↦
              rw (runs, known)
                (bases_of-cancel m.live name n j
                  ∙ ground
                      (arith, s.tracked name, there, known, text_beq_iff name j, nat_eq_iff n n))
        ]
        | inr idle ↦
            rw idle (
              ground (arith, s.tracked name, there, idle, steady.has_instance, text_beq_iff name j))
      ]

  pub same_starts :
      (m : Manager p) (name j : Text) (st : ProviderState p)
      → get m.states name ≡ some st
      → IsSound m
      → bases_of m.live j ≡ (if text_beq name j then starts_of (some st) else bases_of m.live j)
  same_starts m name j st there s = elim (Bool-cases (text_beq name j)) [
    | inl same ↦
        let key : name ≡ j = ground (arith, same, text_beq_iff name j) in
        rw same (
          subst (λ (k : Text). bases_of m.live k ≡ starts_of (some st)) key
            (s.tracked name ∙ rw there refl))
    | inr other ↦ rw other refl
  ]
