-- ===== src/Lambda/Race.antt =====
-- Two calls of Start whose tests both run before either launches.
use meltica_gateway.Common.{
  ℕ, ◌+◌, Bool, true, false, not, ◌&&◌, ◌≡◌, refl, sym, ◌∙◌, subst, Option, none, some, List, [],
  ◌∷◌, nat_eq_iff, option-both, if-both, arith,
}
use meltica_gateway.Common.Text.{Text, text_beq_iff, text_eq, trim_space}
use meltica_gateway.Common.Map.{get, get-put_self}
use meltica_gateway.Common.Exec.{ok, result-both, result-path, if-path}
use meltica_gateway.Lambda.Spec.{LambdaSpec}
use meltica_gateway.Lambda.Usage.{revision_key}
use meltica_gateway.Lambda.Manager.{
  Manager, World, Instance, ManagerError, cancel, persist_strategy, prepare, finish_launch,
  run_base, launch, check_start, end_instance, stop, is_stopped,
}
use meltica_gateway.Lambda.Accounting.{bases_of, base_list, without, bases_of-cancel}
use meltica_gateway.Lambda.Own.{own_ids-get}
use meltica_gateway.Lambda.Sound.{IsSound, check_start-ok}
use meltica_gateway.Lambda.Calls.{persist_strategy-instances, stop-stopped}

-- Of two bases in a row under an id that had none, the later one is cancelled.
cancel-second :
    (live : List (Text × ℕ)) (id : Text) (p : ℕ)
    → bases_of live id ≡ []
    → bases_of (cancel ((id, p + 1) ∷ (id, p) ∷ live) id (p + 1)) id ≡ p ∷ []
unfolding bases_of without
cancel-second live id p idle =
    bases_of-cancel ((id, p + 1) ∷ (id, p) ∷ live) id (p + 1) id
    ∙ ground (arith, idle, text_beq_iff id id, nat_eq_iff p (p + 1), nat_eq_iff (p + 1) (p + 1))

module _ {C : Type 0} where
  persist_strategy-live : (m : Manager C) (id : Text) → (persist_strategy m id).live ≡ m.live
  unfolding persist_strategy
  persist_strategy-live m id =
      option-both (λ (n : Manager C). n.live ≡ m.live) (get m.specs id) (λ _. refl) (λ _ _. refl)

  persist_strategy-next_base :
      (m : Manager C) (id : Text) → (persist_strategy m id).next_base ≡ m.next_base
  unfolding persist_strategy
  persist_strategy-next_base m id =
      option-both (λ (n : Manager C). n.next_base ≡ m.next_base) (get m.specs id) (λ _. refl)
        (λ _ _. refl)

  -- A launch that succeeded: a base with a new number runs, and is the one of the instance.
  record IsLaunched (spec : LambdaSpec C) (m n : Manager C) : Type 0 where
    runs : n.live ≡ (spec.id, m.next_base) ∷ m.live
    next : n.next_base ≡ m.next_base + 1
    known :
        get n.instances spec.id
        ≡ some (record { base = m.next_base; rev_key = revision_key spec.strategy })

  finish_launch-IsLaunched :
      (w : World C) (spec : LambdaSpec C) (m : Manager C) (registered : List Text)
      → IsLaunched spec m (finish_launch w spec (record m { registered = registered }))
  unfolding finish_launch
  finish_launch-IsLaunched w spec m registered = record {
    runs = persist_strategy-live _ spec.id;
    next = persist_strategy-next_base _ spec.id;
    known = rw (persist_strategy-instances _ spec.id) (get-put_self m.instances spec.id _);
  }

  run_base-IsLaunched :
      (w : World C) (spec : LambdaSpec C) (has_routes : Bool) (m : Manager C)
      → (run_base w spec has_routes m).0 ≡ none
      → IsLaunched spec m ((run_base w spec has_routes m).1)
  unfolding run_base
  run_base-IsLaunched w spec false m =
      if-both (λ (r : Option ManagerError × Manager C). r.0 ≡ none → IsLaunched spec m (r.1))
        (w.starts spec.id) (λ _ _. finish_launch-IsLaunched w spec m m.registered)
        (λ _ bad. ground (arith, bad))
  run_base-IsLaunched w spec true m =
      if-both (λ (r : Option ManagerError × Manager C). r.0 ≡ none → IsLaunched spec m (r.1))
        (not (w.registers spec.id)) (λ _ bad. ground (arith, bad))
        (λ _.
          if-both (λ (r : Option ManagerError × Manager C). r.0 ≡ none → IsLaunched spec m (r.1))
            (w.starts spec.id) (λ _ _. finish_launch-IsLaunched w spec m _)
            (λ _ bad. ground (arith, bad)))

  launch-IsLaunched :
      (w : World C) (spec : LambdaSpec C) (m : Manager C)
      → (launch w spec m).0 ≡ none
      → IsLaunched spec m ((launch w spec m).1)
  unfolding launch
  launch-IsLaunched w spec m =
      result-both (λ (r : Option ManagerError × Manager C). r.0 ≡ none → IsLaunched spec m (r.1))
        (prepare w spec) (λ e _ bad. ground (arith, bad))
        (λ has_routes _. run_base-IsLaunched w spec has_routes m)

  run_base-answer :
      (w : World C) (spec : LambdaSpec C) (has_routes : Bool) (m n : Manager C)
      → (run_base w spec has_routes m).0 ≡ (run_base w spec has_routes n).0
  unfolding run_base
  run_base-answer w spec has_routes m n =
      if-path (λ (r : Option ManagerError × Manager C). r.0)
        (has_routes && not (w.registers spec.id)) refl
        (if-path (λ (r : Option ManagerError × Manager C). r.0) (w.starts spec.id) refl refl)

  -- Whether a launch succeeds has nothing to do with the manager.
  launch-answer :
      (w : World C) (spec : LambdaSpec C) (m n : Manager C)
      → (launch w spec m).0 ≡ (launch w spec n).0
  unfolding launch
  launch-answer w spec m n =
      result-path (λ (r : Option ManagerError × Manager C). r.0) (prepare w spec) (λ _. refl)
        (λ has_routes. run_base-answer w spec has_routes m n)

  stop-ends :
      (w : World C) (id : Text) (m : Manager C) (inst : Instance)
      → get m.instances (trim_space id) ≡ some inst
      → ((stop w id m).0 ≡ none) × ((stop w id m).1.live ≡ cancel m.live (trim_space id) inst.base)
  unfolding stop end_instance
  stop-ends w id m inst runs = rw (stop, runs) (refl, persist_strategy-live _ (trim_space id))

  -- Two calls of Start that both made their test before either launched, where launches succeed: both
  -- succeed, two bases run under the id, and the Stop that follows cancels the later one only, so that
  -- the earlier one goes on with no instance.
  pub two_starts_leak :
      (w : World C) (id : Text) (spec : LambdaSpec C) (m : Manager C)
      → IsSound m
      → check_start id m ≡ ok spec
      → (launch w spec m).0 ≡ none
      → let first = (launch w spec m).1 in
        let second = (launch w spec first).1 in
        let stopped = (stop w id second).1 in
        ((launch w spec first).0 ≡ none)
        × (get stopped.instances spec.id ≡ none)
        × (bases_of stopped.live spec.id ≡ m.next_base ∷ [])
  unfolding is_stopped base_list
  two_starts_leak w id spec m s checked launched =
      let (named, found, idle) = check_start-ok id m spec checked in
      let key : spec.id ≡ trim_space id =
        (own_ids-get m.specs (trim_space id) spec s.own found).0 in
      let first = (launch w spec m).1 in
      let second = (launch w spec first).1 in
      let again : (launch w spec first).0 ≡ none = launch-answer w spec first m ∙ launched in
      let one : IsLaunched spec m first = launch-IsLaunched w spec m launched in
      let two : IsLaunched spec first second = launch-IsLaunched w spec first again in
      let after = (stop w id second).1 in
      let later : Instance = record {
        base = first.next_base;
        rev_key = revision_key spec.strategy;
      } in
      let (answer, ended) =
        stop-ends w id second later
          (subst (λ (k : Text). get second.instances k ≡ some later) key two.known) in
      let live : after.live ≡ cancel second.live spec.id first.next_base =
        subst (λ (k : Text). after.live ≡ cancel second.live k first.next_base) (sym key) ended in
      (
        again,
        subst (λ (k : Text). get after.instances k ≡ none) (sym key)
            (stop-stopped w id second (ground (arith, answer))),
        rw (live, two.runs, one.runs, one.next)
            (cancel-second m.live spec.id m.next_base (s.tracked spec.id ∙ ground (arith, idle))),
      )
