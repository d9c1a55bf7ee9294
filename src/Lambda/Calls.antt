-- ===== src/Lambda/Calls.antt =====
-- What Create, Remove and Update keep.
use meltica_gateway.Common.{
  Bool, true, false, not, ◌&&◌, ◌||◌, ◌≡◌, refl, sym, ap, ◌∙◌, subst, Option, none, is_some,
  is_none, [], is_nil, option-both, if-both, arith,
}
use meltica_gateway.Common.Text.{Text, text_beq, text_beq_iff, text_eq, to_lower, trim_space}
use meltica_gateway.Common.Text.Laws.{trim_space_idem}
use meltica_gateway.Common.Map.{get, get-put_self, get-delete}
use meltica_gateway.Common.Exec.{Result, ok, err, result-both}
use meltica_gateway.Lambda.Spec.{
  LambdaSpec, sanitize_spec, refresh_providers, all_symbols, equal_string_slices,
  equal_provider_symbols,
}
use meltica_gateway.Lambda.Manager.{
  Manager, World, ManagerError, persist_strategy, store_spec, ensure_spec, resolve_strategy,
  mark_created, create, end_instance, stop, is_stopped, forget, remove, relaunch, update,
}
use meltica_gateway.Lambda.Own.{own_ids-key, own_ids-delete}
use meltica_gateway.Lambda.Sound.{
  IsSound, persist_strategy-IsSound, store_spec-IsSound, launch-IsSound, stop-IsSound,
}

module _ {C : Type 0} where
  pub sanitize_spec-trimmed :
      (spec : LambdaSpec C) → trim_space (sanitize_spec spec).id ≡ (sanitize_spec spec).id
  unfolding sanitize_spec refresh_providers
  sanitize_spec-trimmed spec =
      if-both (λ (r : LambdaSpec C). trim_space r.id ≡ r.id) (is_nil spec.provider_symbols)
        (λ _. trim_space_idem spec.id) (λ _. trim_space_idem spec.id)

  persist_strategy-specs : (m : Manager C) (id : Text) → (persist_strategy m id).specs ≡ m.specs
  unfolding persist_strategy
  persist_strategy-specs m id =
      option-both (λ (n : Manager C). n.specs ≡ m.specs) (get m.specs id) (λ _. refl) (λ _ _. refl)

  pub persist_strategy-instances :
      (m : Manager C) (id : Text) → (persist_strategy m id).instances ≡ m.instances
  unfolding persist_strategy
  persist_strategy-instances m id =
      option-both (λ (n : Manager C). n.instances ≡ m.instances) (get m.specs id) (λ _. refl)
        (λ _ _. refl)

  -- A call of Stop that fails with nothing but ErrInstanceNotRunning leaves the instance stopped.
  pub stop-stopped :
      (w : World C) (id : Text) (m : Manager C)
      → is_stopped ((stop w id m).0) ≡ true
      → get ((stop w id m).1).instances (trim_space id) ≡ none
  unfolding stop end_instance is_stopped
  stop-stopped w id m =
      option-both
        (λ (r : Option ManagerError × Manager C).
          is_stopped (r.0) ≡ true → get (r.1).instances (trim_space id) ≡ none)
        (get m.instances (trim_space id)) (λ gone _. gone)
        (λ inst runs _. rw (persist_strategy-instances _ (trim_space id)) (
          get-delete m.instances (trim_space id) (trim_space id)
          ∙ ground (arith, text_beq_iff (trim_space id) (trim_space id))))

  pub stop-specs : (w : World C) (id : Text) (m : Manager C) → ((stop w id m).1).specs ≡ m.specs
  unfolding stop end_instance
  stop-specs w id m =
      option-both (λ (r : Option ManagerError × Manager C). (r.1).specs ≡ m.specs)
        (get m.instances (trim_space id)) (λ _. refl)
        (λ inst _. persist_strategy-specs _ (trim_space id))

  forget-IsSound :
      (id : Text) (m : Manager C)
      → get m.instances (trim_space id) ≡ none
      → IsSound m
      → IsSound ((forget id m).1)
  unfolding forget
  forget-IsSound id m stopped s =
      if-both (λ (r : Option ManagerError × Manager C). IsSound (r.1)) (is_none (get m.specs id))
        (λ _. s)
        (λ there.
          let trimmed : trim_space id ≡ id = own_ids-key m.specs id s.own (ground (arith, there)) in
          let gone : get m.instances id ≡ none =
            subst (λ (k : Text). get m.instances k ≡ none) trimmed stopped in
          record {
            own = own_ids-delete m.specs id s.own;
            accounted = s.accounted;
            tracked = s.tracked;
            routed = s.routed;
            specified = λ j runs.
                ground
                  (arith, runs, gone, s.specified j, get-delete m.specs id j, text_beq_iff id j);
            named = s.named;
          })

  pub remove-IsSound :
      (w : World C) (id : Text) (m : Manager C) → IsSound m → IsSound ((remove w id m).1)
  unfolding remove
  remove-IsSound w id m s =
      if-both (λ (r : Option ManagerError × Manager C). IsSound (r.1))
        (is_stopped ((stop w id m).0))
        (λ stopped.
          forget-IsSound id ((stop w id m).1) (stop-stopped w id m stopped) (stop-IsSound w id m s))
        (λ _. stop-IsSound w id m s)

  mark_created-IsSound : (id : Text) (m : Manager C) → IsSound m → IsSound (mark_created id m)
  unfolding mark_created
  mark_created-IsSound id m s = persist_strategy-IsSound _ id (record {
    own = s.own;
    accounted = s.accounted;
    tracked = s.tracked;
    routed = s.routed;
    specified = s.specified;
    named = s.named;
  })

  pub ensure_spec-IsSound :
      (w : World C) (replace : Bool) (spec : LambdaSpec C) (m : Manager C)
      → trim_space spec.id ≡ spec.id
      → IsSound m
      → IsSound ((ensure_spec w replace spec m).1)
  unfolding ensure_spec
  ensure_spec-IsSound w replace spec m trimmed s =
      result-both (λ (r : Result ManagerError (LambdaSpec C) × Manager C). IsSound (r.1))
        (resolve_strategy w spec.strategy) (λ _ _. s)
        (λ strategy _.
          if-both (λ (r : Result ManagerError (LambdaSpec C) × Manager C). IsSound (r.1))
            (not (w.strategies (to_lower (trim_space strategy.identifier)))) (λ _. s)
            (λ _.
              if-both (λ (r : Result ManagerError (LambdaSpec C) × Manager C). IsSound (r.1))
                (is_some (get m.specs spec.id) && not replace) (λ _. s)
                (λ _. store_spec-IsSound m (record spec { strategy = strategy }) trimmed s)))

  pub create-IsSound :
      (w : World C) (given : LambdaSpec C) (m : Manager C)
      → IsSound m
      → IsSound ((create w given m).1)
  unfolding create
  create-IsSound w given m s =
      let spec = sanitize_spec given in
      if-both (λ (r : Option ManagerError × Manager C). IsSound (r.1))
        (text_beq spec.id [] || is_nil spec.providers || text_beq spec.strategy.identifier [])
        (λ _. s)
        (λ _.
          if-both (λ (r : Option ManagerError × Manager C). IsSound (r.1))
            (is_nil (all_symbols spec)) (λ _. s)
            (λ _.
              let ensured : IsSound ((ensure_spec w false spec m).1) =
                ensure_spec-IsSound w false spec m (sanitize_spec-trimmed given) s in
              result-both (λ (r : Option ManagerError × Manager C). IsSound (r.1))
                ((ensure_spec w false spec m).0) (λ _ _. ensured)
                (λ _ _. mark_created-IsSound spec.id _ ensured)))

  relaunch-IsSound :
      (w : World C) (spec : LambdaSpec C) (running : Bool) (m : Manager C)
      → trim_space spec.id ≡ spec.id
      → text_beq spec.id [] ≡ false
      → is_some (get m.specs spec.id) ≡ true
      → IsSound m
      → IsSound ((relaunch w spec running m).1)
  unfolding relaunch
  relaunch-IsSound w spec running m trimmed named there s =
      let stopped_m = (stop w spec.id m).1 in
      let sound : IsSound stopped_m = stop-IsSound w spec.id m s in
      if-both (λ (r : Option ManagerError × Manager C). IsSound (r.1))
        (not (is_stopped ((stop w spec.id m).0))) (λ _. sound)
        (λ ended.
          if-both (λ (r : Option ManagerError × Manager C). IsSound (r.1)) running
            (λ _.
              launch-IsSound w stopped_m spec named (rw (stop-specs w spec.id m) there)
                (subst (λ (k : Text). get stopped_m.instances k ≡ none) trimmed
                  (stop-stopped w spec.id m (ground (arith, ended))))
                sound)
            (λ _. sound))

  -- What ensureSpec leaves where it gives a spec: that spec, under the id that it was given.
  ensure_spec-stores :
      (w : World C) (replace : Bool) (spec resolved : LambdaSpec C) (m : Manager C)
      → (ensure_spec w replace spec m).0 ≡ ok resolved
      → (resolved.id ≡ spec.id)
        × (is_some (get ((ensure_spec w replace spec m).1).specs resolved.id) ≡ true)
  unfolding ensure_spec store_spec
  ensure_spec-stores w replace spec resolved m =
      result-both
        (λ (r : Result ManagerError (LambdaSpec C) × Manager C). r.0 ≡ ok resolved → Stored r)
        (resolve_strategy w spec.strategy) (λ _ _ bad. ground (arith, bad))
        (λ strategy _.
          if-both
            (λ (r : Result ManagerError (LambdaSpec C) × Manager C). r.0 ≡ ok resolved → Stored r)
            (not (w.strategies (to_lower (trim_space strategy.identifier))))
            (λ _ bad. ground (arith, bad))
            (λ _.
              if-both
                (λ (r : Result ManagerError (LambdaSpec C) × Manager C).
                  r.0 ≡ ok resolved → Stored r)
                (is_some (get m.specs spec.id) && not replace) (λ _ bad. ground (arith, bad))
                (λ _ found.
                  let same : spec.id ≡ resolved.id = ap id_of found in
                  (sym same, rw (← same) (stored (record spec { strategy = strategy }))))))
    where
      Stored : Result ManagerError (LambdaSpec C) × Manager C → Type 0
      Stored r = (resolved.id ≡ spec.id) × (is_some (get (r.1).specs resolved.id) ≡ true)

      id_of : Result ManagerError (LambdaSpec C) → Text
      id_of (err _) = []
      id_of (ok found) = found.id

      stored : (kept : LambdaSpec C) → is_some (get (store_spec m kept).specs kept.id) ≡ true
      stored kept =
          rw (persist_strategy-specs _ kept.id) (rw (get-put_self m.specs kept.id kept) refl)

  pub update-IsSound :
      (w : World C) (given : LambdaSpec C) (m : Manager C)
      → IsSound m
      → IsSound ((update w given m).1)
  unfolding update
  update-IsSound w given m s =
      let spec = sanitize_spec given in
      let ensured : IsSound ((ensure_spec w true spec m).1) =
        ensure_spec-IsSound w true spec m (sanitize_spec-trimmed given) s in
      if-both (λ (r : Option ManagerError × Manager C). IsSound (r.1)) (text_beq spec.id [])
        (λ _. s)
        (λ named.
          option-both (λ (r : Option ManagerError × Manager C). IsSound (r.1)) (get m.specs spec.id)
            (λ _. s)
            (λ current _.
              if-both (λ (r : Option ManagerError × Manager C). IsSound (r.1))
                (not (equal_string_slices current.providers spec.providers)) (λ _. s)
                (λ _.
                  if-both (λ (r : Option ManagerError × Manager C). IsSound (r.1))
                    (not (equal_provider_symbols current.provider_symbols spec.provider_symbols))
                    (λ _. s)
                    (λ _.
                      if-both (λ (r : Option ManagerError × Manager C). IsSound (r.1))
                        (not (text_beq current.strategy.identifier spec.strategy.identifier))
                        (λ _. s)
                        (λ _.
                          result-both (λ (r : Option ManagerError × Manager C). IsSound (r.1))
                            ((ensure_spec w true spec m).0) (λ _ _. ensured)
                            (λ resolved e.
                              let (same, there) = ensure_spec-stores w true spec resolved m e in
                              relaunch-IsSound w resolved (is_some (get m.instances spec.id))
                                ((ensure_spec w true spec m).1)
                                (rw same (sanitize_spec-trimmed given)) (rw same named) there
                                ensured))))))
