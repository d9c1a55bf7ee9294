-- ===== src/Lambda/Pins.antt =====
-- What Update and a restoration make of the revision that a spec names, and what Remove answers.
use meltica_gateway.Common.{
  true, false, not, ◌&&◌, ◌≡◌, refl, sym, ap, ◌∙◌, Option, none, some, is_some, [], is_nil,
  if◌then◌else◌, Bool-cases, Option-cases, inl, inr, option-both, arith,
}
use meltica_gateway.Common.Text.{Text, text_beq, text_beq_iff, text_eq, trim_space}
use meltica_gateway.Common.Map.{get}
use meltica_gateway.Common.Exec.{ok, err, if-path}
use meltica_gateway.Dispatcher.Registrar.{normalize_providers}
use meltica_gateway.Lambda.Spec.{
  LambdaSpec, StrategySpec, normalize_strategy, sanitize_spec, refresh_providers,
}
use meltica_gateway.Lambda.Manager.{
  Manager, World, ManagerError, Snapshot, pin, resolve_strategy, ensure_spec, stop, is_stopped,
  forget, remove, instance_not_found,
}
use meltica_gateway.Lambda.Restore.{spec_from_snapshot, resume, restore_snapshot}
use meltica_gateway.Lambda.Own.{own_ids-key}
use meltica_gateway.Lambda.Sound.{IsSound}
use meltica_gateway.Lambda.Calls.{stop-stopped, stop-specs}

-- A strategy whose selector, tag and hash are others.
unfoldable pub repinned : {C : Type 0} → StrategySpec C → Text → Text → Text → StrategySpec C
repinned s selector tag hash = record s { selector = selector; tag = tag; hash = hash }

module _ {C : Type 0} where
  -- A spec whose strategy has no selector, tag and hash.
  unfoldable bare : LambdaSpec C → LambdaSpec C
  bare spec = record spec { strategy = repinned spec.strategy [] [] [] }

  refresh_providers-bare :
      (spec : LambdaSpec C) → bare (refresh_providers spec) ≡ bare (refresh_providers (bare spec))
  unfolding refresh_providers bare repinned normalize_strategy
  refresh_providers-bare spec = if-path bare (is_nil spec.provider_symbols) refl refl

  sanitize_spec-bare :
      (spec : LambdaSpec C) → bare (sanitize_spec spec) ≡ bare (sanitize_spec (bare spec))
  unfolding sanitize_spec bare repinned
  sanitize_spec-bare spec =
      ap (λ (b : LambdaSpec C). record b { providers = normalize_providers b.providers })
        (refresh_providers-bare (record spec { id = trim_space spec.id }))

  spec_from_snapshot-repinned :
      (s : Snapshot C) (selector tag hash : Text)
      → bare (spec_from_snapshot (record s { strategy = repinned s.strategy selector tag hash }))
        ≡ bare (spec_from_snapshot s)
  unfolding spec_from_snapshot bare repinned
  spec_from_snapshot-repinned s selector tag hash =
      let spec : LambdaSpec C = record {
        id = s.id;
        strategy = s.strategy;
        provider_symbols = s.provider_symbols;
        providers = s.providers;
      } in
      let other : LambdaSpec C = record spec { strategy = repinned s.strategy selector tag hash } in
      sanitize_spec-bare _
      ∙ ap (λ (b : LambdaSpec C). bare (sanitize_spec b))
          (if-path bare (not (is_nil s.providers) && is_nil s.provider_symbols) {x = other}
            {y = refresh_providers other} {x' = spec} {y' = refresh_providers spec} refl
            (refresh_providers-bare other ∙ sym (refresh_providers-bare spec)))
      ∙ sym (sanitize_spec-bare _)

  -- The restoration of a stored instance does not read the revision that was stored with it: whatever
  -- selector, tag and hash the snapshot has, the manager that is left is the same.
  pub restore_snapshot-repinned :
      (w : World C) (s : Snapshot C) (m : Manager C) (selector tag hash : Text)
      → restore_snapshot w (record s { strategy = repinned s.strategy selector tag hash }) m
        ≡ restore_snapshot w s m
  unfolding restore_snapshot resume ensure_spec resolve_strategy pin bare repinned
  restore_snapshot-repinned w s m selector tag hash =
      ap
        (λ (b : LambdaSpec C). if text_beq s.id [] then m else elim (ensure_spec w true b m).0 [
          | err e ↦ (ensure_spec w true b m).1
          | ok spec ↦ resume w s (ensure_spec w true b m).1
        ])
        (spec_from_snapshot-repinned s selector tag hash)

  -- Where Stop fails otherwise than with ErrInstanceNotRunning, there is no spec, and no instance.
  stop-unknown :
      (w : World C) (id : Text) (m : Manager C)
      → is_stopped ((stop w id m).0) ≡ false
      → ((stop w id m).0 ≡ some instance_not_found)
        × (get m.specs (trim_space id) ≡ none)
        × (get ((stop w id m).1).instances (trim_space id) ≡ none)
  unfolding stop is_stopped
  stop-unknown w id m =
      option-both
        (λ (r : Option ManagerError × Manager C).
          is_stopped (r.0) ≡ false
          → (r.0 ≡ some instance_not_found)
            × (get m.specs (trim_space id) ≡ none)
            × (get (r.1).instances (trim_space id) ≡ none))
        (get m.instances (trim_space id)) (λ gone failed. ground (arith, gone, failed))
        (λ inst runs failed. ground (arith, failed))

  forget_lem :
      (id : Text) (m : Manager C)
      → ((forget id m).0 ≡ (if is_some (get m.specs id) then none else some instance_not_found))
        × ((forget id m).1.instances ≡ m.instances)
  unfolding forget
  forget_lem id m = elim (Option-cases (get m.specs id)) [
    | inl missing ↦ rw missing (refl, refl)
    | inr (spec, found) ↦ rw found (refl, refl)
  ]

  -- What Remove answers where the manager is sound: it succeeds if the id has no spaces around it and
  -- has a spec, and else answers ErrInstanceNotFound; and either way no instance runs under the trimmed
  -- id.
  pub remove_lem :
      (w : World C) (id : Text) (m : Manager C)
      → IsSound m
      → ((remove w id m).0 ≡ (
          if text_beq (trim_space id) id && is_some (get m.specs id)
          then none
          else some instance_not_found))
        × (get ((remove w id m).1).instances (trim_space id) ≡ none)
  unfolding remove
  remove_lem w id m s = elim (Bool-cases (is_stopped ((stop w id m).0))) [
    | inl stopped ↦
        let (answer, kept) = forget_lem id ((stop w id m).1) in
        rw stopped (
          answer
              ∙ rw (stop-specs w id m)
                  (ground (arith, own_ids-key m.specs id s.own, text_beq_iff (trim_space id) id)),
          rw kept (stop-stopped w id m stopped),
        )
    | inr failed ↦
        let (unknown, missing, gone) = stop-unknown w id m failed in
        rw failed (
          unknown
              ∙ ground
                  (arith, missing, own_ids-key m.specs id s.own, text_beq_iff (trim_space id) id),
          gone,
        )
  ]
