-- ===== src/Lambda/Restore.antt =====
-- manager.go: the restoration of stored instances, and histories of calls.
use meltica_gateway.Common.{Bool, true, ◌&&◌, not, List, [], ◌∷◌, is_nil, if◌then◌else◌}
use meltica_gateway.Common.Text.{Text, text_beq}
use meltica_gateway.Common.Exec.{ok, err}
use meltica_gateway.Lambda.Spec.{LambdaSpec, sanitize_spec, refresh_providers}
use meltica_gateway.Lambda.Manager.{
  Manager, World, Snapshot, set_flag, ensure_spec, create, start, stop, remove, update,
}
use meltica_gateway.Lambda.Refresh.{RefreshTargets, refresh}

module _ {C : Type 0} where
  -- specFromSnapshot
  unfoldable pub spec_from_snapshot : Snapshot C → LambdaSpec C
  spec_from_snapshot s =
      let spec : LambdaSpec C = record {
        id = s.id;
        strategy = s.strategy;
        provider_symbols = s.provider_symbols;
        providers = s.providers;
      } in
      sanitize_spec (
        if not (is_nil s.providers) && is_nil s.provider_symbols
        then spec
        else refresh_providers spec)

  -- restoreStrategySnapshot after ensureSpec.
  unfoldable pub resume : World C → Snapshot C → Manager C → Manager C
  resume w s m =
      let m' = record m {
        baseline = set_flag m.baseline s.id s.is_baseline;
        dynamic_instances =
            if text_beq s.id []
            then m.dynamic_instances
            else set_flag m.dynamic_instances s.id s.is_dynamic;
      } in
      if s.running then (start w s.id m').1 else m'

  -- RestoreSnapshot, which logs its errors.
  unfoldable pub restore_snapshot : World C → Snapshot C → Manager C → Manager C
  restore_snapshot w s m =
      if text_beq s.id []
      then m
      else (let (r, m') = ensure_spec w true (spec_from_snapshot s) m in
          elim r [ err e ↦ m' | ok spec ↦ resume w s m' ])

-- A call of the manager, each with what surrounds it.
pub data Call (C : Type 0) : Type 0 where
  creates : World C → LambdaSpec C → Call C
  starts stops removes : World C → Text → Call C
  updates : World C → LambdaSpec C → Call C
  refreshes : World C → Bool → RefreshTargets → Call C
  restores : World C → Snapshot C → Call C

-- What a call leaves, and a history of calls.
unfoldable pub perform : {C : Type 0} → Call C → Manager C → Manager C
perform (creates w spec) m = (create w spec m).1
perform (starts w id) m = (start w id m).1
perform (stops w id) m = (stop w id m).1
perform (removes w id) m = (remove w id m).1
perform (updates w spec) m = (update w spec m).1
perform (refreshes w installed targets) m = (refresh w installed targets m).1
perform (restores w s) m = restore_snapshot w s m

unfoldable pub perform_all : {C : Type 0} → List (Call C) → Manager C → Manager C
perform_all [] m = m
perform_all (c ∷ calls) m = perform_all calls (perform c m)
