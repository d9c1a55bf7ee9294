-- ===== src/Lambda/Usage.antt =====
-- manager.go: which instances run which revision of a strategy.
use meltica_gateway.Common.{
  ℕ, Bool, none, some, List, [], ◌∷◌, ◌++◌, nat_eq, if◌then◌else◌, or_else, length, ltb,
}
use meltica_gateway.Common.Text.{Text, text_beq, text_eq, trim_space, to_lower}
use meltica_gateway.Common.Map.{Map, get, put}
use meltica_gateway.Schema.Order.{Time}
use meltica_gateway.Dispatcher.Table.Match.{has_text}
use meltica_gateway.Dispatcher.Filters.{sort_texts}
use meltica_gateway.Lambda.Spec.{StrategySpec}

-- revisionUsage
pub record RevisionUsage : Type 0 where
  pub strategy : Text
  pub hash : Text
  pub instances : List Text
  pub first_seen : Time
  pub last_seen : Time

-- RevisionUsageSummary
pub record UsageSummary : Type 0 where
  pub strategy : Text
  pub hash : Text
  pub instances : List Text
  pub count : ℕ
  pub first_seen : Time
  pub last_seen : Time
  pub is_running : Bool

-- newRevisionUsage
unfoldable pub new_revision_usage : Text → Text → RevisionUsage
new_revision_usage strategy hash = record {
  strategy = strategy;
  hash = hash;
  instances = [];
  first_seen = 0;
  last_seen = 0;
}

-- addInstance
unfoldable pub add_instance : RevisionUsage → Text → Time → RevisionUsage
add_instance u id now =
    if text_beq id []
    then u
    else if has_text u.instances id
    then record u { last_seen = now }
    else record u {
      instances = id ∷ u.instances;
      first_seen = if nat_eq u.first_seen 0 then now else u.first_seen;
      last_seen = now;
    }

-- delete(u.instances, id)
unfoldable pub remove_text : List Text → Text → List Text
remove_text [] id = []
remove_text (x ∷ xs) id = let rest = remove_text xs id in if text_beq id x then rest else x ∷ rest

-- removeInstance
unfoldable pub remove_instance : RevisionUsage → Text → Time → RevisionUsage
remove_instance u id now =
    if text_beq id []
    then u
    else if has_text u.instances id
    then record u { instances = remove_text u.instances id; last_seen = now }
    else u

-- snapshot
unfoldable pub usage_snapshot : RevisionUsage → UsageSummary
usage_snapshot u = record {
  strategy = u.strategy;
  hash = u.hash;
  instances = sort_texts u.instances;
  count = length u.instances;
  first_seen = u.first_seen;
  last_seen = u.last_seen;
  is_running = ltb 0 (length u.instances);
}

-- normalizeStrategyName and normalizeSelector, which are the same.
unfoldable pub normalize_strategy_name : Text → Text
normalize_strategy_name name = to_lower (trim_space name)

-- normalizeRevisionHash
unfoldable pub normalize_revision_hash : Text → Text
normalize_revision_hash hash = trim_space hash

-- buildRevisionKey
unfoldable pub build_revision_key : Text → Text → Text
build_revision_key strategy hash = strategy ++ 0x1f ∷ hash

-- The key of revisionSignatureForSpec.
unfoldable pub revision_key : {C : Type 0} → StrategySpec C → Text
revision_key s =
    build_revision_key (normalize_strategy_name s.identifier) (normalize_revision_hash s.hash)

-- ensureRevisionUsageLocked
unfoldable pub ensure_revision_usage :
    {C : Type 0} → Map Text RevisionUsage → StrategySpec C → Map Text RevisionUsage
ensure_revision_usage usage s = elim (get usage (revision_key s)) [
  | some u ↦ usage
  | none ↦
      put usage (revision_key s)
        (new_revision_usage (normalize_strategy_name s.identifier) (normalize_revision_hash s.hash))
]

-- markInstanceRunningLocked
unfoldable pub mark_instance_running :
    {C : Type 0} → Map Text RevisionUsage → StrategySpec C → Text → Time → Map Text RevisionUsage
mark_instance_running usage s id now =
    let key = revision_key s in
    let fresh =
      new_revision_usage (normalize_strategy_name s.identifier) (normalize_revision_hash s.hash) in
    put usage key (add_instance (or_else (get usage key) fresh) id now)

-- markInstanceStoppedLocked
unfoldable pub mark_instance_stopped :
    Map Text RevisionUsage → Text → Text → Time → Map Text RevisionUsage
mark_instance_stopped usage key id now =
    if text_beq key []
    then usage
    else elim (get usage key) [ none ↦ usage | some u ↦ put usage key (remove_instance u id now) ]
