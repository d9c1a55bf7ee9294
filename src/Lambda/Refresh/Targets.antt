-- ===== src/Lambda/Refresh/Targets.antt =====
-- manager.go: which instances a refresh is for, and what it answers.
use meltica_gateway.Common.{
  Bool, false, not, ◌&&◌, ◌||◌, List, [], ◌∷◌, ◌++◌, is_nil, map, if◌then◌else◌,
}
use meltica_gateway.Common.Text.{Text, codes, text_beq, text_eq, text_lt, trim_space}
use meltica_gateway.Dispatcher.Table.Match.{has_text}
use meltica_gateway.Dispatcher.Filters.{add_text}
use meltica_gateway.Lambda.Usage.{normalize_strategy_name, normalize_revision_hash}

-- RefreshTargets
pub record RefreshTargets : Type 0 where
  pub strategies : List Text
  pub hashes : List Text

-- RefreshResult
pub record RefreshResult : Type 0 where
  pub selector : Text
  pub strategy : Text
  pub hash : Text
  pub previous_hash : Text
  pub instances : List Text
  pub reason : Text

-- refreshTargetFilter
pub record TargetFilter : Type 0 where
  pub all : Bool
  pub selectors : List Text
  pub identifiers : List Text
  pub hashes : List Text
  pub requested_selectors : List Text
  pub requested_hashes : List Text
  pub matched_selectors : List Text
  pub matched_hashes : List Text

-- refreshMatch
pub record RefreshMatch : Type 0 where
  pub matched : Bool
  pub by_hash : Bool
  pub by_selector : Bool
  pub by_identifier : Bool
  pub selector_key : Text
  pub identifier_key : Text
  pub hash_key : Text

-- The loop of newRefreshTargetFilter over the strategies, each a selector and an identifier at once.
unfoldable pub add_strategies : TargetFilter → List Text → TargetFilter
add_strategies f [] = f
add_strategies f (raw ∷ strategies) =
    let name = normalize_strategy_name (trim_space raw) in
    add_strategies
      (if text_beq (trim_space raw) [] || text_beq name [] then f else record f {
        selectors = add_text f.selectors name;
        requested_selectors = f.requested_selectors ++ name ∷ [];
        identifiers = add_text f.identifiers name;
      })
      strategies

-- The loop over the hashes.
unfoldable pub add_hashes : TargetFilter → List Text → TargetFilter
add_hashes f [] = f
add_hashes f (raw ∷ hashes) =
    let hash = normalize_revision_hash raw in
    add_hashes
      (if text_beq hash [] then f else record f {
        hashes = add_text f.hashes hash;
        requested_hashes = f.requested_hashes ++ hash ∷ [];
      })
      hashes

unfoldable pub empty_filter : TargetFilter
empty_filter = record {
  all = false;
  selectors = [];
  identifiers = [];
  hashes = [];
  requested_selectors = [];
  requested_hashes = [];
  matched_selectors = [];
  matched_hashes = [];
}

-- newRefreshTargetFilter
unfoldable pub new_target_filter : RefreshTargets → TargetFilter
new_target_filter targets =
    let f = add_hashes (add_strategies empty_filter targets.strategies) targets.hashes in
    record f { all = is_nil f.selectors && is_nil f.identifiers && is_nil f.hashes }

-- A key of a spec is not blank and among the targets.
unfoldable pub is_target : List Text → Text → Bool
is_target targets key = not (text_beq key []) && has_text targets key

unfoldable pub key_if : Bool → Text → Text
key_if hit key = if hit then key else []

-- recordMatch
unfoldable pub record_match : TargetFilter → RefreshMatch → TargetFilter
record_match f found =
    let selected =
      if found.by_selector && not (text_beq found.selector_key [])
      then add_text f.matched_selectors found.selector_key
      else f.matched_selectors in
    if f.all || not found.matched then f else record f {
      matched_hashes =
          if found.by_hash && not (text_beq found.hash_key [])
          then add_text f.matched_hashes found.hash_key
          else f.matched_hashes;
      matched_selectors =
          if found.by_identifier && not (text_beq found.identifier_key [])
          then add_text selected found.identifier_key
          else selected;
    }

-- The loops of unmatchedHashTargets and unmatchedSelectors.
unfoldable pub not_matched : List Text → List Text → List Text
not_matched matched [] = []
not_matched matched (t ∷ requested) =
    let rest = not_matched matched requested in if has_text matched t then rest else t ∷ rest

-- unmatchedHashTargets
unfoldable pub unmatched_hash_targets : TargetFilter → List Text
unmatched_hash_targets f = if f.all then [] else not_matched f.matched_hashes f.requested_hashes

-- unmatchedSelectors
unfoldable pub unmatched_selectors : TargetFilter → List Text
unmatched_selectors f = if f.all then [] else not_matched f.matched_selectors f.requested_selectors

-- The results of buildUnmatchedRefreshResults.
unfoldable pub retired_hash : Text → RefreshResult
retired_hash hash = record {
  selector = hash;
  strategy = [];
  hash = hash;
  previous_hash = hash;
  instances = [];
  reason = codes "retired";
}

unfoldable pub retired_selector : Text → RefreshResult
retired_selector selector = record {
  selector = selector;
  strategy = [];
  hash = [];
  previous_hash = [];
  instances = [];
  reason = codes "retired";
}

-- buildUnmatchedRefreshResults
unfoldable pub build_unmatched_results : TargetFilter → List RefreshResult
build_unmatched_results f =
    map retired_hash (unmatched_hash_targets f) ++ map retired_selector (unmatched_selectors f)

-- The order of sort.Slice on results.
unfoldable pub result_before : RefreshResult → RefreshResult → Bool
result_before a b =
    if text_beq a.selector b.selector
    then text_lt a.strategy b.strategy
    else text_lt a.selector b.selector

unfoldable pub insert_result : RefreshResult → List RefreshResult → List RefreshResult
insert_result r [] = r ∷ []
insert_result r (x ∷ results) =
    let rest = insert_result r results in if result_before x r then x ∷ rest else r ∷ x ∷ results

unfoldable pub sort_results : List RefreshResult → List RefreshResult
sort_results [] = []
sort_results (r ∷ results) = insert_result r (sort_results results)
