-- ===== src/Subscription/Diff.antt =====
-- subscription_manager.go, diffFilters: the values of filters that a route has and another has not.
use meltica_gateway.Common.{none, some, List, [], ◌∷◌, map, if◌then◌else◌, or_else}
use meltica_gateway.Common.Text.{Text, text_beq, text_eq, trim_space, to_lower}
use meltica_gateway.Common.Map.{Map, get, put}
use meltica_gateway.Dispatcher.Table.{FilterRule}
use meltica_gateway.Dispatcher.Table.Match.{has_text}
use meltica_gateway.Dispatcher.Filters.{
  AnyWriter, sort_texts, add_text, add_texts, rule_of, sort_rules,
}

-- fieldDelta, with its key in the map of deltas.
pub record FieldDelta : Type 0 where
  pub key : Text
  pub field : Text
  pub values : List Text

-- The entries of a flattened list: trimmed, without blanks.
unfoldable pub keep_filled : List Text → List Text
keep_filled [] = []
keep_filled (t ∷ ts) =
    let entry = trim_space t in
    let rest = keep_filled ts in if text_beq entry [] then rest else entry ∷ rest

-- A field's name for comparison.
unfoldable pub norm_field : Text → Text
norm_field field = trim_space (to_lower field)

-- acc.values[value] = struct{}{} in the entry of the key, which is made if it is missing.
unfoldable pub add_delta : List FieldDelta → Text → Text → Text → List FieldDelta
add_delta [] key field value = record { key = key; field = field; values = value ∷ [] } ∷ []
add_delta (d ∷ deltas) key field value =
    let rest = add_delta deltas key field value in
    if text_beq d.key key then record d { values = add_text d.values value } ∷ deltas else d ∷ rest

-- The loop over the values of a filter: those that the reference has are left out. A nil set has none.
unfoldable pub add_values : List Text → Text → List Text → List FieldDelta → List FieldDelta
add_values ref field [] deltas = deltas
add_values ref field (value ∷ values) deltas = add_values ref field values (
    if has_text ref value
    then deltas
    else add_delta deltas (norm_field field) (trim_space field) value)

module _ (w : AnyWriter) where
  open w use {any}
  open w.any use {V, as_items, as_texts, as_text, is_nothing, sprint}

  -- flattenFilterValues
  unfoldable pub flatten_filter_values : V → List Text
  flatten_filter_values value = if is_nothing value then [] else elim (as_text value) [
    | some t ↦ keep_filled (t ∷ [])
    | none ↦ elim (as_texts value) [
      | some ts ↦ keep_filled ts
      | none ↦ elim (as_items value) [
        | some items ↦ keep_filled (map sprint items)
        | none ↦ keep_filled (sprint value ∷ [])
      ]
    ]
  ]

  -- refSets
  unfoldable pub ref_sets : Map Text (List Text) → List (FilterRule V) → Map Text (List Text)
  ref_sets sets [] = sets
  ref_sets sets (filter ∷ filters) =
      let key = norm_field filter.field in
      let old = or_else (get sets key) [] in
      ref_sets
        (if text_beq key []
          then sets
          else put sets key (add_texts old (flatten_filter_values filter.value)))
        filters

  -- The loop over the filters of the target.
  unfoldable pub target_deltas :
      Map Text (List Text) → List (FilterRule V) → List FieldDelta → List FieldDelta
  target_deltas refs [] deltas = deltas
  target_deltas refs (filter ∷ filters) deltas =
      let key = norm_field filter.field in
      target_deltas refs filters (
        if text_beq key []
        then deltas
        else add_values (or_else (get refs key) []) filter.field
            (flatten_filter_values filter.value) deltas)

  -- The rule of an entry.
  unfoldable pub delta_rule : FieldDelta → FilterRule V
  delta_rule d = rule_of w d.field (sort_texts d.values)

  -- diffFilters
  unfoldable pub diff_filters : List (FilterRule V) → List (FilterRule V) → List (FilterRule V)
  diff_filters target reference =
      sort_rules w (map delta_rule (target_deltas (ref_sets [] reference) target []))
