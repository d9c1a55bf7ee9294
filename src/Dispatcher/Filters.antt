-- ===== src/Dispatcher/Filters.antt =====
-- registrar.go: how the filters of lambdas are merged and put into a normal form. A filter's value is
-- Go's `any`, a parameter, in which the code also writes strings and slices of strings.
use meltica_gateway.Common.{
  Bool, none, some, is_some, List, [], ◌∷◌, map, is_nil, if◌then◌else◌, or_else,
}
use meltica_gateway.Common.Text.{Text, codes, text_beq, text_eq, text_lt, trim_space, to_lower}
use meltica_gateway.Common.Map.{Map, get, put}
use meltica_gateway.Dispatcher.Table.{FilterRule}
use meltica_gateway.Dispatcher.Table.Match.{AnyType}

-- sort.Strings
unfoldable pub insert_text : Text → List Text → List Text
insert_text t [] = t ∷ []
insert_text t (u ∷ us) = let rest = insert_text t us in if text_lt u t then u ∷ rest else t ∷ u ∷ us

unfoldable pub sort_texts : List Text → List Text
sort_texts [] = []
sort_texts (t ∷ ts) = insert_text t (sort_texts ts)

-- A set of strings, as the keys of a map.
unfoldable pub add_text : List Text → Text → List Text
add_text [] t = t ∷ []
add_text (u ∷ us) t = let rest = add_text us t in if text_beq u t then u ∷ us else u ∷ rest

unfoldable pub add_texts : List Text → List Text → List Text
add_texts set [] = set
add_texts set (t ∷ ts) = add_texts (add_text set t) ts

-- What can be written to an `any`.
pub record AnyWriter : Type 1 where
  pub any : AnyType
  pub from_text : Text → any.V
  pub from_texts : List Text → any.V

module _ (w : AnyWriter) where
  open w use {any, from_text, from_texts}
  open w.any use {V, as_items, as_texts, as_text, is_nothing, sprint}

  -- flattenValues
  unfoldable pub flatten_values : V → List Text
  flatten_values value = if is_nothing value then [] else elim (as_text value) [
    | some t ↦ trim_space t ∷ []
    | none ↦ elim (as_texts value) [
      | some ts ↦ map trim_space ts
      | none ↦ elim (as_items value) [
        | some items ↦ map (λ v. trim_space (sprint v)) items
        | none ↦ trim_space (sprint value) ∷ []
      ]
    ]
  ]

  -- accumulate: the values of a field are added to its set.
  unfoldable pub accumulate : Map Text (List Text) → Text → V → Map Text (List Text)
  accumulate sets field value =
      let name = trim_space field in
      if text_beq name []
      then sets
      else put sets name (add_texts (or_else (get sets name) []) (flatten_values value))

  unfoldable pub accumulate_rules :
      Map Text (List Text) → List (FilterRule V) → Map Text (List Text)
  accumulate_rules sets [] = sets
  accumulate_rules sets (rule ∷ rules) =
      accumulate_rules (accumulate sets rule.field rule.value) rules

  unfoldable pub accumulate_map : Map Text (List Text) → Map Text V → Map Text (List Text)
  accumulate_map sets [] = sets
  accumulate_map sets ((field, value) ∷ overrides) =
      accumulate_map (accumulate sets field value) overrides

  -- The rule of a field and its sorted values: one is tested by eq, others by in.
  unfoldable pub rule_of : Text → List Text → FilterRule V
  rule_of field (value ∷ []) = record { field = field; op = codes "eq"; value = from_text value }
  rule_of field values = record { field = field; op = codes "in"; value = from_texts values }

  unfoldable pub rules_of : Map Text (List Text) → List (FilterRule V)
  rules_of [] = []
  rules_of ((field, values) ∷ sets) = rule_of field (sort_texts values) ∷ rules_of sets

  -- A filter's operator where it has none: a slice of strings is tested by in.
  unfoldable pub default_op : Text → V → Text
  default_op op value =
      if text_beq op [] then if is_some (as_texts value) then codes "in" else codes "eq" else op

  -- The case []any of normalizeFilters: the values become strings, and a single one a string.
  unfoldable pub normalize_items : FilterRule V → List Text → FilterRule V
  normalize_items rule (value ∷ []) = record rule {
    value = if text_beq rule.op (codes "eq") then from_text value else from_texts (value ∷ []);
  }
  normalize_items rule values = record rule {
    op = if text_beq rule.op (codes "eq") then codes "in" else rule.op;
    value = from_texts values;
  }

  -- The switch on a filter's value in normalizeFilters.
  unfoldable pub normalize_value : FilterRule V → FilterRule V
  normalize_value rule = elim (as_texts rule.value) [
    | some ts ↦ record rule { value = from_texts (sort_texts (map trim_space ts)) }
    | none ↦ elim (as_items rule.value) [
      | some items ↦ normalize_items rule (sort_texts (map (λ v. trim_space (sprint v)) items))
      | none ↦ elim (as_text rule.value) [
        | some t ↦ record rule { value = from_text (trim_space t) }
        | none ↦ rule
      ]
    ]
  ]

  -- One round of the loop of normalizeFilters.
  unfoldable pub normalize_filter : FilterRule V → FilterRule V
  normalize_filter filter = normalize_value (record {
    field = trim_space filter.field;
    op = default_op (trim_space (to_lower filter.op)) filter.value;
    value = filter.value;
  })

  -- The order of sort.Slice; rules with one field and operator keep their order here.
  unfoldable pub rule_before : FilterRule V → FilterRule V → Bool
  rule_before a b = if text_beq a.field b.field then text_lt a.op b.op else text_lt a.field b.field

  unfoldable pub insert_rule : FilterRule V → List (FilterRule V) → List (FilterRule V)
  insert_rule r [] = r ∷ []
  insert_rule r (s ∷ rules) =
      let rest = insert_rule r rules in if rule_before s r then s ∷ rest else r ∷ s ∷ rules

  unfoldable pub sort_rules : List (FilterRule V) → List (FilterRule V)
  sort_rules [] = []
  sort_rules (r ∷ rules) = insert_rule r (sort_rules rules)

  -- normalizeFilters
  unfoldable pub normalize_filters : List (FilterRule V) → List (FilterRule V)
  normalize_filters filters = sort_rules (map normalize_filter filters)

  -- mergeFilters
  unfoldable pub merge_filters : List (FilterRule V) → Map Text V → List (FilterRule V)
  merge_filters existing overrides =
      if is_nil overrides
      then normalize_filters existing
      else normalize_filters (rules_of (accumulate_map (accumulate_rules [] existing) overrides))
