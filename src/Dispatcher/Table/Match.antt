-- ===== src/Dispatcher/Table/Match.antt =====
-- table.go, Route.Match and FilterRule.Match: filters on raw instances. Go's `any` is a parameter: the
-- types that the code switches on, each with what it reads there, and the text of fmt.Sprint.
use meltica_gateway.Common.{
  Bool, true, false, not, ◌&&◌, ◌||◌, ◌≡◌, refl, Option, none, some, List, [], ◌∷◌, ◌++◌, is_some,
  inl, inr, Option-cases, nat_eq, if◌then◌else◌, arith,
}
use meltica_gateway.Common.Text.{Text, codes, to_lower, to_upper, text_beq, text_eq}
use meltica_gateway.Common.Map.{Map, get}
use meltica_gateway.Schema.Route.{split_dots}
use meltica_gateway.Dispatcher.Table.{FilterRule, Route}

pub record AnyType : Type 1 where
  pub V : Type 0
  -- map[string]any and schema.RawInstance, []any, []string, string
  pub as_map : V → Option (Map Text V)
  pub as_items : V → Option (List V)
  pub as_texts : V → Option (List Text)
  pub as_text : V → Option Text
  -- nil
  pub is_nothing : V → Bool
  -- fmt.Sprint
  pub sprint : V → Text

-- strings.HasPrefix
unfoldable pub starts_with : Text → Text → Bool
starts_with s [] = true
starts_with [] (d ∷ t) = false
starts_with (c ∷ s) (d ∷ t) = nat_eq c d && starts_with s t

-- strings.Contains
unfoldable pub contains_text : Text → Text → Bool
unfolding starts_with
contains_text [] t = starts_with [] t
contains_text (c ∷ s) t = starts_with (c ∷ s) t || contains_text s t

-- Some entry of a list has the text.
unfoldable pub has_text : List Text → Text → Bool
has_text [] lhs = false
has_text (item ∷ items) lhs = text_beq lhs item || has_text items lhs

and_not : (b : Bool) → (b && not b) ≡ false
and_not b = ground arith

or_not : (b : Bool) → (b || not b) ≡ true
or_not b = ground arith

module _ (any : AnyType) where
  open any use {V, as_map, as_items, as_texts, as_text, sprint}

  -- resolvePath
  unfoldable pub resolve_path : List Text → V → Option V
  resolve_path [] raw = some raw
  resolve_path (name ∷ path) raw = elim (as_map raw) [
    | none ↦ none
    | some current ↦ elim (get current name) [ none ↦ none | some value ↦ resolve_path path value ]
  ]

  -- compareEqual
  unfoldable pub compare_equal : V → V → Bool
  compare_equal lhs rhs = text_beq (sprint lhs) (sprint rhs)

  -- hasPrefix
  unfoldable pub has_prefix : V → V → Bool
  has_prefix lhs rhs = starts_with (to_upper (sprint lhs)) (to_upper (sprint rhs))

  -- The loop of contains over []any.
  unfoldable pub has_equal : V → List V → Bool
  has_equal value [] = false
  has_equal value (item ∷ items) = compare_equal value item || has_equal value items

  -- contains: a switch on the set's type.
  unfoldable pub contains : V → V → Bool
  contains value set = elim (as_items set) [
    | some items ↦ has_equal value items
    | none ↦ elim (as_texts set) [
      | some texts ↦ has_text texts (sprint value)
      | none ↦ elim (as_text set) [
        | some s ↦ contains_text (to_upper s) (to_upper (sprint value))
        | none ↦ elim (as_map set) [ some m ↦ is_some (get m (sprint value)) | none ↦ false ]
      ]
    ]
  ]

  -- The switch of FilterRule.Match on the operator.
  unfoldable pub apply_op : Text → V → V → Bool
  apply_op op value target =
      if text_beq op (codes "eq")
      then compare_equal value target
      else if text_beq op (codes "neq")
      then not (compare_equal value target)
      else if text_beq op (codes "in")
      then contains value target
      else if text_beq op (codes "prefix")
      then has_prefix value target
      else false

  -- A field that is missing matches no operator.
  unfoldable pub apply_resolved : Text → Option V → V → Bool
  apply_resolved op none target = false
  apply_resolved op (some value) target = apply_op op value target

  -- FilterRule.Match
  unfoldable pub match_filter : FilterRule V → V → Bool
  match_filter rule raw =
      apply_resolved (to_lower rule.op) (resolve_path (split_dots rule.field) raw) rule.value

  -- Route.Match
  unfoldable pub match_filters : List (FilterRule V) → V → Bool
  match_filters [] raw = true
  match_filters (rule ∷ rules) raw = match_filter rule raw && match_filters rules raw

  unfoldable pub match_route : Route V → V → Bool
  match_route r raw = match_filters r.filters raw

  resolved-neq :
      (o : Option V) (target : V)
      → let eq = apply_resolved (to_lower (codes "eq")) o target in
        let neq = apply_resolved (to_lower (codes "neq")) o target in
        ((eq && neq) ≡ false) × ((eq || neq) ≡ is_some o)
  unfolding apply_resolved apply_op to_lower text_beq compare_equal
  resolved-neq none target = (refl, refl)
  resolved-neq (some value) target =
      (and_not (compare_equal value target), or_not (compare_equal value target))

  -- A rule and its negation: at most one of them matches, and one of them does just where the field's
  -- path leads to a value, so a missing field matches neither.
  pub match_filter-neq :
      (rule : FilterRule V) (raw : V)
      → let eq = match_filter (record rule { op = codes "eq" }) raw in
        let neq = match_filter (record rule { op = codes "neq" }) raw in
        ((eq && neq) ≡ false) × ((eq || neq) ≡ is_some (resolve_path (split_dots rule.field) raw))
  unfolding match_filter
  match_filter-neq rule raw = resolved-neq (resolve_path (split_dots rule.field) raw) rule.value

  -- A path may be resolved in two stretches: the second starts at the value that the first leads to.
  pub resolve_path-append :
      (path path' : List Text) (raw : V)
      → resolve_path (path ++ path') raw
        ≡ elim (resolve_path path raw) [ none ↦ none | some value ↦ resolve_path path' value ]
  unfolding resolve_path
  resolve_path-append [] path' raw = refl
  resolve_path-append (name ∷ path) path' raw = elim (Option-cases (as_map raw)) [
    | inl p ↦ rw p
    | inr (m, p) ↦ elim (Option-cases (get m name)) [
      | inl q ↦ rw (p, q)
      | inr (value, q) ↦ rw (p, q) (resolve_path-append path path' value)
    ]
  ]
