-- ===== src/Dispatcher/Table/Laws.antt =====
-- What a lookup in the routing table finds.
use meltica_gateway.Common.{
  Bool, true, not, ◌≡◌, refl, List, ◌∷◌, arith, Option, sym, ap, ◌∙◌, none, some, if◌then◌else◌,
  Bool-cases, ◌==◌, [], ◌&&◌, inl, inr, Option-cases, is_none,
}
use meltica_gateway.Common.Text.{
  Text, to_lower, text_eq, to_upper, trim_space, text_beq, text_beq_iff,
}
use meltica_gateway.Common.Text.Laws.{
  trim_space_idem, to_upper-nil, trim_space-to_lower, trim_space-to_upper, to_upper_idem,
}
use meltica_gateway.Common.Map.{get, put, get-put, get-delete}
use meltica_gateway.Common.Int.{is_positive}
use meltica_gateway.Schema.Route.{normalize_route_type, validate_route_type}
use meltica_gateway.Dispatcher.Table.{
  Table, Route, RouteKey, RouteError, route_key, normalize_key, normalize_route, check_route, store,
  upsert, remove, lookup, RestFn, FilterRule, validate_rest_fn, validate_filter, first_error,
  route_key_beq,
}

normalize_route_type-to_upper : (k : Text) → normalize_route_type k ≡ to_upper (trim_space k)
unfolding normalize_route_type
normalize_route_type-to_upper k = elim (Bool-cases (text_beq (trim_space k) [])) [
  | inl p ↦ rw p (sym (ap to_upper ((text_beq_iff (trim_space k) []).0 p) ∙ to_upper-nil))
  | inr p ↦ rw p
]

normalize_route_type_idem :
    (k : Text) → normalize_route_type (normalize_route_type k) ≡ normalize_route_type k
normalize_route_type_idem k =
    ap normalize_route_type (normalize_route_type-to_upper k)
    ∙ normalize_route_type-to_upper (to_upper (trim_space k))
    ∙ ap to_upper (trim_space-to_upper (trim_space k) ∙ ap to_upper (trim_space_idem k))
    ∙ to_upper_idem (trim_space k)
    ∙ sym (normalize_route_type-to_upper k)

pub normalize_key-stored :
    (p k : Text) → normalize_key (trim_space p) (normalize_route_type k) ≡ normalize_key p k
unfolding normalize_key
normalize_key-stored p k = cc (
  normalize_route_type_idem k,
  trim_space-to_lower (trim_space p),
  trim_space-to_lower p,
  trim_space_idem p,
)

abbrev all_of : {A : Type 0} → (A → Bool) → List A → Bool
all_of good [] = true
all_of good (x ∷ xs) = good x && all_of good xs

-- A text is more than spaces.
abbrev is_named : Text → Bool
is_named s = not (text_beq (trim_space s) [])

-- A REST function has a name, an endpoint and a positive interval.
abbrev is_complete_rest : RestFn → Bool
is_complete_rest fn = is_named fn.name && is_named fn.endpoint && is_positive fn.interval

first_error-all :
    {A : Type 0} (check : A → Option RouteError) (good : A → Bool)
    → ((x : A) → is_none (check x) ≡ good x)
    → (xs : List A) → is_none (first_error check xs) ≡ all_of good xs
unfolding first_error
first_error-all check good same [] = refl
first_error-all check good same (x ∷ xs) =
    ground (arith, same x, first_error-all check good same xs)

validate_rest_fn-is_complete : (fn : RestFn) → is_none (validate_rest_fn fn) ≡ is_complete_rest fn
unfolding validate_rest_fn
validate_rest_fn-is_complete fn = ground arith

module _ {V : Type 0} where
  upsert-stored :
      (t : Table V) (r : Route V)
      → check_route r ≡ none
      → (upsert t r).1
        ≡ record t { routes = put t.routes (normalize_key r.provider r.kind) (normalize_route r) }
  unfolding upsert store normalize_route
  upsert-stored t r valid =
      ap (λ e. (store e t r).1) valid ∙ cc (normalize_key-stored r.provider r.kind)

  upsert-refused :
      (t : Table V) (r : Route V) (e : RouteError) → check_route r ≡ some e → (upsert t r).1 ≡ t
  unfolding upsert store
  upsert-refused t r e refused = ap (λ o. (store o t r).1) refused

  pub get-upsert :
      (t : Table V) (r : Route V) (k : RouteKey)
      → get (upsert t r).1.routes k ≡ (
          if is_none (check_route r) && (normalize_key r.provider r.kind == k)
          then some (normalize_route r)
          else get t.routes k)
  get-upsert t r k = elim (Option-cases (check_route r)) [
    | inl valid ↦
        ap (λ s. get s.routes k) (upsert-stored t r valid)
        ∙ get-put t.routes (normalize_key r.provider r.kind) k (normalize_route r)
        ∙ rw valid
    | inr (e, refused) ↦ ap (λ s. get s.routes k) (upsert-refused t r e refused) ∙ rw refused
  ]

  -- A route with its provider trimmed, and its type trimmed and in capitals.
  unfoldable pub trimmed_route : Route V → Route V
  trimmed_route r = record r {
    kind = to_upper (trim_space r.kind);
    provider = trim_space r.provider;
  }

  -- A rule has a field and an operator.
  abbrev is_complete_filter : FilterRule V → Bool
  is_complete_filter rule = is_named rule.field && is_named rule.op

  validate_filter-is_complete :
      (rule : FilterRule V) → is_none (validate_filter rule) ≡ is_complete_filter rule
  unfolding validate_filter
  validate_filter-is_complete rule = ground arith

  -- The routes that are taken: a valid type, a provider, and complete REST functions and rules.
  unfoldable pub is_taken : Route V → Bool
  is_taken r =
      is_none (validate_route_type r.kind)
      && is_named r.provider
      && all_of is_complete_rest r.rest_fns
      && all_of is_complete_filter r.filters

  check_route-is_taken : (r : Route V) → is_none (check_route r) ≡ is_taken r
  unfolding check_route is_taken
  check_route-is_taken r =
      let fns = first_error-all validate_rest_fn is_complete_rest validate_rest_fn-is_complete in
      let rules = first_error-all validate_filter is_complete_filter validate_filter-is_complete in
      ground (arith, fns r.rest_fns, rules r.filters)

  -- A name and a type are those of a route but for case and surrounding spaces.
  unfoldable pub is_name_of : Route V → Text → Text → Bool
  is_name_of r provider kind =
      text_beq (trim_space (to_lower r.provider)) (trim_space (to_lower provider))
      && text_beq (to_upper (trim_space r.kind)) (to_upper (trim_space kind))

  normalize_key-is_name_of :
      (r : Route V) (provider kind : Text)
      → (normalize_key r.provider r.kind == normalize_key provider kind)
        ≡ is_name_of r provider kind
  unfolding normalize_key is_name_of route_key_beq
  normalize_key-is_name_of r provider kind =
      rw (normalize_route_type-to_upper r.kind, normalize_route_type-to_upper kind) refl

  trimmed : (r : Route V) → normalize_route r ≡ trimmed_route r
  unfolding normalize_route trimmed_route
  trimmed r = rw (normalize_route_type-to_upper r.kind) refl

  -- A route with a valid type, a provider that is not blank, REST functions with a name, an endpoint and
  -- a positive interval, and filters with a field and an operator is found after Upsert under every
  -- spelling of its provider and type that differs in the case of letters and in surrounding spaces,
  -- with its provider trimmed and its type trimmed and in capitals; no other lookup changes. Another
  -- route changes none.
  pub lookup-upsert :
      (t : Table V) (r : Route V) (provider kind : Text)
      → lookup ((upsert t r).1) provider kind ≡ (
          if is_taken r && is_name_of r provider kind
          then some (trimmed_route r)
          else lookup t provider kind)
  unfolding lookup
  lookup-upsert t r provider kind =
      get-upsert t r (normalize_key provider kind)
      ∙ rw (check_route-is_taken r, normalize_key-is_name_of r provider kind, trimmed r) refl

  -- A route that is removed is not found under any spelling of its name; no other lookup changes.
  pub lookup-remove :
      (t : Table V) (provider kind provider' kind' : Text)
      → lookup (remove t provider kind) provider' kind' ≡ (
          if normalize_key provider kind == normalize_key provider' kind'
          then none
          else lookup t provider' kind')
  unfolding lookup remove
  lookup-remove t provider kind provider' kind' =
      get-delete t.routes (normalize_key provider kind) (normalize_key provider' kind')
