-- ===== src/Lambda/Spec.antt =====
-- internal/infra/config/lambda_spec.go: the configuration of an instance. `C` is the type of a
-- strategy's own configuration.
use meltica_gateway.Common.{
  Bool, true, false, ◌&&◌, List, [], ◌∷◌, is_nil, if◌then◌else◌, none, some, length, nat_eq,
}
use meltica_gateway.Common.Text.{Text, text_beq, text_eq, trim_space, to_upper}
use meltica_gateway.Common.Map.{Map, get, put}
use meltica_gateway.Dispatcher.Filters.{sort_texts, add_text, add_texts}
use meltica_gateway.Dispatcher.Compare.{equal_texts}
use meltica_gateway.Dispatcher.Registrar.{normalize_providers}

-- LambdaStrategySpec
pub record StrategySpec (C : Type 0) : Type 0 where
  pub identifier : Text
  pub config : C
  pub selector : Text
  pub tag : Text
  pub hash : Text

-- LambdaSpec; the symbols of each provider are ProviderSymbols.
pub record LambdaSpec (C : Type 0) : Type 0 where
  pub id : Text
  pub strategy : StrategySpec C
  pub provider_symbols : Map Text (List Text)
  pub providers : List Text

-- The loop of ProviderSymbols.normalize.
unfoldable pub keep_symbols : List Text → List Text → List Text
keep_symbols out [] = out
keep_symbols out (symbol ∷ symbols) =
    let normalized = to_upper (trim_space symbol) in
    keep_symbols (if text_beq normalized [] then out else add_text out normalized) symbols

-- ProviderSymbols.normalize
unfoldable pub normalize_symbols : List Text → List Text
normalize_symbols symbols = keep_symbols [] symbols

-- normalizeProviderNames
unfoldable pub normalize_provider_names : List Text → List Text
normalize_provider_names providers = sort_texts (normalize_providers providers)

-- The loop of refreshProviders: an assignment is written back under the trimmed name.
unfoldable pub refresh_assignments :
    Map Text (List Text) → Map Text (List Text) → Map Text (List Text)
refresh_assignments out [] = out
refresh_assignments out ((provider, symbols) ∷ assignments) =
    refresh_assignments
      (if text_beq (trim_space provider) []
        then out
        else put out (trim_space provider) (normalize_symbols symbols))
      assignments

-- The names that the loop collects; blank ones are dropped by normalizeProviderNames, too.
unfoldable pub names_of : Map Text (List Text) → List Text
names_of [] = []
names_of ((provider, symbols) ∷ assignments) = trim_space provider ∷ names_of assignments

-- The symbols of one provider in ProviderSymbolMap.
unfoldable pub upper_symbols : List Text → List Text
upper_symbols [] = []
upper_symbols (symbol ∷ symbols) =
    let normalized = to_upper (trim_space symbol) in
    let rest = upper_symbols symbols in if text_beq normalized [] then rest else normalized ∷ rest

unfoldable pub symbol_map_from : Map Text (List Text) → Map Text (List Text) → Map Text (List Text)
symbol_map_from out [] = out
symbol_map_from out ((name, symbols) ∷ assignments) =
    symbol_map_from
      (if text_beq (trim_space name) []
        then out
        else put out (trim_space name) (upper_symbols symbols))
      assignments

unfoldable pub unique_symbols : List Text → Map Text (List Text) → List Text
unique_symbols unique [] = unique
unique_symbols unique ((name, symbols) ∷ rest) = unique_symbols (add_texts unique symbols) rest

-- equalStringSlices
unfoldable pub equal_string_slices : List Text → List Text → Bool
equal_string_slices a b = equal_texts a b

-- The loop of equalProviderSymbols.
unfoldable pub same_assignments : Map Text (List Text) → Map Text (List Text) → Bool
same_assignments [] b = true
same_assignments ((name, symbols) ∷ a) b =
    let rest = same_assignments a b in
    elim (get b name) [ none ↦ false | some other ↦ equal_texts symbols other && rest ]

-- equalProviderSymbols
unfoldable pub equal_provider_symbols : Map Text (List Text) → Map Text (List Text) → Bool
equal_provider_symbols a b = nat_eq (length a) (length b) && same_assignments a b

module _ {C : Type 0} where
  -- LambdaStrategySpec.normalize
  unfoldable pub normalize_strategy : StrategySpec C → StrategySpec C
  normalize_strategy s = record s {
    identifier = trim_space s.identifier;
    selector = trim_space s.selector;
    tag = trim_space s.tag;
    hash = trim_space s.hash;
  }

  -- refreshProviders
  unfoldable pub refresh_providers : LambdaSpec C → LambdaSpec C
  refresh_providers s =
      if is_nil s.provider_symbols
      then record s {
        strategy = normalize_strategy s.strategy;
        providers = normalize_provider_names s.providers;
      }
      else record s {
        strategy = normalize_strategy s.strategy;
        provider_symbols = refresh_assignments s.provider_symbols s.provider_symbols;
        providers = normalize_provider_names (names_of s.provider_symbols);
      }

  -- ProviderSymbolMap
  unfoldable pub provider_symbol_map : LambdaSpec C → Map Text (List Text)
  provider_symbol_map s = symbol_map_from [] s.provider_symbols

  -- AllSymbols
  unfoldable pub all_symbols : LambdaSpec C → List Text
  all_symbols s = sort_texts (unique_symbols [] (provider_symbol_map s))

  -- sanitizeSpec
  unfoldable pub sanitize_spec : LambdaSpec C → LambdaSpec C
  sanitize_spec s =
      let refreshed = refresh_providers (record s { id = trim_space s.id }) in
      record refreshed { providers = normalize_providers refreshed.providers }
