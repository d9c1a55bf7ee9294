-- ===== src/Core/Config.antt =====
-- base.go: NewBaseLambda, its tables of providers, symbols and currencies, and the filters on events.
use meltica_gateway.Common.{
  ℕ, Bool, true, false, not, ◌&&◌, ◌||◌, Option, none, some, List, [], ◌∷◌, ◌++◌, is_nil, nat_eq,
  or_else, if◌then◌else◌,
}
use meltica_gateway.Common.Text.{Text, codes, text_beq, text_eq, trim_space, to_upper}
use meltica_gateway.Common.Map.{Map, get, put}
use meltica_gateway.Common.Exec.{ok, err}
use meltica_gateway.Common.Float.{Float}
use meltica_gateway.Schema.Route.{Event}
use meltica_gateway.Schema.Symbol.{instrument_currencies}
use meltica_gateway.Dispatcher.Table.Match.{has_text}
use meltica_gateway.Dispatcher.Filters.{add_text, add_texts}
use meltica_gateway.Dispatcher.Registrar.{normalize_providers}
use meltica_gateway.Lambda.Spec.{normalize_symbols}

-- Config
pub record Config : Type 0 where
  pub providers : List Text
  pub provider_symbols : Map Text (List Text)
  pub dry_run : Bool

-- BaseLambda with its sets as lists and without the parts that it calls. `F` is the type of floats.
pub record BaseLambda (F : Type 0) : Type 0 where
  pub id : Text
  pub config : Config
  pub base_currency : Text
  pub quote_currency : Text
  pub provider_symbols : Map Text (List Text)
  pub default_symbols : Map Text Text
  pub all_symbols : List Text
  pub global_primary : Text
  pub balance_currencies : List Text
  pub last_price : F
  pub bid_price : F
  pub ask_price : F
  pub trading_active : Bool
  pub order_count : ℕ
  pub dry_run : Bool

-- symbols[0], or nothing.
unfoldable pub first_symbol : List Text → Text
first_symbol [] = []
first_symbol (symbol ∷ symbols) = symbol

-- The loop of normalizeProviderSymbols.
unfoldable pub keep_assignments : Map Text (List Text) → Map Text (List Text) → Map Text (List Text)
keep_assignments out [] = out
keep_assignments out ((raw, symbols) ∷ input) =
    let provider = trim_space raw in
    keep_assignments
      (if text_beq provider [] then out else put out provider (normalize_symbols symbols)) input

-- normalizeProviderSymbols
unfoldable pub normalize_provider_symbols : Map Text (List Text) → Map Text (List Text)
normalize_provider_symbols input = keep_assignments [] input

-- The two loops of primarySymbolFromConfig.
unfoldable pub first_of_providers : List Text → Map Text (List Text) → Option Text
first_of_providers [] symbols = none
first_of_providers (provider ∷ providers) symbols =
    let rest = first_of_providers providers symbols in
    elim (or_else (get symbols provider) []) [ [] ↦ rest | symbol ∷ _ ↦ some symbol ]

unfoldable pub first_of_symbols : Map Text (List Text) → Text
first_of_symbols [] = []
first_of_symbols ((provider, symbols) ∷ rest) =
    let others = first_of_symbols rest in if is_nil symbols then others else first_symbol symbols

-- primarySymbolFromConfig
unfoldable pub primary_symbol_from_config : List Text → Map Text (List Text) → Text
primary_symbol_from_config providers symbols =
    or_else (first_of_providers providers symbols) (first_of_symbols symbols)

-- strings.Join(providers, "-")
unfoldable pub join_dashed : List Text → Text
join_dashed [] = []
join_dashed (p ∷ []) = p
join_dashed (p ∷ q ∷ providers) = p ++ b'-' ∷ join_dashed (q ∷ providers)

-- buildLambdaID
unfoldable pub build_lambda_id : List Text → Map Text (List Text) → Text
build_lambda_id providers symbols =
    let primary = trim_space (primary_symbol_from_config providers symbols) in
    if is_nil providers
    then (if text_beq primary [] then codes "lambda-unassigned" else codes "lambda-" ++ primary)
    else if text_beq primary []
    then codes "lambda-" ++ join_dashed providers
    else codes "lambda-" ++ (primary ++ b'-' ∷ join_dashed providers)

-- The loop that fills allSymbols.
unfoldable pub collect_symbols : List Text → Map Text (List Text) → List Text
collect_symbols out [] = out
collect_symbols out ((provider, symbols) ∷ rest) = collect_symbols (add_texts out symbols) rest

-- The loop that fills defaultSymbols.
unfoldable pub collect_defaults : Map Text (List Text) → Map Text Text
collect_defaults [] = []
collect_defaults ((provider, symbols) ∷ rest) =
    let others = collect_defaults rest in
    if is_nil symbols then others else put others provider (first_symbol symbols)

-- The loop that gives providers without symbols an empty set.
unfoldable pub fill_providers : Map Text (List Text) → List Text → Map Text (List Text)
fill_providers symbols [] = symbols
fill_providers symbols (provider ∷ providers) =
    fill_providers
      (elim (get symbols provider) [ none ↦ put symbols provider [] | some _ ↦ symbols ]) providers

unfoldable pub add_currency : List Text → Text → List Text
add_currency out raw =
    let currency = to_upper (trim_space raw) in
    if text_beq currency [] then out else add_text out currency

-- The loop that fills balanceCurrencies.
unfoldable pub collect_currencies : List Text → List Text → List Text
collect_currencies out [] = out
collect_currencies out (symbol ∷ symbols) =
    collect_currencies
      (elim (instrument_currencies symbol) [
        | err _ ↦ out
        | ok (base, quote) ↦ add_currency (add_currency out base) quote
      ])
      symbols

-- The currencies of the primary symbol.
unfoldable pub primary_currencies : Text → Text × Text
primary_currencies primary =
    if text_beq primary [] then ([], []) else elim (instrument_currencies primary) [
      | err _ ↦ ([], [])
      | ok (base, quote) ↦ (to_upper base, to_upper quote)
    ]

-- NewBaseLambda
unfoldable pub new_base_lambda : (float : Float) → Text → Config → BaseLambda float.F
new_base_lambda float id given =
    let config : Config = record given {
      providers = normalize_providers given.providers;
      provider_symbols = normalize_provider_symbols given.provider_symbols;
    } in
    let symbols = config.provider_symbols in
    let all = collect_symbols [] symbols in
    let found = primary_symbol_from_config config.providers symbols in
    let primary = if text_beq found [] then first_symbol all else found in
    record {
      id = if text_beq id [] then build_lambda_id config.providers symbols else id;
      config = config;
      base_currency = (primary_currencies primary).0;
      quote_currency = (primary_currencies primary).1;
      provider_symbols = if is_nil symbols then [] else fill_providers symbols config.providers;
      default_symbols = collect_defaults symbols;
      all_symbols = all;
      global_primary = primary;
      balance_currencies = collect_currencies [] all;
      last_price = float.fzero;
      bid_price = float.fzero;
      ask_price = float.fzero;
      trading_active = false;
      order_count = 0;
      dry_run = config.dry_run;
    }

module _ {F P : Type 0} where
  -- matchesProvider
  unfoldable pub matches_provider : BaseLambda F → Event P → Bool
  matches_provider l evt = is_nil l.config.providers || has_text l.config.providers evt.provider

  -- matchesSymbol
  unfoldable pub matches_symbol : BaseLambda F → Event P → Bool
  matches_symbol l evt =
      let symbol = to_upper (trim_space evt.symbol) in
      let provider = trim_space evt.provider in
      if text_beq symbol []
      then false
      else if is_nil l.provider_symbols
      then is_nil l.all_symbols || has_text l.all_symbols symbol
      else if text_beq provider []
      then false
      else has_text (or_else (get l.provider_symbols provider) []) symbol

module _ {F : Type 0} where
  -- matchesBalanceCurrency
  unfoldable pub matches_balance_currency : BaseLambda F → Text → Bool
  matches_balance_currency l symbol =
      let currency = to_upper (trim_space symbol) in
      not (text_beq currency [])
      && ((not (text_beq l.base_currency []) && text_beq currency l.base_currency)
          || (not (text_beq l.quote_currency []) && text_beq currency l.quote_currency)
          || has_text l.balance_currencies currency)

  -- symbolForProvider; where no primary symbol is known, the first of the symbols stands for any of
  -- them.
  unfoldable pub symbol_for_provider : BaseLambda F → Text → Text
  symbol_for_provider l given =
      let provider = trim_space given in
      let symbol = or_else (get l.default_symbols provider) [] in
      if not (text_beq provider []) && not (text_beq symbol [])
      then symbol
      else if not (text_beq l.global_primary [])
      then l.global_primary
      else first_symbol l.all_symbols

  -- EnableTrading
  unfoldable pub enable_trading : BaseLambda F → Bool → BaseLambda F
  enable_trading l enabled = record l { trading_active = enabled }

-- clientOrderID[:len(prefix)] == prefix, with more behind it.
unfoldable pub extends : Text → Text → Bool
extends [] [] = false
extends [] (c ∷ s) = true
extends (p ∷ prefix) [] = false
extends (p ∷ prefix) (c ∷ s) = nat_eq p c && extends prefix s

-- IsMyOrder
unfoldable pub is_my_order : Text → Text → Bool
is_my_order id client_order_id = extends (id ++ b'-' ∷ []) client_order_id
