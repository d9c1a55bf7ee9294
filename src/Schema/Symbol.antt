-- ===== src/Schema/Symbol.antt =====
-- instrument.go: the grammar of instrument symbols, and the codes of currencies and venues.
use meltica_gateway.Common.{
  ℕ, Bool, false, ◌&&◌, ◌||◌, not, Option, none, some, List, [], ◌∷◌, length, ltb, nat_eq, is_nil,
  if◌then◌else◌,
}
use meltica_gateway.Common.Text.{Text, codes, trim_space, to_upper, text_beq}
use meltica_gateway.Common.Exec.{Result, ok, err}
use meltica_gateway.Common.Int.{ℤ, pos, negsuc}
use meltica_gateway.Schema.Route.{push_first}
use meltica_gateway.Schema.Instrument.{is_upper_alnum}

-- instrumentError: what a field is refused for.
pub data InstrumentError : Type 0 where
  symbol_required no_separator too_few_segments too_many_segments empty_segment : InstrumentError
  segment_not_uppercase : InstrumentError
  field_required field_length field_characters : Text → InstrumentError
  precision_negative precision_too_large : Text → InstrumentError

-- strings.Contains(symbol, "-")
unfoldable pub has_dash : Text → Bool
has_dash [] = false
has_dash (c ∷ s) = nat_eq c b'-' || has_dash s

-- strings.Split(symbol, "-")
unfoldable pub split_dashes : Text → List Text
split_dashes [] = [] ∷ []
split_dashes (c ∷ s) =
    let rest = split_dashes s in if nat_eq c b'-' then [] ∷ rest else push_first c rest

-- The loop over the segments.
unfoldable pub check_segments : List Text → Option InstrumentError
check_segments [] = none
check_segments (part ∷ parts) =
    let rest = check_segments parts in
    if is_nil part
    then some empty_segment
    else if not (text_beq (to_upper part) part)
    then some segment_not_uppercase
    else rest

abbrev pub min_symbol_segments : ℕ
min_symbol_segments = 2

abbrev pub max_symbol_segments : ℕ
max_symbol_segments = 6

-- validateInstrumentSymbol
unfoldable pub validate_instrument_symbol : Text → Result InstrumentError (List Text)
validate_instrument_symbol symbol =
    let parts = split_dashes symbol in
    if not (has_dash symbol)
    then err no_separator
    else if ltb (length parts) min_symbol_segments
    then err too_few_segments
    else if ltb max_symbol_segments (length parts)
    then err too_many_segments
    else elim (check_segments parts) [ some e ↦ err e | none ↦ ok parts ]

-- The first two segments.
unfoldable pub base_and_quote : List Text → Result InstrumentError (Text × Text)
base_and_quote [] = err too_few_segments
base_and_quote (base ∷ []) = err too_few_segments
base_and_quote (base ∷ quote ∷ parts) = ok (base, quote)

-- InstrumentCurrencies on the trimmed symbol.
unfoldable pub trimmed_currencies : Text → Result InstrumentError (Text × Text)
trimmed_currencies symbol =
    if text_beq symbol [] then err symbol_required else elim (validate_instrument_symbol symbol) [
      | err e ↦ err e
      | ok parts ↦ base_and_quote parts
    ]

-- InstrumentCurrencies
unfoldable pub instrument_currencies : Text → Result InstrumentError (Text × Text)
instrument_currencies symbol = trimmed_currencies (trim_space symbol)

-- What normalizeRequiredCurrency and normalizeOptionalCurrency ask of a code that is not blank.
unfoldable pub check_currency : Text → Text → Result InstrumentError Text
check_currency trimmed field =
    if ltb (length trimmed) 2 || ltb 10 (length trimmed)
    then err (field_length field)
    else if not (is_upper_alnum trimmed)
    then err (field_characters field)
    else ok trimmed

-- normalizeRequiredCurrency
unfoldable pub normalize_required_currency : Text → Text → Result InstrumentError Text
normalize_required_currency code field =
    let trimmed = trim_space code in
    if text_beq trimmed [] then err (field_required field) else check_currency trimmed field

-- normalizeOptionalCurrency
unfoldable pub normalize_optional_currency : Text → Text → Result InstrumentError Text
normalize_optional_currency code field =
    let trimmed = trim_space code in
    if text_beq trimmed [] then ok [] else check_currency trimmed field

-- The test on a venue's character.
unfoldable pub bad_venue_char : ℕ → Bool
bad_venue_char r = (ltb r b'A' || ltb b'Z' r) && (ltb r b'0' || ltb b'9' r) && not (nat_eq r b'_')

unfoldable pub has_bad_venue_char : Text → Bool
has_bad_venue_char [] = false
has_bad_venue_char (r ∷ s) = bad_venue_char r || has_bad_venue_char s

-- normalizeVenue
unfoldable pub normalize_venue : Text → Result InstrumentError Text
normalize_venue code =
    let trimmed = trim_space code in
    let field = codes "instrument.venue" in
    if text_beq trimmed []
    then err (field_required field)
    else if ltb (length trimmed) 2 || ltb 20 (length trimmed)
    then err (field_length field)
    else if has_bad_venue_char trimmed
    then err (field_characters field)
    else ok trimmed

-- validatePrecisionField: at most maxPrecisionDigits.
unfoldable pub validate_precision_field : Option ℤ → Text → Option InstrumentError
validate_precision_field none field = none
validate_precision_field (some (negsuc n)) field = some (precision_negative field)
validate_precision_field (some (pos n)) field =
    if ltb 18 n then some (precision_too_large field) else none
