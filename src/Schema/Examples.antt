-- ===== src/Schema/Examples.antt =====
-- The theorems on route types and currency codes at concrete texts.
use meltica_gateway.Common.{◌≡◌, ◌++◌, ◌∷◌, true, refl, none, some, All}
use meltica_gateway.Common.Text.{codes, text_beq, trim_space, to_upper}
use meltica_gateway.Schema.Route.{
  normalize_route_type, validate_route_type, split_dots, check_parts, refused_char, check_chars,
  not_canonical,
}
use meltica_gateway.Common.Exec.{ok}
use meltica_gateway.Schema.Instrument.{is_currency_code, is_upper_alnum, bad_char}
use meltica_gateway.Schema.Symbol.{instrument_currencies}
use meltica_gateway.Schema.SymbolLaws.{instrument_currencies-join}
use meltica_gateway.Schema.RouteLetters.{IsSegment, validate_route_type-IsSegment}

valid : validate_route_type (codes "KLINE.SUMMARY") ≡ none
unfolding validate_route_type text_beq normalize_route_type trim_space to_upper check_parts
    split_dots check_chars
valid = refl

digit : validate_route_type (codes "L2.BOOK") ≡ some not_canonical
unfolding validate_route_type text_beq normalize_route_type trim_space to_upper check_parts
    split_dots check_chars refused_char
digit = refl

validate_route_type-IsSegment_example :
    (normalize_route_type (codes "KLINE.SUMMARY") ≡ codes "KLINE.SUMMARY")
    × All IsSegment (split_dots (codes "KLINE.SUMMARY"))
validate_route_type-IsSegment_example = validate_route_type-IsSegment (codes "KLINE.SUMMARY") valid

btc_is_code : is_currency_code (codes "BTC") ≡ true
unfolding is_currency_code is_upper_alnum bad_char
btc_is_code = refl

usdt_is_code : is_currency_code (codes "USDT") ≡ true
unfolding is_currency_code is_upper_alnum bad_char
usdt_is_code = refl

instrument_currencies-join_example :
    instrument_currencies (codes "BTC" ++ b'-' ∷ codes "USDT") ≡ ok (codes "BTC", codes "USDT")
instrument_currencies-join_example =
    instrument_currencies-join (codes "BTC") (codes "USDT") btc_is_code usdt_is_code
