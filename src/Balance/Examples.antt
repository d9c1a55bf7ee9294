-- ===== src/Balance/Examples.antt =====
-- The theorems on balances at concrete inputs: whole numbers as amounts.
use meltica_gateway.Common.{ℕ, true, false, ◌≡◌, ◌≢◌, refl, sym, ◌∙◌, none, some, List, [], ◌∷◌}
use meltica_gateway.Common.Text.{Text, codes, text_beq, text_beq_iff, text_eq}
use meltica_gateway.Common.Text.{to_upper, trim_space}
use meltica_gateway.Common.Map.{Map, get}
use meltica_gateway.Common.Int.{ℤ, pos, negsuc}
use meltica_gateway.Common.Sample.{sample_float, sample_float_laws}
use meltica_gateway.Schema.Order.{buy}
use meltica_gateway.Schema.Instrument.{
  Instrument, normalize_currency_code, checked_code, is_currency_code, is_upper_alnum, bad_char,
}
use meltica_gateway.Balance.Manager.{
  BalanceState, BalanceManager, new_balance_manager, adjust_instrument_fill, run, Call, ensure,
  fill, change, read,
}
use meltica_gateway.Balance.Bounds.{IsSound, new-run-IsSound}
use meltica_gateway.Balance.Fills.{adjust_instrument_fill-get, filled_state}

abbrev btc_usdt : Instrument ℤ
btc_usdt = record {
  symbol = codes "BTC-USDT";
  kind = codes "spot";
  base_currency = codes " btc";
  quote_currency = codes "USDT";
  venue = codes "BINANCE";
  expiry = [];
  contract_value = none;
  contract_currency = [];
  strike = none;
  option_type = [];
  price_increment = [];
  quantity_increment = [];
  price_precision = none;
  quantity_precision = none;
  notional_precision = none;
  min_notional = [];
  min_quantity = [];
  max_quantity = [];
}

abbrev amount : ℕ → ℕ → BalanceState sample_float
amount total available = record { total = pos total; available = pos available }

abbrev account : BalanceManager sample_float
account = record {
  balances = (codes "USDT", amount 500 400) ∷ [];
  default_state = amount 1000 1000;
}

abbrev calls : List (Call sample_float)
calls =
    ensure btc_usdt
    ∷ fill btc_usdt buy (pos 2) (pos 300)
    ∷ change (codes "btc") (some (λ s. record { total = negsuc 4; available = pos 7 }))
    ∷ read (codes "usdt")
    ∷ []

new-run-IsSound_example :
    IsSound sample_float sample_float_laws
      (run sample_float (new_balance_manager sample_float (pos 1000) (pos 2000)) calls)
new-run-IsSound_example = new-run-IsSound sample_float sample_float_laws (pos 1000) (pos 2000) calls

btc_is_not_usdt :
    text_beq (normalize_currency_code (codes " btc")) (normalize_currency_code (codes "USDT"))
    ≡ false
unfolding text_beq normalize_currency_code checked_code to_upper trim_space is_currency_code
    is_upper_alnum bad_char
btc_is_not_usdt = refl

different : normalize_currency_code (codes " btc") ≢ normalize_currency_code (codes "USDT")
different e =
    let base = normalize_currency_code (codes " btc") in
    let quote = normalize_currency_code (codes "USDT") in
    let never : true ≡ false = sym ((text_beq_iff base quote).1 e) ∙ btc_is_not_usdt in cc

adjust_instrument_fill-get_example :
    get
      ((adjust_instrument_fill sample_float account btc_usdt buy (pos 2) (pos 150)).1).balances
      (codes "USDT")
    ≡ filled_state sample_float account btc_usdt buy (pos 2) (pos 150) (codes "USDT")
adjust_instrument_fill-get_example =
    adjust_instrument_fill-get sample_float account btc_usdt buy (pos 2) (pos 150) (codes "USDT")
      different

abbrev others : Map Text (BalanceState sample_float)
others = (codes "usdt", amount 9 9) ∷ (codes "eth", amount 5 6) ∷ []
