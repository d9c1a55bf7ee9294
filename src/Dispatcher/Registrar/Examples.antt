-- ===== src/Dispatcher/Registrar/Examples.antt =====
-- The theorems on the registrar at concrete inputs.
use meltica_gateway.Common.{none, some, [], ◌∷◌, if◌then◌else◌}
use meltica_gateway.Common.Text.{Text, codes, text_beq}
use meltica_gateway.Dispatcher.Table.{Table, Route, RouteKey, route_key}
use meltica_gateway.Dispatcher.Sample.{Words, word}
use meltica_gateway.Dispatcher.Registrar.{Lambdas}
use meltica_gateway.Dispatcher.Registrar.Apply.{Router}

-- A router that cannot deactivate the routes of OKX.
abbrev router : Router Words
router = record {
  deactivate = λ r. if text_beq r.provider (codes "okx") then some (codes "timeout") else none;
  activate = λ r. none;
}

abbrev route_of : Text → Text → Route Words
route_of provider kind = record {
  provider = provider;
  kind = kind;
  ws_topics = [];
  rest_fns = [];
  filters = [];
}

abbrev key_of : Text → Text → RouteKey
key_of provider kind = record { provider = provider; kind = kind }

abbrev stale : Table Words
stale = record {
  routes =
      (key_of (codes "okx") (codes "TRADE"), route_of (codes "okx") (codes "TRADE"))
      ∷ (key_of (codes "binance") (codes "TRADE"), route_of (codes "Binance") (codes "TRADE"))
      ∷ [];
  version = 4;
}

abbrev lambdas : Lambdas Words
lambdas =
    (
      codes "maker",
      record {
        providers = codes "Binance" ∷ [];
        routes =
            record {
              kind = codes "TICKER";
              filters = (codes "instrument", word (codes "BTC-USDT")) ∷ [];
            }
            ∷ [];
      },
    )
    ∷ []
