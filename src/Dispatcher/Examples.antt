-- ===== src/Dispatcher/Examples.antt =====
-- The theorems on the dispatcher at concrete inputs.
use meltica_gateway.Common.{
  ℕ, ◌≤◌, false, ◌&&◌, ◌≡◌, Option, none, some, List, [], ◌∷◌, if◌then◌else◌, arith,
}
use meltica_gateway.Common.Text.{Text, codes, text_eq}
use meltica_gateway.Common.Map.{Map}
use meltica_gateway.Schema.Order.{Time}
use meltica_gateway.Schema.Route.{Event}
use meltica_gateway.Dispatcher.Runtime.{new_runtime, run}
use meltica_gateway.Dispatcher.Dedupe.{copies, IsWithin, run_at_most_once}
use meltica_gateway.Dispatcher.Table.{Route, FilterRule, route_key, new_table, upsert, lookup}
use meltica_gateway.Dispatcher.Table.Laws.{is_taken, is_name_of, trimmed_route, lookup-upsert}
use meltica_gateway.Dispatcher.Table.Match.{AnyType}

abbrev event : Text → Event ℕ
event id = record {
  returned = false;
  event_id = id;
  routing_version = 0;
  provider = [];
  symbol = codes "BTC-USDT";
  kind = codes "Trade";
  seq_provider = 7;
  ingest_ts = 5;
  emit_ts = 0;
  payload = some 3;
}

abbrev arrivals : List (Time × Option (Event ℕ))
arrivals =
    (10, some (event (codes "a")))
    ∷ (12, some (event (codes "b")))
    ∷ (15, some (event (codes "a")))
    ∷ (11, none)
    ∷ []

arrivals-IsWithin : IsWithin 10 ((new_runtime 4).dedupe_window) arrivals
unfolding IsWithin new_runtime
arrivals-IsWithin = (
  (omega arith, omega arith),
  ((omega arith, omega arith), ((omega arith, omega arith), ((omega arith, omega arith), tt))),
)

run_at_most_once_example : copies (codes "a") (run (new_runtime 4) arrivals) ≤ 1
run_at_most_once_example =
    run_at_most_once (new_runtime 4) (codes "a") 10 arrivals (λ e. cc) arrivals-IsWithin

abbrev trades : Route ℕ
trades = record {
  provider = codes " Binance ";
  kind = codes "TRADE";
  ws_topics = codes "trade" ∷ [];
  rest_fns = [];
  filters = [];
}

lookup-upsert_example : lookup ((upsert new_table trades).1) (codes "BINANCE") (codes " trade") ≡ (
    if is_taken trades && is_name_of trades (codes "BINANCE") (codes " trade")
    then some (trimmed_route trades)
    else lookup new_table (codes "BINANCE") (codes " trade"))
lookup-upsert_example = lookup-upsert new_table trades (codes "BINANCE") (codes " trade")

-- A word, or a field's name and value with the fields after it.
data Json : Type 0 where
  word : Text → Json
  field : Text → Json → Json → Json

abbrev members : Json → Map Text Json
members (word w) = []
members (field name value rest) = (name, value) ∷ members rest

abbrev json_map : Json → Option (Map Text Json)
json_map (word w) = none
json_map (field name value rest) = some (members (field name value rest))

abbrev json_text : Json → Option Text
json_text (word w) = some w
json_text (field name value rest) = none

abbrev json_print : Json → Text
json_print (word w) = w
json_print (field name value rest) = name

abbrev json : AnyType
json = record {
  V = Json;
  as_map = json_map;
  as_items = λ v. none;
  as_texts = λ v. none;
  as_text = json_text;
  is_nothing = λ v. false;
  sprint = json_print;
}

abbrev raw : Json
raw = field (codes "data") (field (codes "s") (word (codes "BTC")) (word [])) (word [])

abbrev rule : FilterRule Json
rule = record { field = codes "data.s"; op = []; value = word (codes "ETH") }
