-- ===== src/Publisher/Examples.antt =====
-- The theorems on publishers at concrete inputs.
use meltica_gateway.Common.{
  ℕ, ◌+◌, ◌<◌, ◌^◌, true, false, ◌≡◌, refl, some, List, [], ◌∷◌, length, arith,
}
use meltica_gateway.Common.Text.{Text, codes, text_beq, text_eq}
use meltica_gateway.Common.Map.{get, put}
use meltica_gateway.Schema.Route.{Event}
use meltica_gateway.Schema.Payload.{Payload, ticker, event_type}
use meltica_gateway.Dispatcher.Runtime.{new_runtime, with_provider, stamp_event, run}
use meltica_gateway.Publisher.Emit.{
  Publisher, PublishCall, new_publisher, next_seq, without_dashes, decimal_text, event_id_text,
  new_event, publish, publish_all,
}
use meltica_gateway.Publisher.Numbers.{
  IsAscending, last_number, numbers, publish_all-IsAscending, publish-collides,
}

abbrev tick : Text → Text → PublishCall ℕ ℕ
tick symbol price = record {
  symbol = symbol;
  payload = ticker (record {
    last_price = price;
    bid_price = price;
    ask_price = price;
    volume_24h = codes "1";
    timestamp = 0;
  });
  now = 9;
  lends = true;
  sends = true;
}

abbrev calls : List (PublishCall ℕ ℕ)
calls =
    tick (codes "BTC-USDT") (codes "1")
    ∷ record (tick (codes "BTC-USDT") (codes "2")) { sends = false }
    ∷ tick (codes "ETH-USDT") (codes "3")
    ∷ tick (codes "BTC-USDT") (codes "4")
    ∷ []

abbrev binance : Publisher
binance = record { provider_name = codes "binance"; seq = [] }

calls_fit : last_number binance (codes "Ticker|BTC-USDT") + length calls < 2 ^ 64
unfolding get
calls_fit = omega arith

publish_all-IsAscending_example :
    IsAscending
      (last_number binance (codes "Ticker|BTC-USDT"))
      (numbers (codes "Ticker|BTC-USDT") ((publish_all binance calls).0))
publish_all-IsAscending_example =
    publish_all-IsAscending binance calls (codes "Ticker|BTC-USDT") calls_fit

abbrev spot : PublishCall ℕ ℕ
spot = tick (codes "BTC-USDT") (codes "1")

abbrev future : PublishCall ℕ ℕ
future = tick (codes "BTCUSDT") (codes "2")

-- The event of a call of `tick` with the number 1.
abbrev ticked : PublishCall ℕ ℕ → Event (Payload ℕ ℕ)
ticked c = record {
  returned = false;
  event_id = codes "binance:BTCUSDT:Ticker:1";
  routing_version = 0;
  provider = codes "binance";
  symbol = c.symbol;
  kind = codes "Ticker";
  seq_provider = 1;
  ingest_ts = 9;
  emit_ts = 9;
  payload = some c.payload;
}

spot_sent : (publish (new_publisher (codes "binance")) spot).0 ≡ some (ticked spot)
unfolding publish new_publisher next_seq new_event event_id_text without_dashes decimal_text
    event_type get
spot_sent = refl

future_sent :
    (publish ((publish (new_publisher (codes "binance")) spot).1) future).0 ≡ some (ticked future)
unfolding publish new_publisher next_seq new_event event_id_text without_dashes decimal_text
    event_type get put text_beq
future_sent = refl

same_letters : without_dashes spot.symbol ≡ without_dashes future.symbol
unfolding without_dashes
same_letters = refl

publish-collides_example :
    run (new_runtime 1) ((20, some (ticked spot)) ∷ (21, some (ticked future)) ∷ [])
    ≡ with_provider (stamp_event (new_runtime 1) 20 (ticked spot)) ∷ []
unfolding event_type new_runtime
publish-collides_example =
    publish-collides (codes "binance") 1 20 21 spot future (ticked spot) (ticked future) (λ e. cc e)
      same_letters refl spot_sent future_sent (omega arith)
