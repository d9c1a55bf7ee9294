-- ===== src/Publisher/Emit.antt =====
-- publisher.go (there is no method for risk control payloads): Publisher, its counters, and the Publish
-- methods. The clock's reading, whether the pool lends an event, and whether the context ends before the
-- channel takes the event are arguments.
use meltica_gateway.Common.{
  ℕ, zero, suc, ◌+◌, ◌%◌, ◌/◌, ◌^◌, Bool, false, Option, none, some, List, [], ◌∷◌, ◌++◌, nat_eq,
  or_else, if◌then◌else◌, ltb,
}
use meltica_gateway.Common.Text.{Text, codes, text_eq}
use meltica_gateway.Common.Map.{Map, get, put}
use meltica_gateway.Schema.Order.{Time}
use meltica_gateway.Schema.Route.{Event}
use meltica_gateway.Schema.Payload.{
  Payload, event_type, trade, ticker, book_snapshot, exec_report, kline_summary, instrument_update,
  balance_update, risk_control, extension,
}

-- Publisher: its name and the last number of each key.
pub record Publisher : Type 0 where
  pub provider_name : Text
  pub seq : Map Text ℕ

-- %d with at most `fuel` digits: 20 are enough for a uint64.
unfoldable pub decimal_text : ℕ → ℕ → Text
decimal_text zero n = []
decimal_text (suc fuel) n =
    let last = (b'0' + n % 10) ∷ [] in
    let rest = decimal_text fuel (n / 10) in if ltb n 10 then last else rest ++ last

abbrev pub uint64_text : ℕ → Text
uint64_text n = decimal_text 20 n

-- strings.ReplaceAll(symbol, "-", "")
unfoldable pub without_dashes : Text → Text
without_dashes [] = []
without_dashes (c ∷ s) = let rest = without_dashes s in if nat_eq c b'-' then rest else c ∷ rest

-- NewPublisher
unfoldable pub new_publisher : Text → Publisher
new_publisher name = record { provider_name = name; seq = [] }

-- The key of a counter.
unfoldable pub seq_key : Text → Text → Text
seq_key kind symbol = kind ++ codes "|" ++ symbol

-- nextSeq: a uint64 counter that starts at 1.
unfoldable pub next_seq : Publisher → Text → Text → ℕ × Publisher
unfolding seq_key
next_seq p kind symbol =
    let n = (or_else (get p.seq (seq_key kind symbol)) 0 + 1) % 2 ^ 64 in
    (n, record p { seq = put p.seq (seq_key kind symbol) n })

-- The id of an event.
unfoldable pub event_id_text : Text → Text → Text → ℕ → Text
unfolding without_dashes decimal_text
event_id_text name symbol kind n =
    name ++ b':' ∷ (without_dashes symbol ++ b':' ∷ (kind ++ b':' ∷ uint64_text n))

-- One call of a Publish method, with what its surroundings answer: `lends` that the pool has an event,
-- `sends` that the channel takes it before the context ends. An event that is not sent goes back.
pub record PublishCall (F A : Type 0) : Type 0 where
  pub symbol : Text
  pub payload : Payload F A
  pub now : Time
  pub lends : Bool
  pub sends : Bool

module _ {F A : Type 0} where
  -- The time that each Publish method gives to newEvent: the zero time where it has none of its own.
  unfoldable pub payload_time : Time → Payload F A → Time
  payload_time now (trade p) = p.timestamp
  payload_time now (ticker p) = p.timestamp
  payload_time now (book_snapshot p) = p.last_update
  payload_time now (exec_report p) = p.timestamp
  payload_time now (kline_summary p) = p.close_time
  payload_time now (instrument_update i) = now
  payload_time now (balance_update p) = p.timestamp
  payload_time now (risk_control p) = p.timestamp
  payload_time now (extension a) = now

  -- newEvent on an event that the pool lends, which is reset.
  unfoldable pub new_event : Publisher → Time → Text → ℕ → Payload F A → Event (Payload F A)
  unfolding event_id_text payload_time
  new_event p now symbol n payload =
      let ts = payload_time now payload in
      let stamp = if nat_eq ts 0 then now else ts in
      record {
        returned = false;
        event_id = event_id_text p.provider_name symbol (event_type payload) n;
        routing_version = 0;
        provider = p.provider_name;
        symbol = symbol;
        kind = event_type payload;
        seq_provider = n;
        ingest_ts = stamp;
        emit_ts = stamp;
        payload = some payload;
      }

  -- PublishTicker, PublishTrade and the others: the event on the channel, if any. A call is one step.
  -- The code's lock covers the number alone, so calls that overlap may send in another order.
  unfoldable pub publish : Publisher → PublishCall F A → Option (Event (Payload F A)) × Publisher
  unfolding new_event
  publish p c =
      let (n, p') = next_seq p (event_type c.payload) c.symbol in
      let evt = new_event p' c.now c.symbol n c.payload in
      (if c.lends then if c.sends then some evt else none else none, p')

  abbrev pub sent :
      Option (Event (Payload F A)) → List (Event (Payload F A)) → List (Event (Payload F A))
  sent none es = es
  sent (some e) es = e ∷ es

  -- The events on the channel over a history of calls that do not overlap, and the publisher after it.
  unfoldable pub publish_all :
      Publisher → List (PublishCall F A) → List (Event (Payload F A)) × Publisher
  publish_all p [] = ([], p)
  publish_all p (c ∷ cs) =
      let (evt, p') = publish p c in let (evts, p'') = publish_all p' cs in (sent evt evts, p'')
