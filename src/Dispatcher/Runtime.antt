-- ===== src/Dispatcher/Runtime.antt =====
-- runtime.go: each event is numbered with the table's version, stamped, deduplicated by its id within
-- a time window, and published. The clock's readings for an event are one argument.
use meltica_gateway.Common.{
  ℕ, ◌+◌, ◌*◌, Bool, true, false, Option, none, some, List, [], ◌∷◌, length, ltb, nat_eq,
  if◌then◌else◌,
}
use meltica_gateway.Common.Text.{Text, codes, text_beq, text_eq}
use meltica_gateway.Common.Map.{Map, get, put}
use meltica_gateway.Schema.Order.{Time}
use meltica_gateway.Schema.Route.{Event}

-- The runtime's state and settings; the table is seen through its version.
pub record Runtime : Type 0 where
  pub dedupe : Map Text Time
  pub dedupe_window : ℕ
  pub dedupe_capacity : ℕ
  pub table_version : ℕ

-- NewRuntime: five minutes, 8192 ids.
unfoldable pub new_runtime : ℕ → Runtime
new_runtime version = record {
  dedupe = [];
  dedupe_window = 5 * 60 * 1_000_000_000;
  dedupe_capacity = 8192;
  table_version = version;
}

-- The loop of gcDedupe: an entry older than the window at `now` goes.
unfoldable pub drop_old : ℕ → Time → Map Text Time → Map Text Time
drop_old window now [] = []
drop_old window now ((id, ts) ∷ seen) =
    let rest = drop_old window now seen in if ltb (ts + window) now then rest else (id, ts) ∷ rest

-- gcDedupe
unfoldable pub gc_dedupe : Runtime → Time → Runtime
gc_dedupe r now = record r { dedupe = drop_old r.dedupe_window now r.dedupe }

-- The id was seen less than a window ago.
unfoldable pub is_recent : ℕ → Time → Option Time → Bool
is_recent window now none = false
is_recent window now (some ts) = ltb now (ts + window)

-- markSeen
unfoldable pub mark_seen : Runtime → Time → Text → Bool × Runtime
unfolding is_recent
mark_seen r now id =
    if text_beq id []
    then (true, r)
    else if is_recent r.dedupe_window now (get r.dedupe id)
    then (false, r)
    else (let r1 = record r { dedupe = put r.dedupe id now } in
        (true, if ltb r.dedupe_capacity (length r1.dedupe) then gc_dedupe r1 now else r1))

module _ {Payload : Type 0} where
  -- What the loop writes to an event before it is deduplicated.
  unfoldable pub stamp_event : Runtime → Time → Event Payload → Event Payload
  stamp_event r now evt = record evt {
    routing_version = if ltb 0 r.table_version then r.table_version else evt.routing_version;
    emit_ts = if nat_eq evt.emit_ts 0 then now else evt.emit_ts;
  }

  -- What publish passes to the bus.
  unfoldable pub with_provider : Event Payload → Event Payload
  with_provider evt = record evt {
    provider = if text_beq evt.provider [] then codes "binance" else evt.provider;
  }

  -- One round of the loop: the event that goes to the bus, if any. A duplicate goes back to its pool.
  unfoldable pub process :
      Runtime → Time → Option (Event Payload) → Option (Event Payload) × Runtime
  process r now none = (none, r)
  process r now (some evt) =
      let (fresh, r') = mark_seen r now evt.event_id in
      (if fresh then some (with_provider (stamp_event r now evt)) else none, r')

  abbrev pub published : Option (Event Payload) → List (Event Payload) → List (Event Payload)
  published none es = es
  published (some e) es = e ∷ es

  -- The loop over a sequence of events with their clock readings: what goes to the bus, in order. The
  -- code reads the version of the routing table for each event; here it stays over a sequence.
  unfoldable pub run : Runtime → List (Time × Option (Event Payload)) → List (Event Payload)
  run r [] = []
  run r ((now, evt) ∷ evts) = let (out, r') = process r now evt in published out (run r' evts)
