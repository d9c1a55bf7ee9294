-- ===== src/Bus/Examples.antt =====
-- The theorems on the event bus at concrete inputs.
use meltica_gateway.Common.{
  ℕ, ◌+◌, true, false, ◌≡◌, refl, Option, some, List, [], ◌∷◌, ◌++◌, arith, count, tally, Bool,
  nat_eq, ◌&&◌, if◌then◌else◌,
}
use meltica_gateway.Common.Text.{Text, codes, text_beq, text_eq}
use meltica_gateway.Common.Map.{get}
use meltica_gateway.Schema.Route.{Event}
use meltica_gateway.Bus.Memory.{MemoryBus, Chosen, by_send, by_context, subscribers_of, publish}
use meltica_gateway.Bus.Durable.{DurableBus}
use meltica_gateway.Bus.Outbox.{
  DurableStep, publication, replay, run_durable, IsKept, run_durable-IsKept,
}
use meltica_gateway.Bus.Ownership.{buffered, clones, publish-conserves}
use meltica_gateway.Bus.Channel.{
  Publication, keep_last, sent_to, publish_all, publish_all-keep_last,
}

abbrev event : Text → ℕ → Event ℕ
event kind n = record {
  returned = false;
  event_id = [];
  routing_version = 0;
  provider = [];
  symbol = codes "BTC-USDT";
  kind = kind;
  seq_provider = n;
  ingest_ts = 5;
  emit_ts = 5;
  payload = some n;
}

abbrev event_size : Option ℕ → Option ℕ
event_size p = some 4

abbrev full_channel : List (Event ℕ)
full_channel = event (codes "Trade") 1 ∷ event (codes "Trade") 2 ∷ []

-- A bus with two places in each channel, and two subscribers to trades of which the first is full.
abbrev bus : MemoryBus ℕ
bus = record {
  cfg = record { buffer_size = 2; fanout_workers = 4; payload_cap = 1024 };
  subscribers =
      (
        codes "Trade",
        (codes "sub-1", record { ch = full_channel }) ∷ (codes "sub-2", record { ch = [] }) ∷ [],
      )
      ∷ [];
  next_id = 2;
}

-- The first subscriber gets its clone, and the publisher's context ends before the second does.
abbrev choose : Text → Chosen
choose id = if text_beq id (codes "sub-1") then by_send else by_context

-- The events of the third publication.
abbrev third : Event ℕ → Bool
third evt = nat_eq evt.seq_provider 3

publish-conserves_example :
    let evt = event (codes "Trade") 3 in
    let r = publish event_size bus choose true evt in
    buffered third r.bus + count third r.recycled + tally (text_beq evt.kind [] && third evt)
    ≡ buffered third bus + clones third r.borrowed evt + tally (third evt)
publish-conserves_example =
    publish-conserves third event_size bus choose true (event (codes "Trade") 3)

channel_there :
    get (subscribers_of bus (codes "Trade")) (codes "sub-1") ≡ some (record { ch = full_channel })
unfolding get text_beq
channel_there = refl

-- A publication whose deliveries all take the send, and one that the pool lends no clones for.
abbrev sends : Event ℕ → Publication ℕ
sends evt = record { event = evt; choose = λ _. by_send; borrows = true }

abbrev lacks_clones : Event ℕ → Publication ℕ
lacks_clones evt = record { event = evt; choose = λ _. by_send; borrows = false }

-- The second subscriber misses the third trade, and the last one comes to nobody.
abbrev publications : List (Publication ℕ)
publications =
    sends (event (codes "Trade") 3)
    ∷ sends (event (codes "Ticker") 4)
    ∷ record { event = event (codes "Trade") 5; choose = choose; borrows = true }
    ∷ lacks_clones (event (codes "Trade") 6)
    ∷ []

publish_all-keep_last_example :
    get (subscribers_of (publish_all event_size bus publications) (codes "Trade")) (codes "sub-1")
    ≡ some (record {
      ch =
          keep_last 2
            (full_channel ++ sent_to event_size 1024 (codes "Trade") (codes "sub-1") publications);
    })
publish_all-keep_last_example =
    publish_all-keep_last event_size bus publications (codes "Trade") (codes "sub-1") full_channel
      (λ e. cc e) (omega arith) (omega arith) channel_there

abbrev empty_outbox : DurableBus
empty_outbox = record { cap_bytes = 1024; pending = []; next_entry = 0; accepted = [] }

empty_outbox-IsKept : IsKept empty_outbox
unfolding IsKept
empty_outbox-IsKept id lt = ground (arith, lt)

-- A publication that the inner bus refuses, and a replay that succeeds but cannot be marked.
abbrev outbox_steps : List (DurableStep ℕ)
outbox_steps =
    publication (record { stored = true; published = false; marked = true })
      (event (codes "Trade") 6)
    ∷ replay (record { id = 0; prepared = true; published = true; marked = false } ∷ [])
    ∷ []

run_durable-IsKept_example : IsKept (run_durable event_size empty_outbox outbox_steps)
run_durable-IsKept_example =
    run_durable-IsKept event_size empty_outbox outbox_steps empty_outbox-IsKept
