-- ===== src/Bus/Memory.antt =====
-- memory.go, bus.go and extension.go: MemoryBus. A channel is the list of its events, oldest first; a
-- delivery is one step, in which the surroundings choose the ready case of its select.
use meltica_gateway.Common.{
  ℕ, ◌+◌, ◌*◌, ◌%◌, ◌^◌, Bool, false, not, Option, none, some, List, [], ◌∷◌, ◌++◌, length, ltb,
  is_nil, is_some, if◌then◌else◌, or_else,
}
use meltica_gateway.Common.Text.{Text, codes, text_beq, text_eq}
use meltica_gateway.Common.Map.{Map, get, put, delete}
use meltica_gateway.Common.Int.{ℤ, is_positive, pos_part}
use meltica_gateway.Schema.Route.{Event}
use meltica_gateway.Publisher.Emit.{uint64_text}

-- subscriber: the buffer of its channel.
pub record Subscriber (P : Type 0) : Type 0 where
  pub ch : List (Event P)

-- MemoryConfig after normalize.
pub record MemoryConfig : Type 0 where
  pub buffer_size : ℕ
  pub fanout_workers : ℕ
  pub payload_cap : ℕ

-- MemoryBus
pub record MemoryBus (P : Type 0) : Type 0 where
  pub cfg : MemoryConfig
  pub subscribers : Map Text (Map Text (Subscriber P))
  pub next_id : ℕ

pub data BusError : Type 0 where
  type_required payload_encode payload_too_large borrow_failed : BusError
  subscriber_context bus_closed_error deliver_context buffer_full : BusError

-- A setting that is not positive takes its default.
abbrev positive_or : ℕ → ℤ → ℕ
positive_or default n = if is_positive n then pos_part n else default

-- MemoryConfig.normalize
unfoldable pub normalize_config : ℤ → ℤ → ℤ → MemoryConfig
normalize_config buffer_size fanout_workers payload_cap = record {
  buffer_size = positive_or 64 buffer_size;
  fanout_workers = positive_or 4 fanout_workers;
  payload_cap = positive_or (100 * 1024) payload_cap;
}

-- What a delivery meets: the subscriber's context had ended before it, or the case that its select
-- takes. Where several cases are ready Go picks any of them. The channel of a subscriber that
-- Unsubscribe or Close has taken off meanwhile is closed, and Go may then pick the send, which panics;
-- there is no case for that.
pub data Chosen : Type 0 where
  context_error by_bus by_context by_subscriber by_send : Chosen

-- What a delivery leaves: its error, the events that go back to the pool, and the channel.
pub record Delivery (P : Type 0) : Type 0 where
  pub error : Option BusError
  pub recycled : List (Event P)
  pub sub : Subscriber P

abbrev pub error_list : Option BusError → List BusError
error_list none = []
error_list (some e) = e ∷ []

-- What a call of Publish leaves: errors of which it returns one, the events that it returns to the
-- pool, how many it borrowed from there, and the bus.
pub record PublishResult (P : Type 0) : Type 0 where
  pub errors : List BusError
  pub recycled : List (Event P)
  pub borrowed : ℕ
  pub bus : MemoryBus P

module _ {P : Type 0} where
  -- NewMemoryBus
  unfoldable pub new_memory_bus : MemoryConfig → MemoryBus P
  new_memory_bus cfg = record { cfg = cfg; subscribers = []; next_id = 0 }

  -- The default case of the select: a full channel loses its oldest event, and then takes the event.
  unfoldable pub drop_oldest : ℕ → Event P → List (Event P) → Delivery P
  drop_oldest limit evt [] = record {
    error = some buffer_full;
    recycled = evt ∷ [];
    sub = record { ch = [] };
  }
  drop_oldest limit evt (oldest ∷ rest) =
      if ltb (length rest) limit
      then record { error = none; recycled = oldest ∷ []; sub = record { ch = rest ++ evt ∷ [] } }
      else record {
        error = some buffer_full;
        recycled = oldest ∷ evt ∷ [];
        sub = record { ch = rest };
      }

  -- The send of deliverWithRecycle, where the channel has room or not.
  unfoldable pub send : ℕ → Event P → List (Event P) → Delivery P
  send limit evt ch =
      if ltb (length ch) limit
      then record { error = none; recycled = []; sub = record { ch = ch ++ evt ∷ [] } }
      else drop_oldest limit evt ch

  -- deliverWithRecycle
  unfoldable pub deliver : ℕ → Chosen → Event P → Subscriber P → Delivery P
  deliver limit context_error evt sub = record {
    error = some subscriber_context;
    recycled = evt ∷ [];
    sub = sub;
  }
  deliver limit by_bus evt sub = record {
    error = some bus_closed_error;
    recycled = evt ∷ [];
    sub = sub;
  }
  deliver limit by_context evt sub = record {
    error = some deliver_context;
    recycled = evt ∷ [];
    sub = sub;
  }
  deliver limit by_subscriber evt sub = record { error = none; recycled = evt ∷ []; sub = sub }
  deliver limit by_send evt sub = send limit evt sub.ch

  -- schema.CopyEvent into a borrowed event.
  unfoldable pub copy_event : Event P → Event P
  copy_event src = record src { returned = false }

  -- dispatch: every subscriber gets its own clone. The deliveries run in any order and touch one
  -- subscriber each. The errors, the events that go back, and the subscribers after it.
  unfoldable pub dispatch :
      ℕ
      → (Text → Chosen)
      → Event P
      → Map Text (Subscriber P)
      → List BusError × List (Event P) × Map Text (Subscriber P)
  dispatch limit choose evt [] = ([], [], [])
  dispatch limit choose evt ((id, sub) ∷ subs) =
      let d = deliver limit (choose id) (copy_event evt) sub in
      let (errors, recycled, rest) = dispatch limit choose evt subs in
      (error_list d.error ++ errors, d.recycled ++ recycled, (id, d.sub) ∷ rest)

  -- The map of the subscribers of a type; a missing one is empty.
  abbrev pub subscribers_of : MemoryBus P → Text → Map Text (Subscriber P)
  subscribers_of bus kind = or_else (get bus.subscribers kind) []

  -- enforceExtensionPayloadCap; `size` is extensionPayloadSize, `none` an error of json.Marshal.
  unfoldable pub enforce_payload_cap : (Option P → Option ℕ) → ℕ → Event P → Option BusError
  enforce_payload_cap size cap evt =
      if not (text_beq evt.kind (codes "Extension")) then none else elim (size evt.payload) [
        | none ↦ some payload_encode
        | some n ↦ if ltb cap n then some payload_too_large else none
      ]

  -- The end of Publish, once the clones are there: the events go to the subscribers, and the source
  -- goes back to the pool whatever comes of it.
  unfoldable pub fan_out :
      MemoryBus P → (Text → Chosen) → Event P → Map Text (Subscriber P) → PublishResult P
  fan_out bus choose evt subs =
      let (errors, recycled, subs') = dispatch bus.cfg.buffer_size choose evt subs in
      record {
        errors = errors;
        recycled = recycled ++ evt ∷ [];
        borrowed = length subs;
        bus = record bus { subscribers = put bus.subscribers evt.kind subs' };
      }

  -- A call that ends before the fan-out.
  unfoldable pub stop : MemoryBus P → List BusError → List (Event P) → PublishResult P
  stop bus errors recycled = record {
    errors = errors;
    recycled = recycled;
    borrowed = 0;
    bus = bus;
  }

  -- Publish of an event that is not nil; `borrows` says whether the pool lends the clones.
  unfoldable pub publish :
      (Option P → Option ℕ) → MemoryBus P → (Text → Chosen) → Bool → Event P → PublishResult P
  publish size bus choose borrows evt =
      let subs = subscribers_of bus evt.kind in
      if text_beq evt.kind []
      then stop bus (type_required ∷ []) []
      else elim (enforce_payload_cap size bus.cfg.payload_cap evt) [
        | some e ↦ stop bus (e ∷ []) (evt ∷ [])
        | none ↦
            if is_nil subs
            then stop bus [] (evt ∷ [])
            else if not borrows
            then stop bus (borrow_failed ∷ []) (evt ∷ [])
            else fan_out bus choose evt subs
      ]

  -- Subscribe: the id and the bus, or an error.
  unfoldable pub subscribe : MemoryBus P → Text → Option Text × MemoryBus P
  subscribe bus kind =
      let n = (bus.next_id + 1) % 2 ^ 64 in
      let id = codes "sub-" ++ uint64_text n in
      let subs = put (subscribers_of bus kind) id (record { ch = [] }) in
      if text_beq kind []
      then (none, bus)
      else (some id, record bus { next_id = n; subscribers = put bus.subscribers kind subs })

  -- The loop of Unsubscribe: the first type that has the id loses it, and goes with its last one.
  unfoldable pub remove_id :
      Map Text (Map Text (Subscriber P)) → Text → Map Text (Map Text (Subscriber P))
  remove_id [] id = []
  remove_id ((kind, subs) ∷ rest) id =
      let rest' = remove_id rest id in
      if is_some (get subs id)
      then if is_nil (delete subs id) then rest else (kind, delete subs id) ∷ rest
      else (kind, subs) ∷ rest'

  -- Unsubscribe
  unfoldable pub unsubscribe : MemoryBus P → Text → MemoryBus P
  unsubscribe bus id =
      if text_beq id [] then bus else record bus { subscribers = remove_id bus.subscribers id }

  -- Close
  unfoldable pub close : MemoryBus P → MemoryBus P
  close bus = record bus { subscribers = [] }
