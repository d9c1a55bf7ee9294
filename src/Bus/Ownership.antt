-- ===== src/Bus/Ownership.antt =====
-- No event is lost on its way through the bus: what is borrowed is in a channel or goes back.
use meltica_gateway.Common.{
  ℕ, ◌+◌, zero, suc, Bool, ◌&&◌, ◌≡◌, Option, List, [], ◌∷◌, length, count, count-append, tally,
  arith, or_else,
}
use meltica_gateway.Common.Text.{Text, text_beq, text_eq}
use meltica_gateway.Common.Map.{Map, get, put}
use meltica_gateway.Schema.Route.{Event}
use meltica_gateway.Bus.Memory.{
  Subscriber, MemoryBus, Chosen, context_error, by_bus, by_context, by_subscriber, by_send,
  drop_oldest, send, deliver, copy_event, dispatch, subscribers_of, fan_out, stop, publish,
}

-- `q` is any test of an event. Equal counts for every test are equal bags of events.
module _ {P : Type 0} (q : Event P → Bool) where
  -- The events in the channels of some subscribers that pass the test.
  unfoldable pub in_channels : Map Text (Subscriber P) → ℕ
  in_channels [] = 0
  in_channels ((id, sub) ∷ subs) = count q sub.ch + in_channels subs

  -- Those in all channels of the bus.
  unfoldable pub in_types : Map Text (Map Text (Subscriber P)) → ℕ
  in_types [] = 0
  in_types ((kind, subs) ∷ rest) = in_channels subs + in_types rest

  unfoldable pub buffered : MemoryBus P → ℕ
  buffered bus = in_types bus.subscribers

  drop_oldest-conserves :
      (limit : ℕ) (evt : Event P) (ch : List (Event P))
      → let d = drop_oldest limit evt ch in
        count q d.sub.ch + count q d.recycled ≡ count q ch + tally (q evt)
  unfolding drop_oldest
  drop_oldest-conserves limit evt [] = omega arith
  drop_oldest-conserves limit evt (oldest ∷ rest) = ground (arith, count-append q rest (evt ∷ []))

  send-conserves :
      (limit : ℕ) (evt : Event P) (ch : List (Event P))
      → let d = send limit evt ch in
        count q d.sub.ch + count q d.recycled ≡ count q ch + tally (q evt)
  unfolding send
  send-conserves limit evt ch =
      ground (arith, count-append q ch (evt ∷ []), drop_oldest-conserves limit evt ch)

  deliver-conserves :
      (limit : ℕ) (c : Chosen) (evt : Event P) (sub : Subscriber P)
      → let d = deliver limit c evt sub in
        count q d.sub.ch + count q d.recycled ≡ count q sub.ch + tally (q evt)
  unfolding deliver
  deliver-conserves limit context_error evt sub = omega arith
  deliver-conserves limit by_bus evt sub = omega arith
  deliver-conserves limit by_context evt sub = omega arith
  deliver-conserves limit by_subscriber evt sub = omega arith
  deliver-conserves limit by_send evt sub = send-conserves limit evt sub.ch

  -- The clones of an event that pass the test.
  unfoldable pub clones : ℕ → Event P → ℕ
  clones zero evt = 0
  clones (suc n) evt = tally (q (copy_event evt)) + clones n evt

  dispatch-conserves :
      (limit : ℕ) (choose : Text → Chosen) (evt : Event P) (subs : Map Text (Subscriber P))
      → let (errors, recycled, subs') = dispatch limit choose evt subs in
        in_channels subs' + count q recycled ≡ in_channels subs + clones (length subs) evt
  unfolding dispatch in_channels clones
  dispatch-conserves limit choose evt [] = omega arith
  dispatch-conserves limit choose evt ((id, sub) ∷ subs) =
      let d = deliver limit (choose id) (copy_event evt) sub in
      let (errors, recycled, rest) = dispatch limit choose evt subs in
      omega (
        arith,
        deliver-conserves limit (choose id) (copy_event evt) sub,
        dispatch-conserves limit choose evt subs,
        count-append q d.recycled recycled,
      )

  in_types-put :
      (m : Map Text (Map Text (Subscriber P))) (kind : Text) (subs : Map Text (Subscriber P))
      → in_types (put m kind subs) + in_channels (or_else (get m kind) [])
        ≡ in_types m + in_channels subs
  unfolding in_types get put in_channels
  in_types-put [] kind subs = omega arith
  in_types-put ((k, old) ∷ m) kind subs = ground (arith, in_types-put m kind subs)

  fan_out-conserves :
      (bus : MemoryBus P) (choose : Text → Chosen) (evt : Event P)
      → let r = fan_out bus choose evt (subscribers_of bus evt.kind) in
        buffered r.bus + count q r.recycled ≡ buffered bus + clones r.borrowed evt + tally (q evt)
  unfolding fan_out buffered
  fan_out-conserves bus choose evt =
      let subs = subscribers_of bus evt.kind in
      let (errors, recycled, subs') = dispatch bus.cfg.buffer_size choose evt subs in
      omega (
        arith,
        in_types-put bus.subscribers evt.kind subs',
        dispatch-conserves bus.cfg.buffer_size choose evt subs,
        count-append q recycled (evt ∷ []),
      )

  -- Publish gives every event that it holds to a channel or back to the pool, whatever the deliveries
  -- meet and whatever events are counted: what the channels hold and what goes back are, as bags, what
  -- the channels held before, a copy of the event for each clone that was borrowed, and the source. The
  -- one exception is an event without a type, which it keeps.
  pub publish-conserves :
      (size : Option P → Option ℕ) (bus : MemoryBus P) (choose : Text → Chosen) (borrows : Bool)
      (evt : Event P)
      → let r = publish size bus choose borrows evt in
        buffered r.bus + count q r.recycled + tally (text_beq evt.kind [] && q evt)
        ≡ buffered bus + clones r.borrowed evt + tally (q evt)
  unfolding publish buffered stop clones
  publish-conserves size bus choose borrows evt = ground (arith, fan_out-conserves bus choose evt)
