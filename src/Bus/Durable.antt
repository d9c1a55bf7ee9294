-- ===== src/Bus/Durable.antt =====
-- durable.go: DurableBus, which writes an event to an outbox before it publishes it, and replays what
-- the outbox has undelivered. The outbox is its set of undelivered entries: Enqueue gives the next id,
-- MarkDelivered takes an entry out, and MarkFailed leaves it for a later attempt. What the store, the
-- pool and the inner bus answer is given with each call. A call is one step, a publication or
-- a replay.
use meltica_gateway.Common.{
  ℕ, ◌+◌, Bool, false, not, ◌||◌, Option, none, some, List, [], ◌∷◌, nat_eq, if◌then◌else◌,
}
use meltica_gateway.Schema.Route.{Event}
use meltica_gateway.Bus.Memory.{BusError, enforce_payload_cap}

-- DurableBus with its store and its inner bus: the undelivered entries, the next id, and the entries
-- whose event the inner bus has taken without an error, which only its Publish adds to.
pub record DurableBus : Type 0 where
  pub cap_bytes : ℕ
  pub pending : List ℕ
  pub next_entry : ℕ
  pub accepted : List ℕ

-- What a publication meets: whether the store takes the entry, the inner bus the event, and the store
-- the mark.
pub record PublishAnswers : Type 0 where
  pub stored : Bool
  pub published : Bool
  pub marked : Bool

-- A record that ListPending returns, with what its replay meets: whether it decodes and an event is
-- there for it, and the other two answers.
pub record ReplayRecord : Type 0 where
  pub id : ℕ
  pub prepared : Bool
  pub published : Bool
  pub marked : Bool

pub data DurableError : Type 0 where
  refused_payload : BusError → DurableError
  enqueue_failed publish_failed mark_failed : DurableError

-- An entry is not among the undelivered ones any more.
unfoldable pub take_out : List ℕ → ℕ → List ℕ
take_out [] id = []
take_out (x ∷ xs) id = let rest = take_out xs id in if nat_eq x id then rest else x ∷ rest

unfoldable pub has_entry : List ℕ → ℕ → Bool
has_entry [] id = false
has_entry (x ∷ xs) id = nat_eq x id || has_entry xs id

-- inner.Publish of the event of an entry, with the inner bus's answer.
unfoldable pub inner_publish : DurableBus → ℕ → Bool → DurableBus
inner_publish b id published = if published then record b { accepted = id ∷ b.accepted } else b

-- MarkDelivered of an entry, which the store takes or not.
unfoldable pub mark_delivered : DurableBus → ℕ → Bool → DurableBus
mark_delivered b id marked = if marked then record b { pending = take_out b.pending id } else b

-- enqueueEvent
unfoldable pub enqueue_event : DurableBus → Bool → Option ℕ × DurableBus
enqueue_event b stored =
    if stored
    then (
      some b.next_entry,
      record b { pending = b.next_entry ∷ b.pending; next_entry = b.next_entry + 1 },
    )
    else (none, b)

module _ {P : Type 0} where
  -- Publish of a bus that has a store; MarkFailed leaves the entry undelivered.
  unfoldable pub publish_durable :
      (Option P → Option ℕ)
      → DurableBus
      → PublishAnswers
      → Event P
      → Option DurableError × DurableBus
  publish_durable size b answers evt = elim (enforce_payload_cap size b.cap_bytes evt) [
    | some e ↦ (some (refused_payload e), b)
    | none ↦
        let (entry, b') = enqueue_event b answers.stored in
        elim entry [
          | none ↦ (some enqueue_failed, b')
          | some id ↦
              let sent = inner_publish b' id answers.published in
              if not answers.published then (some publish_failed, sent) else (
                if answers.marked then none else some mark_failed,
                mark_delivered sent id answers.marked,
              )
        ]
  ]

-- The body of the loop of replayPendingEvents: a record that does not decode or is not published stays
-- undelivered.
unfoldable pub replay_record : DurableBus → ReplayRecord → DurableBus
replay_record b r =
    let sent = inner_publish b r.id r.published in
    if not r.prepared then b else if r.published then mark_delivered sent r.id r.marked else sent

-- replayPendingEvents
unfoldable pub replay_pending_events : DurableBus → List ReplayRecord → DurableBus
replay_pending_events b [] = b
replay_pending_events b (r ∷ records) = replay_pending_events (replay_record b r) records
