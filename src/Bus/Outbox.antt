-- ===== src/Bus/Outbox.antt =====
-- No entry of the outbox is lost.
use meltica_gateway.Common.{
  ℕ, ◌<◌, Bool, true, false, not, ◌&&◌, ◌||◌, ◌≡◌, refl, Option, List, [], ◌∷◌, nat_eq, nat_eq_iff,
  arith, if-both, option-both,
}
use meltica_gateway.Schema.Route.{Event}
use meltica_gateway.Bus.Memory.{enforce_payload_cap}
use meltica_gateway.Bus.Durable.{
  DurableBus, PublishAnswers, ReplayRecord, DurableError, take_out, has_entry, inner_publish,
  mark_delivered, replay_record, enqueue_event, publish_durable, replay_pending_events,
}

-- A call of Publish with its answers, or a replay with the records that it meets.
pub data DurableStep (P : Type 0) : Type 0 where
  publication : PublishAnswers → Event P → DurableStep P
  replay : List ReplayRecord → DurableStep P

unfoldable pub run_durable :
    {P : Type 0} → (Option P → Option ℕ) → DurableBus → List (DurableStep P) → DurableBus
run_durable size b [] = b
run_durable size b (publication answers evt ∷ steps) =
    run_durable size ((publish_durable size b answers evt).1) steps
run_durable size b (replay records ∷ steps) =
    run_durable size (replay_pending_events b records) steps

-- Every entry that was stored is undelivered, or the inner bus took its event.
unfoldable pub IsKept : DurableBus → Type 0
IsKept b = (id : ℕ) → id < b.next_entry → (has_entry b.pending id || has_entry b.accepted id) ≡ true

has_entry-take_out :
    (xs : List ℕ) (id j : ℕ) → has_entry (take_out xs id) j ≡ (has_entry xs j && not (nat_eq id j))
unfolding has_entry take_out
has_entry-take_out [] id j = refl
has_entry-take_out (x ∷ xs) id j =
    ground (arith, has_entry-take_out xs id j, nat_eq_iff x id, nat_eq_iff x j, nat_eq_iff id j)

inner_publish-IsKept :
    (b : DurableBus) (id : ℕ) (published : Bool) → IsKept b → IsKept (inner_publish b id published)
unfolding IsKept inner_publish has_entry
inner_publish-IsKept b id published kept j lt = ground (arith, kept j, lt)

inner_publish-takes :
    (b : DurableBus) (id : ℕ) (published : Bool)
    → published ≡ true
    → has_entry (inner_publish b id published).accepted id ≡ true
unfolding inner_publish has_entry
inner_publish-takes b id published taken = ground (arith, nat_eq_iff id id)

-- An entry that the inner bus has taken can be marked.
mark_delivered-IsKept :
    (b : DurableBus) (id : ℕ) (marked : Bool)
    → has_entry b.accepted id ≡ true
    → IsKept b
    → IsKept (mark_delivered b id marked)
unfolding IsKept mark_delivered
mark_delivered-IsKept b id marked taken kept j lt =
    ground (arith, kept j, lt, taken, has_entry-take_out b.pending id j, nat_eq_iff id j)

-- So it is once the inner bus's answer to it was no error.
published-IsKept :
    (b : DurableBus) (id : ℕ) (published marked : Bool)
    → published ≡ true
    → IsKept b
    → IsKept (mark_delivered (inner_publish b id published) id marked)
published-IsKept b id published marked taken kept =
    mark_delivered-IsKept (inner_publish b id published) id marked
      (inner_publish-takes b id published taken) (inner_publish-IsKept b id published kept)

enqueue_event-IsKept :
    (b : DurableBus) (stored : Bool) → IsKept b → IsKept ((enqueue_event b stored).1)
unfolding IsKept enqueue_event has_entry
enqueue_event-IsKept b true kept j lt = ground (arith, kept j, nat_eq_iff b.next_entry j)
enqueue_event-IsKept b false kept j lt = kept j lt

replay_record-IsKept : (b : DurableBus) (r : ReplayRecord) → IsKept b → IsKept (replay_record b r)
unfolding replay_record
replay_record-IsKept b r kept =
    if-both IsKept (not r.prepared) (λ _. kept)
      (λ _.
        if-both IsKept r.published
          (λ taken. published-IsKept b r.id r.published r.marked taken kept)
          (λ _. inner_publish-IsKept b r.id r.published kept))

replay-IsKept :
    (b : DurableBus) (records : List ReplayRecord)
    → IsKept b
    → IsKept (replay_pending_events b records)
unfolding replay_pending_events
replay-IsKept b [] kept = kept
replay-IsKept b (r ∷ records) kept =
    replay-IsKept (replay_record b r) records (replay_record-IsKept b r kept)

module _ {P : Type 0} (size : Option P → Option ℕ) where
  publish_durable-IsKept :
      (b : DurableBus) (answers : PublishAnswers) (evt : Event P)
      → IsKept b
      → IsKept ((publish_durable size b answers evt).1)
  unfolding publish_durable
  publish_durable-IsKept b answers evt kept =
      let (entry, b') = enqueue_event b answers.stored in
      let kept' = enqueue_event-IsKept b answers.stored kept in
      option-both (λ (r : Option DurableError × DurableBus). IsKept (r.1))
        (enforce_payload_cap size b.cap_bytes evt)
        (λ _.
          option-both (λ (r : Option DurableError × DurableBus). IsKept (r.1)) entry (λ _. kept')
            (λ id _.
              if-both (λ (r : Option DurableError × DurableBus). IsKept (r.1))
                (not answers.published) (λ _. inner_publish-IsKept b' id answers.published kept')
                (λ taken.
                  published-IsKept b' id answers.published answers.marked (ground (arith, taken))
                    kept')))
        (λ e _. kept)

  -- Whatever the store, the pool and the inner bus answer to a history of publications and replays, an
  -- entry that was stored is still undelivered, or the inner bus answered a publication of its event
  -- without an error.
  pub run_durable-IsKept :
      (b : DurableBus) (steps : List (DurableStep P)) → IsKept b → IsKept (run_durable size b steps)
  unfolding run_durable
  run_durable-IsKept b [] kept = kept
  run_durable-IsKept b (publication answers evt ∷ steps) kept =
      run_durable-IsKept ((publish_durable size b answers evt).1) steps
        (publish_durable-IsKept b answers evt kept)
  run_durable-IsKept b (replay records ∷ steps) kept =
      run_durable-IsKept (replay_pending_events b records) steps (replay-IsKept b records kept)
