-- ===== src/Dispatcher/Dedupe.antt =====
-- What the runtime's window of seen ids guarantees.
use meltica_gateway.Common.{
  ℕ, suc, subst, ◌+◌, ◌≤◌, ◌<◌, Bool, true, false, ◌≡◌, ◌≢◌, refl, sym, ap, ◌∙◌, ◌⊎◌, inl, inr,
  ◌&&◌, Option, none, some, List, [], ◌∷◌, length, ltb, arith, if◌then◌else◌, Bool-cases, if-both,
  All, ◌==◌, ==_iff,
}
use meltica_gateway.Common.Text.{Text, text_beq, text_beq_iff, text_eq}
use meltica_gateway.Common.Map.{Map, get, put, get-put}
use meltica_gateway.Schema.Order.{Time}
use meltica_gateway.Schema.Route.{Event}
use meltica_gateway.Dispatcher.Runtime.{
  Runtime, drop_old, gc_dedupe, is_recent, mark_seen, stamp_event, with_provider, process,
  published, run,
}

-- An entry inside the window survives the collection.
get-drop_old :
    (w now : ℕ) (m : Map Text Time) (id : Text) (ts : Time)
    → get m id ≡ some ts
    → now ≤ ts + w
    → get (drop_old w now m) id ≡ some ts
unfolding get drop_old
get-drop_old w now [] id ts h le = cc
get-drop_old w now ((j, v) ∷ m) id ts h le = ground (arith, get-drop_old w now m id ts)

-- The id is in the table with a time not before `start`.
Seen : Runtime → Text → Time → Type 0
Seen r id start = (ts : Time) × (get r.dedupe id ≡ some ts) × (start ≤ ts)

Seen-gc_dedupe :
    (r : Runtime) (id : Text) (start now : Time)
    → now < start + r.dedupe_window
    → Seen r id start
    → Seen (gc_dedupe r now) id start
unfolding gc_dedupe Seen
Seen-gc_dedupe r id start now lt (ts, e, le) =
    (ts, get-drop_old r.dedupe_window now r.dedupe id ts e (omega arith), le)

Seen-put :
    (r : Runtime) (id other : Text) (start now : Time)
    → start ≤ now
    → Seen r id start ⊎ (other ≡ id)
    → Seen (record r { dedupe = put r.dedupe other now }) id start
unfolding Seen
Seen-put r id other start now le seen = elim (Bool-cases (other == id)) [
  | inl p ↦ (now, get-put r.dedupe other id now ∙ (rw p), le)
  | inr p ↦ elim seen [
    | inl (ts, e, le') ↦ (ts, get-put r.dedupe other id now ∙ (rw (p, e)), le')
    | inr q ↦ (now, ground (arith, ==_iff other id, p, q), le)
  ]
]

Seen-record :
    (r : Runtime) (id other : Text) (start now : Time)
    → start ≤ now
    → now < start + r.dedupe_window
    → Seen r id start ⊎ (other ≡ id)
    → Seen
        (let r1 = record r { dedupe = put r.dedupe other now } in
          if ltb r.dedupe_capacity (length r1.dedupe) then gc_dedupe r1 now else r1)
        id
        start
Seen-record r id other start now le lt seen =
    let kept = Seen-put r id other start now le seen in
    let r1 = record r { dedupe = put r.dedupe other now } in
    if-both (λ s. Seen s id start) (ltb r.dedupe_capacity (length r1.dedupe))
      (λ _. Seen-gc_dedupe r1 id start now lt kept) (λ _. kept)

-- The mark of any id keeps the entry.
Seen-mark_seen :
    (r : Runtime) (id other : Text) (start now : Time)
    → start ≤ now
    → now < start + r.dedupe_window
    → Seen r id start
    → Seen ((mark_seen r now other).1) id start
unfolding mark_seen
Seen-mark_seen r id other start now le lt seen =
    let P : Bool × Runtime → Type 0 = λ m. Seen (m.1) id start in
    if-both P (text_beq other []) (λ _. seen)
      (λ _.
        if-both P (is_recent r.dedupe_window now (get r.dedupe other)) (λ _. seen)
          (λ _. Seen-record r id other start now le lt (inl seen)))

-- After an id was marked it is seen.
mark_seen-Seen :
    (r : Runtime) (id : Text) (start now : Time)
    → id ≢ []
    → start ≤ now
    → now < start + r.dedupe_window
    → (mark_seen r now id).0 ≡ true
    → Seen ((mark_seen r now id).1) id start
unfolding mark_seen
mark_seen-Seen r id start now full le lt =
    let P : Bool × Runtime → Type 0 = λ m. m.0 ≡ true → Seen (m.1) id start in
    if-both P (text_beq id []) (λ blank e. elim (full ((text_beq_iff id []).0 blank)) [ ])
      (λ _.
        if-both P (is_recent r.dedupe_window now (get r.dedupe id)) (λ _ e. cc)
          (λ _ e. Seen-record r id id start now le lt (inr refl)))

-- A seen id is not marked again within the window.
mark_seen-duplicate :
    (r : Runtime) (id : Text) (start now : Time)
    → id ≢ []
    → now < start + r.dedupe_window
    → Seen r id start
    → mark_seen r now id ≡ (false, r)
unfolding mark_seen is_recent Seen
mark_seen-duplicate r id start now full lt (ts, e, le) = ground (arith, text_beq_iff id [], e)

-- The marks keep the window's length.
mark_seen-window :
    (r : Runtime) (now : Time) (id : Text)
    → ((mark_seen r now id).1).dedupe_window ≡ r.dedupe_window
unfolding mark_seen gc_dedupe
mark_seen-window r now id = ground arith

module _ {Payload : Type 0} where
  -- The number of the events of an id.
  unfoldable pub copies : Text → List (Event Payload) → ℕ
  copies id [] = 0
  copies id (e ∷ es) = let rest = copies id es in if e.event_id == id then suc rest else rest

  -- All clock readings lie in a window's length from `start`.
  unfoldable pub IsWithin : Time → ℕ → List (Time × Option (Event Payload)) → Type 0
  IsWithin start window evts = All (λ x. (start ≤ x.0) × (x.0 < start + window)) evts

  process-id :
      (r : Runtime) (now : Time) (e : Event Payload)
      → (with_provider (stamp_event r now e)).event_id ≡ e.event_id
  unfolding with_provider stamp_event
  process-id r now e = refl

  copies-published :
      (id : Text) (r : Runtime) (now : Time) (fresh : Bool) (e : Event Payload)
      (es : List (Event Payload))
      → copies id
          (published (if fresh then some (with_provider (stamp_event r now e)) else none) es)
        ≡ (if fresh && (e.event_id == id) then suc (copies id es) else copies id es)
  unfolding copies with_provider stamp_event
  copies-published id r now true e es = refl
  copies-published id r now false e es = refl

  -- While an id is seen none of its events is published.
  run_none :
      (r : Runtime) (id : Text) (start : Time) (evts : List (Time × Option (Event Payload)))
      → id ≢ []
      → Seen r id start
      → IsWithin start r.dedupe_window evts
      → copies id (run r evts) ≡ 0
  unfolding run process copies IsWithin
  run_none r id start [] full seen within = refl
  run_none r id start ((now, none) ∷ evts) full seen (_, within) =
      run_none r id start evts full seen within
  run_none r id start ((now, some e) ∷ evts) full seen ((le, lt), within) =
      let (fresh, r') = mark_seen r now e.event_id in
      let w = mark_seen-window r now e.event_id in
      let kept = Seen-mark_seen r id e.event_id start now le lt seen in
      let rest =
        run_none r' id start evts full kept (subst (λ k. IsWithin start k evts) (sym w) within) in
      let again : id ≡ e.event_id → fresh ≡ false = λ same.
        subst (λ x. (mark_seen r now x).0 ≡ false) same
          (ap (λ m. m.0) (mark_seen-duplicate r id start now full lt seen)) in
      copies-published id r now fresh e (run r' evts)
      ∙ ground (arith, rest, again, ==_iff e.event_id id)

  -- Of the events with one id that arrive within a window's length of each other at most one is
  -- published, whatever arrives between them, if the id is not blank.
  pub run_at_most_once :
      (r : Runtime) (id : Text) (start : Time) (evts : List (Time × Option (Event Payload)))
      → id ≢ []
      → IsWithin start r.dedupe_window evts
      → copies id (run r evts) ≤ 1
  unfolding run process copies IsWithin
  run_at_most_once r id start [] full within = omega arith
  run_at_most_once r id start ((now, none) ∷ evts) full (_, within) =
      run_at_most_once r id start evts full within
  run_at_most_once r id start ((now, some e) ∷ evts) full ((le, lt), within) =
      let (fresh, r') = mark_seen r now e.event_id in
      let w = mark_seen-window r now e.event_id in
      let within' = subst (λ k. IsWithin start k evts) (sym w) within in
      let most = run_at_most_once r' id start evts full within' in
      let first : fresh ≡ true → e.event_id ≡ id → copies id (run r' evts) ≡ 0 = λ marked same.
        run_none r' id start evts full
          (subst (λ x. Seen r' x start) same
            (mark_seen-Seen r e.event_id start now (λ b. full (sym same ∙ b)) le lt marked))
          within' in
      subst (λ n. n ≤ 1) (sym (copies-published id r now fresh e (run r' evts)))
        (ground (arith, most, first, ==_iff e.event_id id))
