-- ===== src/Bus/Channel.antt =====
-- A channel holds the newest events of its type, in the order in which they were published.
use meltica_gateway.Common.{
  ℕ, suc, ◌≤◌, ◌<◌, Bool, true, false, ◌&&◌, ◌≡◌, ◌≢◌, refl, sym, ap, ◌∙◌, Option, some, is_none,
  List, [], ◌∷◌, ◌++◌, length, length-append, ltb, is_nil, if◌then◌else◌, arith, ◌==◌, ==_iff,
}
use mathlib.Core.List.{append-nil, append_assoc}
use meltica_gateway.Common.Text.{Text, text_beq_iff, text_eq}
use meltica_gateway.Common.Map.{Map, get, get-put}
use meltica_gateway.Schema.Route.{Event}
use meltica_gateway.Bus.Memory.{
  Subscriber, MemoryBus, Chosen, context_error, by_bus, by_context, by_subscriber, by_send,
  drop_oldest, send, deliver, copy_event, dispatch, subscribers_of, enforce_payload_cap, fan_out,
  stop, publish,
}

module _ {ℓ} {A : Type ℓ} where
  -- The last `n` members.
  unfoldable pub keep_last : ℕ → List A → List A
  keep_last n [] = []
  keep_last n (x ∷ xs) =
      let rest = keep_last n xs in if ltb n (suc (length xs)) then rest else x ∷ xs

  keep_last-short : (n : ℕ) (xs : List A) → length xs ≤ n → keep_last n xs ≡ xs
  unfolding keep_last
  keep_last-short n [] le = refl
  keep_last-short n (x ∷ xs) le = ground (arith, keep_last-short n xs)

  keep_last-append :
      (n : ℕ) (xs ys : List A) → keep_last n (keep_last n xs ++ ys) ≡ keep_last n (xs ++ ys)
  unfolding keep_last
  keep_last-append n [] ys = refl
  keep_last-append n (x ∷ xs) ys = ground (arith, keep_last-append n xs ys, length-append xs ys)

  pub length-keep_last : (n : ℕ) (xs : List A) → length (keep_last n xs) ≤ n
  unfolding keep_last
  length-keep_last n [] = omega arith
  length-keep_last n (x ∷ xs) = ground (arith, length-keep_last n xs)

unfoldable pub is_send : Chosen → Bool
is_send by_send = true
is_send c = false

-- A call of Publish, with what each of its deliveries meets and whether the pool lends the clones.
pub record Publication (P : Type 0) : Type 0 where
  pub event : Event P
  pub choose : Text → Chosen
  pub borrows : Bool

module _ {P : Type 0} where
  drop_oldest-keep_last :
      (limit : ℕ) (evt : Event P) (ch : List (Event P))
      → length ch ≡ limit
      → 0 < limit
      → (drop_oldest limit evt ch).sub.ch ≡ keep_last limit (ch ++ evt ∷ [])
  unfolding drop_oldest keep_last
  drop_oldest-keep_last limit evt [] e full = absurd (omega arith)
  drop_oldest-keep_last limit evt (oldest ∷ rest) e full =
      ground (arith, length-append rest (evt ∷ []), keep_last-short limit (rest ++ evt ∷ []))

  -- A send leaves the newest events that the channel has room for.
  send-keep_last :
      (limit : ℕ) (evt : Event P) (ch : List (Event P))
      → length ch ≤ limit
      → 0 < limit
      → (send limit evt ch).sub.ch ≡ keep_last limit (ch ++ evt ∷ [])
  unfolding send
  send-keep_last limit evt ch le full = ground (
    arith,
    length-append ch (evt ∷ []),
    keep_last-short limit (ch ++ evt ∷ []),
    drop_oldest-keep_last limit evt ch,
  )

  get-dispatch :
      (limit : ℕ) (choose : Text → Chosen) (evt : Event P) (subs : Map Text (Subscriber P))
      (id : Text) (sub : Subscriber P)
      → get subs id ≡ some sub
      → get ((dispatch limit choose evt subs).2) id
        ≡ some ((deliver limit (choose id) (copy_event evt) sub).sub)
  unfolding dispatch get
  get-dispatch limit choose evt [] id sub e = cc
  get-dispatch limit choose evt ((j, s) ∷ subs) id sub e =
      ground (arith, get-dispatch limit choose evt subs id sub, ==_iff j id)

  get-some-full :
      (subs : Map Text (Subscriber P)) (id : Text) (sub : Subscriber P)
      → get subs id ≡ some sub
      → is_nil subs ≡ false
  unfolding get
  get-some-full [] id sub e = cc
  get-some-full (x ∷ subs) id sub e = refl

  -- What a publication leaves in the channel of a subscription.
  get-publish :
      (size : Option P → Option ℕ) (bus : MemoryBus P) (choose : Text → Chosen) (borrows : Bool)
      (evt : Event P) (kind id : Text) (sub : Subscriber P)
      → kind ≢ []
      → get (subscribers_of bus kind) id ≡ some sub
      → get (subscribers_of ((publish size bus choose borrows evt).bus) kind) id
        ≡ some (
            if (evt.kind == kind)
              && is_none (enforce_payload_cap size bus.cfg.payload_cap evt)
              && borrows
            then (deliver bus.cfg.buffer_size (choose id) (copy_event evt) sub).sub
            else sub)
  unfolding publish stop fan_out
  get-publish size bus choose borrows evt kind id sub full e =
      let subs = subscribers_of bus evt.kind in
      let subs' = (dispatch bus.cfg.buffer_size choose evt subs).2 in
      ground (
        arith,
        ==_iff evt.kind kind,
        text_beq_iff evt.kind [],
        get-put bus.subscribers evt.kind kind subs',
        get-dispatch bus.cfg.buffer_size choose evt subs id sub,
        get-some-full subs id sub,
        full,
        e,
      )

  -- A clone of the event of a publication is sent to a subscription: the event is of its type and no
  -- extension event that the cap refuses, the pool lends the clones, and the delivery takes the send.
  unfoldable pub comes_to : (Option P → Option ℕ) → ℕ → Text → Text → Publication P → Bool
  comes_to size cap kind id c =
      ((c.event.kind == kind) && is_none (enforce_payload_cap size cap c.event) && c.borrows)
      && is_send (c.choose id)

  -- The clones that a subscription to a type is sent.
  unfoldable pub sent_to :
      (Option P → Option ℕ) → ℕ → Text → Text → List (Publication P) → List (Event P)
  sent_to size cap kind id [] = []
  sent_to size cap kind id (c ∷ cs) =
      let rest = sent_to size cap kind id cs in
      if comes_to size cap kind id c then copy_event c.event ∷ rest else rest

  abbrev pub after : (Option P → Option ℕ) → MemoryBus P → Publication P → MemoryBus P
  after size bus c = (publish size bus c.choose c.borrows c.event).bus

  -- A sequence of publications, one at a time.
  unfoldable pub publish_all :
      (Option P → Option ℕ) → MemoryBus P → List (Publication P) → MemoryBus P
  publish_all size bus [] = bus
  publish_all size bus (c ∷ cs) = publish_all size (after size bus c) cs

  publish-cfg :
      (size : Option P → Option ℕ) (bus : MemoryBus P) (choose : Text → Chosen) (borrows : Bool)
      (evt : Event P)
      → (publish size bus choose borrows evt).bus.cfg ≡ bus.cfg
  unfolding publish stop fan_out
  publish-cfg size bus choose borrows evt = ground arith

  deliver-is_send :
      (limit : ℕ) (c : Chosen) (evt : Event P) (sub : Subscriber P)
      → (deliver limit c evt sub).sub ≡ (if is_send c then (send limit evt sub.ch).sub else sub)
  unfolding deliver is_send
  deliver-is_send limit context_error evt sub = refl
  deliver-is_send limit by_bus evt sub = refl
  deliver-is_send limit by_context evt sub = refl
  deliver-is_send limit by_subscriber evt sub = refl
  deliver-is_send limit by_send evt sub = refl

  -- One publication leaves the newest of what was there and the event, if it comes to the channel.
  kept-publish :
      (size : Option P → Option ℕ) (bus : MemoryBus P) (c : Publication P) (kind id : Text)
      (ch : List (Event P))
      → kind ≢ []
      → 0 < bus.cfg.buffer_size
      → length ch ≤ bus.cfg.buffer_size
      → get (subscribers_of bus kind) id ≡ some (record { ch = ch })
      → get (subscribers_of (after size bus c) kind) id
        ≡ some (record {
          ch =
              keep_last bus.cfg.buffer_size
                (ch ++ sent_to size bus.cfg.payload_cap kind id (c ∷ []));
        })
  unfolding sent_to comes_to
  kept-publish size bus c kind id ch full room fits e =
      let sub : Subscriber P = record { ch = ch } in
      let limit = bus.cfg.buffer_size in
      get-publish size bus c.choose c.borrows c.event kind id sub full e
      ∙ ground (
        arith,
        deliver-is_send limit (c.choose id) (copy_event c.event) sub,
        send-keep_last limit (copy_event c.event) ch,
        keep_last-short limit (ch ++ []),
        append-nil ch,
      )

  sent_to-cons :
      (size : Option P → Option ℕ) (cap : ℕ) (kind id : Text) (c : Publication P)
      (cs : List (Publication P))
      → sent_to size cap kind id (c ∷ cs)
        ≡ sent_to size cap kind id (c ∷ []) ++ sent_to size cap kind id cs
  unfolding sent_to
  sent_to-cons size cap kind id c cs = ground arith

  -- Nobody reading, a sequence of publications, one at a time, leaves in the channel of a subscription
  -- the newest of the events that come to it that fit in the buffer, in the order in which they were
  -- published, after what was there. Those are copies of the events of its type, without extension
  -- events that the cap refuses, for which the pool lends the clones and the delivery to it takes the
  -- send, whatever the other deliveries meet. The type is not empty, the buffer has room for at least one
  -- event, and what was there fits in it.
  pub publish_all-keep_last :
      (size : Option P → Option ℕ) (bus : MemoryBus P) (cs : List (Publication P)) (kind id : Text)
      (ch : List (Event P))
      → kind ≢ []
      → 0 < bus.cfg.buffer_size
      → length ch ≤ bus.cfg.buffer_size
      → get (subscribers_of bus kind) id ≡ some (record { ch = ch })
      → get (subscribers_of (publish_all size bus cs) kind) id
        ≡ some (record {
          ch = keep_last bus.cfg.buffer_size (ch ++ sent_to size bus.cfg.payload_cap kind id cs);
        })
  unfolding publish_all sent_to
  publish_all-keep_last size bus [] kind id ch full room fits e =
      e
      ∙ ap (λ xs. some (record { ch = xs }))
          (sym (
            ap (keep_last bus.cfg.buffer_size) (append-nil ch)
            ∙ keep_last-short bus.cfg.buffer_size ch fits))
  publish_all-keep_last size bus (c ∷ cs) kind id ch full room fits e =
      let limit = bus.cfg.buffer_size in
      let cap = bus.cfg.payload_cap in
      let bus' = after size bus c in
      let same : bus'.cfg ≡ bus.cfg = publish-cfg size bus c.choose c.borrows c.event in
      let one = sent_to size cap kind id (c ∷ []) in
      let ch' = keep_last limit (ch ++ one) in
      let short = length-keep_last limit (ch ++ one) in
      let rest =
        publish_all-keep_last size bus' cs kind id ch' full (ground (arith, same))
          (ground (arith, same, short)) (kept-publish size bus c kind id ch full room fits e) in
      rest
      ∙ ap
          (λ cfg. some (record {
            ch = keep_last cfg.buffer_size (ch' ++ sent_to size cfg.payload_cap kind id cs);
          }))
          same
      ∙ ap (λ xs. some (record { ch = xs }))
          (keep_last-append limit (ch ++ one) (sent_to size cap kind id cs)
            ∙ ap (keep_last limit) (
                append_assoc ch one (sent_to size cap kind id cs)
                ∙ ap (λ xs. ch ++ xs) (sym (sent_to-cons size cap kind id c cs))))
