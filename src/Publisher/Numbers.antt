-- ===== src/Publisher/Numbers.antt =====
-- How the numbers of a publisher's events grow, and what the events' ids leave out.
use meltica_gateway.Common.{
  ℕ, ◌+◌, ◌%◌, ◌^◌, ◌≤◌, ◌<◌, Bool, true, false, ◌≡◌, ◌≢◌, refl, ◌&&◌, sym, ap, subst, ◌∙◌, none,
  some, List, [], ◌∷◌, ◌++◌, length, or_else, if◌then◌else◌, if-both, arith, ◌==◌, ==_iff,
}
use meltica_gateway.Common.Text.{Text, text_beq_iff, text_eq, codes}
use meltica_gateway.Common.Map.{get, put, get-put}
use meltica_gateway.Schema.Order.{Time}
use meltica_gateway.Schema.Route.{Event}
use meltica_gateway.Schema.Payload.{Payload, event_type}
use meltica_gateway.Dispatcher.Runtime.{
  Runtime, new_runtime, mark_seen, is_recent, stamp_event, with_provider, process, run,
}
use meltica_gateway.Publisher.Emit.{
  Publisher, PublishCall, new_publisher, seq_key, next_seq, event_id_text, without_dashes,
  new_event, publish, publish_all, sent, uint64_text,
}

-- The last number of a key.
abbrev pub last_number : Publisher → Text → ℕ
last_number p key = or_else (get p.seq key) 0

-- Each number is above the one before it, and the first above `n`.
pub IsAscending : ℕ → List ℕ → Type 0
IsAscending n [] = Unit
IsAscending n (m ∷ ms) = (n < m) × IsAscending m ms

IsAscending-weaken : (n m : ℕ) (ms : List ℕ) → m ≤ n → IsAscending n ms → IsAscending m ms
unfolding IsAscending
IsAscending-weaken n m [] le p = tt
IsAscending-weaken n m (k ∷ ms) le p = (omega arith, p.1)

last_number-next_seq :
    (p : Publisher) (kind symbol key : Text)
    → last_number ((next_seq p kind symbol).1) key
      ≡ (if seq_key kind symbol == key then (next_seq p kind symbol).0 else last_number p key)
unfolding next_seq
last_number-next_seq p kind symbol key =
    let n = (last_number p (seq_key kind symbol) + 1) % 2 ^ 64 in
    ground (arith, get-put p.seq (seq_key kind symbol) key n)

-- A counter that does not wrap goes up by one.
next_seq-suc :
    (p : Publisher) (kind symbol key : Text)
    → last_number p key + 1 < 2 ^ 64
    → seq_key kind symbol ≡ key
    → (next_seq p kind symbol).0 ≡ last_number p key + 1
unfolding next_seq
next_seq-suc p kind symbol key fits e =
    subst (λ k. (last_number p k + 1) % 2 ^ 64 ≡ last_number p key + 1) (sym e) (omega arith)

and-right : (a b : Bool) → (a && b) ≡ true → b ≡ true
and-right a b e = ground arith

module _ {F A : Type 0} where
  -- The numbers of the events under a key, in order.
  unfoldable pub numbers : Text → List (Event (Payload F A)) → List ℕ
  numbers key [] = []
  numbers key (e ∷ es) =
      let rest = numbers key es in
      if seq_key e.kind e.symbol == key then e.seq_provider ∷ rest else rest

  numbers-sent :
      (key : Text) (lends sends : Bool) (e : Event (Payload F A)) (es : List (Event (Payload F A)))
      → numbers key (sent (if lends then if sends then some e else none else none) es) ≡ (
          if (lends && sends) && (seq_key e.kind e.symbol == key)
          then e.seq_provider ∷ numbers key es
          else numbers key es)
  unfolding numbers
  numbers-sent key true true e es = refl
  numbers-sent key true false e es = refl
  numbers-sent key false sends e es = refl

  new_event-key :
      (p : Publisher) (now : Time) (symbol : Text) (n : ℕ) (payload : Payload F A)
      → let e = new_event p now symbol n payload in
        (seq_key e.kind e.symbol ≡ seq_key (event_type payload) symbol) × (e.seq_provider ≡ n)
  unfolding new_event
  new_event-key p now symbol n payload = (refl, refl)

  -- While the counter of a key does not wrap, the events that are sent under it by calls that do not
  -- overlap, each of which sends its event before the next one takes its number, have ascending numbers,
  -- all above the counter at the start, whatever the pool and the contexts refuse between them.
  pub publish_all-IsAscending :
      (p : Publisher) (cs : List (PublishCall F A)) (key : Text)
      → last_number p key + length cs < 2 ^ 64
      → IsAscending (last_number p key) (numbers key ((publish_all p cs).0))
  unfolding publish_all publish IsAscending numbers
  publish_all-IsAscending p [] key fits = tt
  publish_all-IsAscending p (c ∷ cs) key fits =
      let kind = event_type c.payload in
      let (n, p') = next_seq p kind c.symbol in
      let evt = new_event p' c.now c.symbol n c.payload in
      let more = (publish_all p' cs).0 in
      let last = last_number-next_seq p kind c.symbol key in
      let count = next_seq-suc p kind c.symbol key (omega arith) in
      let here = new_event-key p' c.now c.symbol n c.payload in
      let fits' : last_number p' key + length cs < 2 ^ 64 =
        ground (arith, last, count, ==_iff (seq_key kind c.symbol) key) in
      let rest = publish_all-IsAscending p' cs key fits' in
      subst (IsAscending (last_number p key)) (sym (numbers-sent key c.lends c.sends evt more)) (
        if-both (IsAscending (last_number p key))
          ((c.lends && c.sends) && (seq_key kind c.symbol == key))
          (λ taken.
            let hit : (seq_key kind c.symbol == key) ≡ true =
              and-right (c.lends && c.sends) _ taken in
            let up : n ≡ last_number p key + 1 =
              count ((==_iff (seq_key kind c.symbol) key).0 hit) in
            let at : last_number p' key ≡ n = ground (arith, last, hit) in
            (omega arith, subst (λ k. IsAscending k (numbers key more)) at rest))
          (λ _.
            IsAscending-weaken (last_number p' key) (last_number p key) (numbers key more)
              (ground (arith, last, count, ==_iff (seq_key kind c.symbol) key)) rest))

abbrev seen_once : ℕ → Text → ℕ → Runtime
seen_once version id t = record (new_runtime version) { dedupe = (id, t) ∷ [] }

mark_seen-first :
    (version t : ℕ) (id : Text)
    → id ≢ []
    → mark_seen (new_runtime version) t id ≡ (true, seen_once version id t)
unfolding mark_seen is_recent new_runtime get put
mark_seen-first version t id full = ground (arith, text_beq_iff id [])

mark_seen-again :
    (version t1 t2 : ℕ) (id : Text)
    → id ≢ []
    → t2 < t1 + (new_runtime version).dedupe_window
    → mark_seen (seen_once version id t1) t2 id ≡ (false, seen_once version id t1)
unfolding mark_seen is_recent new_runtime get
mark_seen-again version t1 t2 id full lt = ground (arith, text_beq_iff id [], text_beq_iff id id)

-- Two events with one id that is not blank, the second within the window of the first: only the first
-- is published.
second_dropped :
    {P : Type 0} (version t1 t2 : ℕ) (e1 e2 : Event P)
    → e1.event_id ≢ []
    → e2.event_id ≡ e1.event_id
    → t2 < t1 + (new_runtime version).dedupe_window
    → run (new_runtime version) ((t1, some e1) ∷ (t2, some e2) ∷ [])
      ≡ with_provider (stamp_event (new_runtime version) t1 e1) ∷ []
unfolding run process
second_dropped version t1 t2 e1 e2 full same lt = rw (
  same,
  mark_seen-first version t1 e1.event_id full,
  mark_seen-again version t1 t2 e1.event_id full lt,
)

append-cancel : (xs ys zs : Text) → xs ++ ys ≡ xs ++ zs → ys ≡ zs
append-cancel [] ys zs e = e
append-cancel (x ∷ xs) ys zs e = let e' : xs ++ ys ≡ xs ++ zs = cc e in append-cancel xs ys zs e'

append-full : (s t : Text) (c : ℕ) → s ++ c ∷ t ≢ []
append-full [] t c e = cc e
append-full (x ∷ s) t c e = cc e

event_id_text-full : (name symbol kind : Text) (n : ℕ) → event_id_text name symbol kind n ≢ []
unfolding event_id_text
event_id_text-full name symbol kind n =
    append-full name (without_dashes symbol ++ b':' ∷ (kind ++ b':' ∷ uint64_text n)) b':'

event_id_text-dashes :
    (name s1 s2 kind : Text) (n : ℕ)
    → without_dashes s1 ≡ without_dashes s2
    → event_id_text name s1 kind n ≡ event_id_text name s2 kind n
unfolding event_id_text
event_id_text-dashes name s1 s2 kind n e =
    ap (λ s. name ++ b':' ∷ (s ++ b':' ∷ (kind ++ b':' ∷ uint64_text n))) e

-- The counters of two symbols are apart.
next_seq-apart :
    (name kind s1 s2 : Text)
    → s1 ≢ s2
    → let (n, p) = next_seq (new_publisher name) kind s1 in (next_seq p kind s2).0 ≡ n
unfolding next_seq new_publisher get put seq_key
next_seq-apart name kind s1 s2 differ =
    let apart : seq_key kind s1 ≢ seq_key kind s2 =
      λ e. differ (append-cancel (kind ++ codes "|") s1 s2 e) in
    ground (arith, ==_iff (seq_key kind s1) (seq_key kind s2), apart)

module _ {F A : Type 0} where
  publish-id :
      (p : Publisher) (c : PublishCall F A) (e : Event (Payload F A))
      → (publish p c).0 ≡ some e
      → e.event_id
        ≡ event_id_text p.provider_name c.symbol
            (event_type c.payload)
            ((next_seq p (event_type c.payload) c.symbol).0)
  unfolding publish new_event next_seq
  publish-id p c e got = ground (arith, got)

  publish-next :
      (name : Text) (c : PublishCall F A)
      → let p = new_publisher name in
        ((publish p c).1 ≡ (next_seq p (event_type c.payload) c.symbol).1)
        × (((publish p c).1).provider_name ≡ name)
  unfolding publish next_seq new_publisher
  publish-next name c = (refl, refl)

  -- Two symbols that differ only in their dashes share their events' ids: where a new publisher sends
  -- its first event of one type for each, and both come to a runtime within its window, the runtime
  -- drops the second, though it is another event.
  pub publish-collides :
      (name : Text) (version t1 t2 : ℕ) (first second : PublishCall F A)
      (e1 e2 : Event (Payload F A))
      → first.symbol ≢ second.symbol
      → without_dashes first.symbol ≡ without_dashes second.symbol
      → event_type first.payload ≡ event_type second.payload
      → (publish (new_publisher name) first).0 ≡ some e1
      → (publish ((publish (new_publisher name) first).1) second).0 ≡ some e2
      → t2 < t1 + (new_runtime version).dedupe_window
      → run (new_runtime version) ((t1, some e1) ∷ (t2, some e2) ∷ [])
        ≡ with_provider (stamp_event (new_runtime version) t1 e1) ∷ []
  unfolding event_id_text publish next_seq
  publish-collides name version t1 t2 first second e1 e2 differ stripped kinds one two lt =
      let kind = event_type first.payload in
      let p = new_publisher name in
      let p1 = (publish p first).1 in
      let id1 = publish-id p first e1 one in
      let id2 = publish-id p1 second e2 two in
      let (next, named) = publish-next name first in
      let count : (next_seq p1 (event_type second.payload) second.symbol).0
          ≡ (next_seq p kind first.symbol).0 =
        ap (λ k. (next_seq p1 k second.symbol).0) (sym kinds)
        ∙ ap (λ q. (next_seq q kind second.symbol).0) next
        ∙ next_seq-apart name kind first.symbol second.symbol differ in
      let n = (next_seq p kind first.symbol).0 in
      let full : e1.event_id ≢ [] =
        λ blank. event_id_text-full p.provider_name first.symbol kind n (sym id1 ∙ blank) in
      let same : e2.event_id ≡ e1.event_id =
        id2
        ∙ cc (
          count,
          kinds,
          named,
          event_id_text-dashes name first.symbol second.symbol kind n stripped,
          id1,
        ) in
      second_dropped version t1 t2 e1 e2 full same lt
