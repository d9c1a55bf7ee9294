-- ===== src/Pool/Object.antt =====
-- object_pool.go: a pool whose workers own one object each and lend it on request. Goroutines
-- interleave by actions, and `none` says that one cannot happen. The send of an object, its receipt, the
-- end of its lease and the two changes of activeLeases are an action each. Four actions are two
-- operations of the code, taken as one: nextRequest with the checkout that follows, the Delete and the
-- close of cancelLease, the read of the table of leases and the send in put, and in close the read of a
-- lease in the table and the close of its channel. Requests are numbers; worker i owns object i for good, since what comes back
-- through a lease is the object that the lease was made for.
use meltica_gateway.Common.{
  ℕ, zero, suc, ◌+◌, ◌-◌, Bool, true, false, not, ◌&&◌, ◌||◌, Option, none, some, List, [], ◌∷◌,
  ◌++◌, length, nat_eq, ltb, if◌then◌else◌,
}
use meltica_gateway.Common.Int.{ℤ, is_positive, pos_part}

-- Where a worker is in its loop: before nextRequest; in deliver with a request, before the send and
-- after it; in waitForReturn, before the receipt, after it, and after the Delete; and returned, from
-- nextRequest or from a lease that was closed under it.
pub data Phase : Type 0 where
  idle : Phase
  offering : ℕ → Phase
  sent lent received dropped stopped lost : Phase

-- A worker with the lease of its object: whether the table of leases has it, whether the object is back
-- in its channel, and whether that channel is closed.
pub record Worker : Type 0 where
  pub phase : Phase
  pub leased : Bool
  pub returned : Bool
  pub sealed : Bool

-- objectPool: its workers, its queue of requests, activeLeases, and whether `stop` is closed. `handed`
-- has the requests that were sent an object, latest first, `dropped` those that were failed, and
-- `ended` those whose contexts are over. `panicked`: a goroutine panicked.
pub record ObjectPool : Type 0 where
  pub workers : List Worker
  pub requests : List ℕ
  pub queue_size : ℕ
  pub active : ℕ
  pub closed : Bool
  pub handed : List (ℕ × ℕ)
  pub dropped : List ℕ
  pub ended : List ℕ
  pub panicked : Bool

abbrev pub fresh_worker : Worker
fresh_worker = record { phase = idle; leased = false; returned = false; sealed = false }

abbrev pub repeat : ℕ → Worker → List Worker
repeat zero w = []
repeat (suc n) w = w ∷ repeat n w

-- newObjectPool; `none` is an error. The factory is given.
unfoldable pub new_object_pool : ℤ → ℤ → Option ObjectPool
new_object_pool capacity queue_size =
    let cap = pos_part capacity in
    if not (is_positive capacity)
    then none
    else some (record {
      workers = repeat cap fresh_worker;
      requests = [];
      queue_size = if is_positive queue_size then pos_part queue_size else cap;
      active = 0;
      closed = false;
      handed = [];
      dropped = [];
      ended = [];
      panicked = false;
    })

unfoldable pub worker_at : List Worker → ℕ → Option Worker
worker_at [] i = none
worker_at (w ∷ ws) zero = some w
worker_at (w ∷ ws) (suc i) = worker_at ws i

unfoldable pub set_worker : List Worker → ℕ → Worker → List Worker
set_worker [] i w = []
set_worker (v ∷ ws) zero w = w ∷ ws
set_worker (v ∷ ws) (suc i) w = v ∷ set_worker ws i w

unfoldable pub member : ℕ → List ℕ → Bool
member r [] = false
member r (x ∷ xs) = nat_eq r x || member r xs

abbrev pub with_worker : ObjectPool → ℕ → Worker → ObjectPool
with_worker p i w = record p { workers = set_worker p.workers i w }

-- What put tells its caller.
pub data PutResult : Type 0 where
  put_ok double_put unexpected_state put_panic : PutResult

-- put, and tryPut, which differ in what they wrap the answer in: the table is read, and the object is
-- sent to the lease's channel, which has room for one; to send on a closed channel panics.
unfoldable pub put_worker : Worker → PutResult × Worker
put_worker w =
    if not w.leased
    then (double_put, w)
    else if w.sealed
    then (put_panic, w)
    else if w.returned
    then (unexpected_state, record w { leased = false })
    else (put_ok, record w { returned = true })

-- getAvailable
unfoldable pub available : ObjectPool → ℕ
available p = length p.workers - p.active

pub data Action : Type 0 where
  -- enqueueRequest: a request gets into the queue, or the oldest one is failed to make room.
  enqueue : ℕ → Action
  drop : Action
  -- A request's context ends.
  end : ℕ → Action
  -- A worker: nextRequest and checkout, or its end.
  take quit : ℕ → Action
  -- deliver: its send, and Add(1); or its end without a send, and cancelLease.
  give count_up withdraw : ℕ → Action
  -- waitForReturn: the receipt, Delete and Add(-1); or a closed channel, and Delete.
  collect drop_lease count_down lose : ℕ → Action
  -- A caller of put.
  give_back : ℕ → Action
  -- close: the flag and `stop`, and then the channel of each lease in the table.
  shut : Action
  seal : ℕ → Action

-- A worker's move. The flags say that `stop` is closed, and that the context of a request is over.
unfoldable pub move : Action → Bool → (ℕ → Bool) → Option ℕ → Worker → Option Worker
move (take i) closed over (some r) w = elim w.phase [
  | idle ↦ some (record { phase = offering r; leased = true; returned = false; sealed = false })
  | _ ↦ none
]
move (quit i) closed over next w = elim w.phase [
  | idle ↦ if closed then some (record w { phase = stopped }) else none
  | _ ↦ none
]
move (give i) closed over next w = elim w.phase [
  | offering r ↦ some (record w { phase = sent })
  | _ ↦ none
]
move (count_up i) closed over next w = elim w.phase [
  | sent ↦ some (record w { phase = lent })
  | _ ↦ none
]
move (withdraw i) closed over next w = elim w.phase [
  | offering r ↦ if closed || over r then some (record w { phase = idle; leased = false }) else none
  | _ ↦ none
]
move (collect i) closed over next w = elim w.phase [
  | lent ↦ if w.returned then some (record w { phase = received; returned = false }) else none
  | _ ↦ none
]
move (drop_lease i) closed over next w = elim w.phase [
  | received ↦ some (record w { phase = dropped; leased = false })
  | _ ↦ none
]
move (count_down i) closed over next w = elim w.phase [
  | dropped ↦ some (record w { phase = idle })
  | _ ↦ none
]
move (lose i) closed over next w = elim w.phase [
  | lent ↦
      if w.sealed && not w.returned then some (record w { phase = lost; leased = false }) else none
  | _ ↦ none
]
move (seal i) closed over next w =
    if closed && w.leased && not w.sealed then some (record w { sealed = true }) else none
move a closed over next w = none

unfoldable pub head_of : List ℕ → Option ℕ
head_of [] = none
head_of (r ∷ rs) = some r

abbrev pub tail_of : List ℕ → List ℕ
tail_of [] = []
tail_of (r ∷ rs) = rs

-- The request of an offer, which is sent the object.
unfoldable pub offer_of : ℕ → Worker → List (ℕ × ℕ) → List (ℕ × ℕ)
offer_of i w handed = elim w.phase [ offering r ↦ (r, i) ∷ handed | _ ↦ handed ]

-- What a worker's move does to the rest of the pool, `w` being the worker before it: cancelLease closes
-- the channel of the lease, and panics if close did so before it.
unfoldable pub effect : Action → Worker → ObjectPool → ObjectPool
effect (take i) w p = record p { requests = tail_of p.requests }
effect (give i) w p = record p { handed = offer_of i w p.handed }
effect (count_up i) w p = record p { active = p.active + 1 }
effect (withdraw i) w p = record p { panicked = p.panicked || w.sealed }
effect (count_down i) w p = record p { active = p.active - 1 }
effect a w p = p

-- The worker of an action.
unfoldable pub worker_of : Action → ℕ
worker_of (take i) = i
worker_of (quit i) = i
worker_of (give i) = i
worker_of (withdraw i) = i
worker_of (collect i) = i
worker_of (count_up i) = i
worker_of (drop_lease i) = i
worker_of (count_down i) = i
worker_of (lose i) = i
worker_of (give_back i) = i
worker_of (seal i) = i
worker_of a = 0

-- A worker's action in the pool.
unfoldable pub act_worker : ObjectPool → Action → Option ObjectPool
act_worker p a = elim (worker_at p.workers (worker_of a)) [
  | none ↦ none
  | some w ↦ elim (move a p.closed (λ r. member r p.ended) (head_of p.requests) w) [
    | none ↦ none
    | some w' ↦ some (effect a w (with_worker p (worker_of a) w'))
  ]
]

-- put in the pool: its answer with the pool after it. No worker, no lease.
unfoldable pub put : ObjectPool → ℕ → PutResult × ObjectPool
put p i = elim (worker_at p.workers i) [
  | none ↦ (double_put, p)
  | some w ↦ let (r, w') = put_worker w in (r, with_worker p i w')
]

-- A panic in put is one of the program.
unfoldable pub is_panic : PutResult → Bool
is_panic put_panic = true
is_panic r = false

unfoldable pub act : ObjectPool → Action → Option ObjectPool
act p (enqueue r) =
    if ltb (length p.requests) p.queue_size
    then some (record p { requests = p.requests ++ r ∷ [] })
    else none
act p drop = elim p.requests [
  | [] ↦ none
  | r ∷ rs ↦ some (record p { requests = rs; dropped = r ∷ p.dropped })
]
act p (end r) = some (record p { ended = r ∷ p.ended })
act p shut = if p.closed then none else some (record p { closed = true })
act p (give_back i) =
    let (r, p') = put p i in some (record p' { panicked = p'.panicked || is_panic r })
act p a = act_worker p a
