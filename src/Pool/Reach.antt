-- ===== src/Pool/Reach.antt =====
-- What holds of a pool whatever its goroutines and callers do.
use meltica_gateway.Common.{
  ℕ, zero, suc, ◌+◌, ◌≤◌, Bool, ◌||◌, ◌≡◌, refl, sym, ap, subst, ◌∙◌, Option, some, List, [], ◌∷◌,
  length, bind-some, option-both, arith,
}
use meltica_gateway.Common.Int.{ℤ, pos_part}
use meltica_gateway.Pool.Object.{
  sent, lent, received, dropped, lost, Worker, ObjectPool, fresh_worker, repeat, new_object_pool,
  worker_at, set_worker, member, with_worker, PutResult, put_worker, available, Action, enqueue,
  drop, end, take, quit, give, withdraw, collect, lose, count_up, drop_lease, count_down, give_back,
  shut, seal, move, head_of, effect, worker_of, act_worker, put, is_panic, act,
}

-- The pools that some sequence of actions leads to.
pub data Reach (p : ObjectPool) : ObjectPool → Type 0 where
  here : Reach p p
  more : {q r : ObjectPool} (a : Action) → Reach p q → act q a ≡ some r → Reach p r

-- Whether a worker's object is out: it was sent to a borrower and has not come back to the worker.
unfoldable pub out : Worker → ℕ
out w = elim w.phase [ sent ↦ 1 | lent ↦ 1 | lost ↦ 1 | _ ↦ 0 ]

-- Whether it was sent, and is not yet counted.
unfoldable pub uncounted : Worker → ℕ
uncounted w = elim w.phase [ sent ↦ 1 | _ ↦ 0 ]

-- Whether it has come back, and is still counted.
unfoldable pub back : Worker → ℕ
back w = elim w.phase [ received ↦ 1 | dropped ↦ 1 | _ ↦ 0 ]

-- Whether it is counted.
counted : Worker → ℕ
counted w = elim w.phase [ lent ↦ 1 | received ↦ 1 | dropped ↦ 1 | lost ↦ 1 | _ ↦ 0 ]

-- How many workers that is the case for.
unfoldable pub total : (Worker → ℕ) → List Worker → ℕ
total f [] = 0
total f (w ∷ ws) = f w + total f ws

total-le : (f : Worker → ℕ) → ((w : Worker) → f w ≤ 1) → (ws : List Worker) → total f ws ≤ length ws
unfolding total
total-le f small [] = omega arith
total-le f small (w ∷ ws) = omega (arith, total-le f small ws, small w)

out-le : (w : Worker) → out w ≤ 1
unfolding out
out-le w = ground arith

counted-le : (w : Worker) → counted w ≤ 1
unfolding counted
counted-le w = ground arith

counted-out : (w : Worker) → counted w + uncounted w ≡ out w + back w
unfolding counted uncounted out back
counted-out w = ground arith

total-out :
    (ws : List Worker) → total counted ws + total uncounted ws ≡ total out ws + total back ws
unfolding total
total-out [] = omega arith
total-out (w ∷ ws) = omega (arith, counted-out w, total-out ws)

total-set :
    (f : Worker → ℕ) (ws : List Worker) (i : ℕ) (w v : Worker)
    → worker_at ws i ≡ some w
    → total f (set_worker ws i v) + f w ≡ total f ws + f v
unfolding total worker_at set_worker
total-set f [] i w v e = cc
total-set f (u ∷ ws) zero w v e = ground arith
total-set f (u ∷ ws) (suc i) w v e = ground (arith, total-set f ws i w v e)

counted-fresh : counted fresh_worker ≡ 0
unfolding counted
counted-fresh = refl

length-set_worker : (ws : List Worker) (i : ℕ) (v : Worker) → length (set_worker ws i v) ≡ length ws
unfolding set_worker
length-set_worker [] i v = refl
length-set_worker (u ∷ ws) zero v = refl
length-set_worker (u ∷ ws) (suc i) v = ap suc (length-set_worker ws i v)

-- activeLeases is the number of workers whose object is counted, and the pool has its workers.
record IsCounted (size : ℕ) (p : ObjectPool) : Type 0 where
  active_counted : p.active ≡ total counted p.workers
  all_there : length p.workers ≡ size

move-counted :
    (a : Action) (closed : Bool) (over : ℕ → Bool) (next : Option ℕ) (w w' : Worker)
    (p : ObjectPool)
    → move a closed over next w ≡ some w'
    → counted w ≤ p.active
    → (effect a w p).active + counted w ≡ p.active + counted w'
unfolding move effect counted
move-counted a closed over next w w' p e le = ground arith

-- What a worker's action is: a move of one worker, and its effect.
pub record Moved (p : ObjectPool) (a : Action) (q : ObjectPool) : Type 0 where
  pub before : Worker
  pub after : Worker
  pub there : worker_at p.workers (worker_of a) ≡ some before
  pub moves : move a p.closed (λ r. member r p.ended) (head_of p.requests) before ≡ some after
  pub then_is : q ≡ effect a before (with_worker p (worker_of a) after)

pub act_worker-Moved : (p q : ObjectPool) (a : Action) → act_worker p a ≡ some q → Moved p a q
unfolding act_worker
act_worker-Moved p q a e =
    let over : ℕ → Bool = λ r. member r p.ended in
    let (w, found, e1) = bind-some (worker_at p.workers (worker_of a)) _ q e in
    let (w', goes, e2) = bind-some (move a p.closed over (head_of p.requests) w) _ q e1 in
    record { before = w; after = w'; there = found; moves = goes; then_is = cc e2 }

pub workers-effect : (a : Action) (w : Worker) (p : ObjectPool) → (effect a w p).workers ≡ p.workers
unfolding effect
workers-effect a w p = ground arith

act_worker-IsCounted :
    (size : ℕ) (p q : ObjectPool) (a : Action) → Moved p a q → IsCounted size p → IsCounted size q
act_worker-IsCounted size p q a m inv =
    let i = worker_of a in
    let p' = with_worker p i m.after in
    let same = workers-effect a m.before p' in
    let swap = total-set counted p.workers i m.before m.after m.there in
    let small = total-set counted p.workers i m.before fresh_worker m.there in
    let kept = length-set_worker p.workers i m.after in
    let count =
      move-counted a p.closed (λ r. member r p.ended) (head_of p.requests) m.before m.after p'
        m.moves (omega (arith, small, counted-fresh, inv.active_counted)) in
    let base : IsCounted size (effect a m.before p') = record {
      active_counted = omega (arith, swap, count, ap (total counted) same, inv.active_counted);
      all_there = ap length same ∙ kept ∙ inv.all_there;
    } in
    subst (IsCounted size) (sym m.then_is) base

put_worker-counted : (w : Worker) → counted ((put_worker w).1) ≡ counted w
unfolding put_worker counted
put_worker-counted w = ground arith

put-IsCounted :
    (size : ℕ) (p : ObjectPool) (i : ℕ) → IsCounted size p → IsCounted size ((put p i).1)
unfolding put
put-IsCounted size p i inv =
    option-both (λ (r : PutResult × ObjectPool). IsCounted size (r.1)) (worker_at p.workers i)
      (λ _. inv)
      (λ w found. record {
        active_counted = omega (
          arith,
          total-set counted p.workers i w ((put_worker w).1) found,
          put_worker-counted w,
          inv.active_counted,
        );
        all_there = length-set_worker p.workers i ((put_worker w).1) ∙ inv.all_there;
      })

act-IsCounted :
    (size : ℕ) (p q : ObjectPool) (a : Action)
    → act p a ≡ some q
    → IsCounted size p
    → IsCounted size q
unfolding act
act-IsCounted size p q (enqueue r) e inv = ground (arith, inv.active_counted, inv.all_there)
act-IsCounted size p q drop e inv = ground (arith, inv.active_counted, inv.all_there)
act-IsCounted size p q (end r) e inv = ground (arith, inv.active_counted, inv.all_there)
act-IsCounted size p q shut e inv = ground (arith, inv.active_counted, inv.all_there)
act-IsCounted size p q (give_back i) e inv =
    let kept = put-IsCounted size p i inv in
    let (r, p') = put p i in
    let same : record p' { panicked = p'.panicked || is_panic r } ≡ q = cc e in
    subst (IsCounted size) same
      (record { active_counted = kept.active_counted; all_there = kept.all_there })
act-IsCounted size p q (take i) e inv =
    act_worker-IsCounted size p q (take i) (act_worker-Moved p q (take i) e) inv
act-IsCounted size p q (quit i) e inv =
    act_worker-IsCounted size p q (quit i) (act_worker-Moved p q (quit i) e) inv
act-IsCounted size p q (give i) e inv =
    act_worker-IsCounted size p q (give i) (act_worker-Moved p q (give i) e) inv
act-IsCounted size p q (withdraw i) e inv =
    act_worker-IsCounted size p q (withdraw i) (act_worker-Moved p q (withdraw i) e) inv
act-IsCounted size p q (collect i) e inv =
    act_worker-IsCounted size p q (collect i) (act_worker-Moved p q (collect i) e) inv
act-IsCounted size p q (lose i) e inv =
    act_worker-IsCounted size p q (lose i) (act_worker-Moved p q (lose i) e) inv
act-IsCounted size p q (count_up i) e inv =
    act_worker-IsCounted size p q (count_up i) (act_worker-Moved p q (count_up i) e) inv
act-IsCounted size p q (drop_lease i) e inv =
    act_worker-IsCounted size p q (drop_lease i) (act_worker-Moved p q (drop_lease i) e) inv
act-IsCounted size p q (count_down i) e inv =
    act_worker-IsCounted size p q (count_down i) (act_worker-Moved p q (count_down i) e) inv
act-IsCounted size p q (seal i) e inv =
    act_worker-IsCounted size p q (seal i) (act_worker-Moved p q (seal i) e) inv

Reach-IsCounted : (size : ℕ) (p q : ObjectPool) → IsCounted size p → Reach p q → IsCounted size q
Reach-IsCounted size p q inv here = inv
Reach-IsCounted size p q inv (more a path e) =
    act-IsCounted size _ q a e (Reach-IsCounted size p _ inv path)

repeat-IsCounted :
    (n : ℕ) → (length (repeat n fresh_worker) ≡ n) × (total counted (repeat n fresh_worker) ≡ 0)
unfolding total counted
repeat-IsCounted zero = (refl, refl)
repeat-IsCounted (suc n) = let (l, c) = repeat-IsCounted n in (ap suc l, omega (arith, c))

-- Whatever the workers, the borrowers and a concurrent close do: activeLeases, with the objects that
-- were sent and are not yet counted, is the number of objects that are out, with those that came back
-- and are still counted. It is at most the capacity, so at most the capacity is out at a time, and what
-- getAvailable reports makes up the rest.
pub Reach-available :
    (capacity queue : ℤ) (p q : ObjectPool)
    → new_object_pool capacity queue ≡ some p
    → Reach p q
    → (q.active + total uncounted q.workers ≡ total out q.workers + total back q.workers)
      × (q.active ≤ pos_part capacity)
      × (total out q.workers ≤ pos_part capacity)
      × (available q + q.active ≡ pos_part capacity)
unfolding new_object_pool available
Reach-available capacity queue p q made path =
    let n = pos_part capacity in
    let (len, none_counted) = repeat-IsCounted n in
    let start : IsCounted n p = record {
      active_counted = ground (arith, made, none_counted);
      all_there = ground (arith, made, len);
    } in
    let inv = Reach-IsCounted n p q start path in
    let most = total-le counted counted-le q.workers in
    let most_out = total-le out out-le q.workers in
    (
      omega (arith, total-out q.workers, inv.active_counted),
      omega (arith, most, inv.active_counted, inv.all_there),
      omega (arith, most_out, inv.all_there),
      omega (arith, most, inv.active_counted, inv.all_there),
    )
