-- ===== src/Pool/Examples.antt =====
-- The theorems on the object pool at concrete inputs.
use meltica_gateway.Common.{ℕ, ◌+◌, ◌≤◌, Bool, true, false, ◌≡◌, refl, some, List, [], ◌∷◌}
use meltica_gateway.Common.Int.{pos, pos_part}
use meltica_gateway.Pool.Object.{
  offering, sent, lent, count_up, Worker, ObjectPool, fresh_worker, new_object_pool, worker_at,
  set_worker, available, enqueue, take, give, move, head_of, offer_of, effect, worker_of,
  act_worker, act,
}
use meltica_gateway.Pool.Reach.{Reach, here, more, total, out, uncounted, back, Reach-available}

-- A pool of one object, and the states that it goes through.
abbrev pool : List ℕ → ℕ → List (ℕ × ℕ) → Bool → Worker → ObjectPool
pool requests active handed closed w = record {
  workers = w ∷ [];
  requests = requests;
  queue_size = 2;
  active = active;
  closed = closed;
  handed = handed;
  dropped = [];
  ended = [];
  panicked = false;
}

abbrev checked_out : Worker
checked_out = record { phase = offering 7; leased = true; returned = false; sealed = false }

abbrev just_sent : Worker
just_sent = record { phase = sent; leased = true; returned = false; sealed = false }

abbrev with_borrower : Bool → Worker
with_borrower sealed = record { phase = lent; leased = true; returned = false; sealed = sealed }

abbrev fresh_pool : ObjectPool
fresh_pool = pool [] 0 [] false fresh_worker

abbrev lent_pool : ObjectPool
lent_pool = pool [] 1 ((7, 0) ∷ []) false (with_borrower false)

abbrev sealed_pool : ObjectPool
sealed_pool = pool [] 1 ((7, 0) ∷ []) true (with_borrower true)

fresh_made : new_object_pool (pos 1) (pos 2) ≡ some fresh_pool
unfolding new_object_pool
fresh_made = refl

lent_path : Reach fresh_pool lent_pool
unfolding act act_worker worker_of worker_at set_worker move head_of effect offer_of
lent_path =
    more {q = pool [] 0 ((7, 0) ∷ []) false just_sent} (count_up 0)
      (more {q = pool [] 0 [] false checked_out} (give 0)
        (more {q = pool (7 ∷ []) 0 [] false fresh_worker} (take 0) (more (enqueue 7) here refl)
          refl)
        refl)
      refl

Reach-available_example :
    (lent_pool.active + total uncounted lent_pool.workers
      ≡ total out lent_pool.workers + total back lent_pool.workers)
    × (lent_pool.active ≤ pos_part (pos 1))
    × (total out lent_pool.workers ≤ pos_part (pos 1))
    × (available lent_pool + lent_pool.active ≡ pos_part (pos 1))
Reach-available_example = Reach-available (pos 1) (pos 2) fresh_pool lent_pool fresh_made lent_path

abbrev asked_pool : ObjectPool
asked_pool = pool (8 ∷ []) 1 ((7, 0) ∷ []) true (with_borrower true)

abbrev offering_pool : ObjectPool
offering_pool = pool [] 0 [] false checked_out
