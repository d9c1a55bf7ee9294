-- ===== src/Pool/Close.antt =====
-- What close does to objects that are out, and to a worker that is offering one.
use meltica_gateway.Common.{ℕ, true, false, ◌≡◌, ◌⊎◌, some, List}
use meltica_gateway.Pool.Object.{lent, lost, Worker, worker_at}
use meltica_gateway.Pool.Reach.{Reach}

-- A worker whose borrower can give nothing back: it waits on a channel that is closed and empty, or has
-- ended there.
IsCut : Worker → Type 0
IsCut w =
    ((w.phase ≡ lent) × (w.sealed ≡ true) × (w.returned ≡ false))
    ⊎ ((w.phase ≡ lost) × (w.leased ≡ false))

-- Worker i is cut.
CutAt : List Worker → ℕ → Type 0
CutAt ws i = (w : Worker) × (worker_at ws i ≡ some w) × IsCut w
