-- ===== src/OrderBook/Examples.antt =====
-- Runs of the assembler and the theorems at concrete books.
use Prim.Native.String.{String}
use meltica_gateway.Common.{ℕ, ◌≡◌, refl, true, false, some, List, [], ◌∷◌, map, arith}
use mathlib.Core.List.{Perm}
use meltica_gateway.Common.Text.{codes, trim_space, text_beq, text_eq}
use meltica_gateway.Common.Map.{get, put, delete}
use meltica_gateway.Common.Int.{pos}
use meltica_gateway.Common.Sample.{sample_decimal}
use meltica_gateway.Schema.Book.{BookSnapshotPayload}
use meltica_gateway.OrderBook.Side.{DiffLevel, Level, update_side, apply_update, build_side}
use meltica_gateway.OrderBook.Lookup.{update_side-get}
use meltica_gateway.OrderBook.Ordering.{IsSorted, shown, within, price_level, build_side-IsSorted}
use meltica_gateway.OrderBook.Assembler.{
  OrderBookDiff, OrderBookAssembler, book, new_assembler, apply_diff, apply_diff_locked,
  apply_snapshot, snapshot_seq, build_snapshot,
}
use meltica_gateway.OrderBook.Assembler.Sequence.{
  Advanced, apply_diff-Advanced, apply_snapshot_drops_queue,
}
use meltica_gateway.OrderBook.Positive.{IsPositiveBook, run, snapshots, diffs, run-IsPositiveBook}

abbrev level : String → String → DiffLevel
level p q = record { price = codes p; quantity = codes q }

abbrev diff_at : ℕ → List DiffLevel → List DiffLevel → OrderBookDiff
diff_at n bids asks = record { sequence_id = n; bids = bids; asks = asks; timestamp = 0 }

abbrev ready : OrderBookAssembler sample_decimal
ready = record {
  depth = pos 2;
  initialized = true;
  bids = (codes "100", pos 5) ∷ (codes "101", pos 1) ∷ [];
  asks = (codes "102", pos 3) ∷ [];
  pending = [];
  last_seq = 7;
  last_update = 1;
}

-- One bid goes, another comes.
abbrev good : OrderBookDiff
good = diff_at 9 (level "101" "0" ∷ level "99" "4" ∷ []) []

abbrev after_good : OrderBookAssembler sample_decimal
after_good = record ready {
  bids = (codes "100", pos 5) ∷ (codes "99", pos 4) ∷ [];
  last_seq = 9;
  last_update = 3;
}

applies : (apply_diff ready 3 good).0 ≡ book (build_snapshot after_good 9 9)
unfolding apply_diff apply_diff_locked update_side apply_update trim_space text_beq put delete
    build_snapshot
applies = refl

apply_diff-Advanced_example :
    Advanced ready (apply_diff ready 3 good).1 good (build_snapshot after_good 9 9)
apply_diff-Advanced_example = apply_diff-Advanced ready 3 good _ applies

-- Diffs 8 and 9 wait for the snapshot at 7.
abbrev waiting : OrderBookAssembler sample_decimal
waiting = record {
  depth = pos 0;
  initialized = false;
  bids = [];
  asks = [];
  pending = diff_at 8 (level "100" "2" ∷ []) [] ∷ diff_at 9 (level "99" "4" ∷ []) [] ∷ [];
  last_seq = 0;
  last_update = 0;
}

abbrev snapshot : BookSnapshotPayload
snapshot = record {
  bids = record { price = codes "98"; quantity = codes "1" } ∷ [];
  asks = [];
  checksum = [];
  last_update = 2;
  first_update_id = 0;
  final_update_id = 7;
}

apply_snapshot_drops_queue_example :
    apply_snapshot waiting 3 7 snapshot
    ≡ apply_snapshot (record waiting { pending = [] }) 3 7 snapshot
unfolding snapshot_seq
apply_snapshot_drops_queue_example =
    apply_snapshot_drops_queue waiting 3 7 snapshot (λ e. omega arith)

-- The asks hold a quantity that is no decimal.
abbrev torn : OrderBookDiff
torn = diff_at 9 (level "99" "4" ∷ []) (level "102" "x" ∷ [])

update_side-get_example :
    get (update_side sample_decimal ready.bids good.bids).0 (codes "99") ≡ some (pos 4)
unfolding update_side apply_update trim_space text_beq put delete get
update_side-get_example = update_side-get sample_decimal good.bids ready.bids (codes "99") refl

build_side-IsSorted_example :
    (ls : List (Level sample_decimal)) × Perm ls (shown sample_decimal ready.bids)
    × IsSorted sample_decimal true ls
    × (build_side sample_decimal (pos 2) ready.bids true
        ≡ map (price_level sample_decimal) (within sample_decimal (pos 2) ls))
build_side-IsSorted_example = build_side-IsSorted sample_decimal (pos 2) ready.bids true

run-IsPositiveBook_example :
    IsPositiveBook (
      run {d = sample_decimal} (new_assembler (pos 0)) (snapshots 1 7 snapshot ∷ diffs 2 good ∷ []))
run-IsPositiveBook_example = run-IsPositiveBook (pos 0) (snapshots 1 7 snapshot ∷ diffs 2 good ∷ [])
