-- ===== src/OrderBook/Assembler.antt =====
-- The assembler's state and operations (OrderBookAssembler). `now` is the clock that a call reads.
pub mod Sequence
use meltica_gateway.Common.{
  ℕ, Bool, true, false, ◌&&◌, ◌||◌, not, Option, none, some, List, [], ◌∷◌, ◌++◌, leb, nat_eq,
  is_nil, if◌then◌else◌,
}
use meltica_gateway.Common.Text.{Text, codes}
use meltica_gateway.Common.Int.{ℤ}
use meltica_gateway.Common.Decimal.{Decimal}
use meltica_gateway.Schema.Order.{Time}
use meltica_gateway.Schema.Book.{PriceLevel, BookSnapshotPayload}
use meltica_gateway.OrderBook.Side.{DiffLevel, Side, Written, replace_side, update_side, build_side}

-- OrderBookDiff
pub record OrderBookDiff : Type 0 where
  pub sequence_id : ℕ
  pub bids : List DiffLevel
  pub asks : List DiffLevel
  pub timestamp : Time

pub record OrderBookAssembler (d : Decimal) : Type 0 where
  pub depth : ℤ
  pub initialized : Bool
  pub bids : Side d
  pub asks : Side d
  pub pending : List OrderBookDiff
  pub last_seq : ℕ
  pub last_update : Time

-- The errors of the operations.
pub data BookError : Type 0 where
  snapshot_id_required bad_snapshot_quantity bad_diff_quantity : BookError

-- What a call returns: a book, nothing yet, or an error.
pub data Reply : Type 0 where
  book : BookSnapshotPayload → Reply
  not_applied : Reply
  failed : BookError → Reply

-- The time of a message, or the clock's if it has none.
abbrev pub stamp : Time → Time → Time
stamp t now = if nat_eq t 0 then now else t

-- sort.SliceStable of the queued diffs by sequence id.
unfoldable pub insert_diff : OrderBookDiff → List OrderBookDiff → List OrderBookDiff
insert_diff x [] = x ∷ []
insert_diff x (y ∷ ys) =
    let rest = insert_diff x ys in if leb x.sequence_id y.sequence_id then x ∷ y ∷ ys else y ∷ rest

unfoldable pub sort_diffs : List OrderBookDiff → List OrderBookDiff
unfolding insert_diff
sort_diffs [] = []
sort_diffs (x ∷ xs) = insert_diff x (sort_diffs xs)

-- The sequence id of a snapshot: the caller's, or else the payload's final or first id.
unfoldable pub snapshot_seq : ℕ → BookSnapshotPayload → ℕ
snapshot_seq seq snapshot =
    if not (nat_eq seq 0)
    then seq
    else if not (nat_eq snapshot.final_update_id 0)
    then snapshot.final_update_id
    else snapshot.first_update_id

module _ {d : Decimal} where
  -- NewOrderBookAssembler
  unfoldable pub new_assembler : ℤ → OrderBookAssembler d
  new_assembler depth = record {
    depth = depth;
    initialized = false;
    bids = [];
    asks = [];
    pending = [];
    last_seq = 0;
    last_update = 0;
  }

  -- resetLocked
  unfoldable pub reset : OrderBookAssembler d → OrderBookAssembler d
  reset a = record a { bids = []; asks = []; pending = []; initialized = false }

  -- buildSnapshotLocked
  unfoldable pub build_snapshot : OrderBookAssembler d → ℕ → ℕ → BookSnapshotPayload
  build_snapshot a first final = record {
    bids = build_side d a.depth a.bids true;
    asks = build_side d a.depth a.asks false;
    checksum = codes "";
    last_update = a.last_update;
    first_update_id = first;
    final_update_id = final;
  }

  -- The end of applyDiffLocked, once both sides are updated.
  unfoldable pub commit_diff :
      OrderBookAssembler d → Time → OrderBookDiff → Reply × OrderBookAssembler d
  commit_diff a now diff =
      let a' = record a { last_seq = diff.sequence_id; last_update = stamp diff.timestamp now } in
      (book (build_snapshot a' diff.sequence_id diff.sequence_id), a')

  -- applyDiffLocked. A side that fails keeps the updates before the one that failed.
  unfoldable pub apply_diff_locked :
      OrderBookAssembler d → Time → OrderBookDiff → Reply × OrderBookAssembler d
  unfolding commit_diff
  apply_diff_locked a now diff =
      let (bids', bids_ok) = update_side d a.bids diff.bids in
      let a1 = record a { bids = bids' } in
      let (asks', asks_ok) = update_side d a.asks diff.asks in
      let a2 = record a1 { asks = asks' } in
      if bids_ok
      then if asks_ok then commit_diff a2 now diff else (failed bad_diff_quantity, a2)
      else (failed bad_diff_quantity, a1)

  -- ApplyDiff
  unfoldable pub apply_diff :
      OrderBookAssembler d → Time → OrderBookDiff → Reply × OrderBookAssembler d
  apply_diff a now diff =
      if not a.initialized
      then (not_applied, record a { pending = a.pending ++ diff ∷ [] })
      else if nat_eq diff.sequence_id 0 || leb diff.sequence_id a.last_seq
      then (not_applied, a)
      else apply_diff_locked a now diff

  -- The loop over the queued diffs; `result` is the book to return if no more diff applies.
  unfoldable pub drain :
      OrderBookAssembler d → Time → Reply → List OrderBookDiff → Reply × OrderBookAssembler d
  drain a now result [] = (result, record a { pending = [] })
  drain a now result (diff ∷ diffs) =
      let skip = drain a now result diffs in
      let (updated, a') = apply_diff_locked a now diff in
      let next = drain a' now updated diffs in
      if leb diff.sequence_id a.last_seq
      then skip
      else elim updated [ failed e ↦ (failed e, a') | not_applied ↦ next | book b ↦ next ]

  -- ApplySnapshot after both sides are replaced.
  unfoldable pub finish_snapshot :
      OrderBookAssembler d → Time → ℕ → BookSnapshotPayload → Reply × OrderBookAssembler d
  finish_snapshot a now seq snapshot =
      let a' = record a {
        initialized = true;
        last_seq = seq;
        last_update = stamp snapshot.last_update now;
      } in
      let result = book (build_snapshot a' seq seq) in
      if is_nil a'.pending then (result, a') else drain a' now result (sort_diffs a'.pending)

  -- ApplySnapshot
  unfoldable pub apply_snapshot :
      OrderBookAssembler d → Time → ℕ → BookSnapshotPayload → Reply × OrderBookAssembler d
  unfolding reset finish_snapshot
  apply_snapshot a now seq snapshot =
      let s = snapshot_seq seq snapshot in
      let (bids', bids_ok) = replace_side d snapshot.bids in
      let a1 = record (reset a) { bids = bids' } in
      let (asks', asks_ok) = replace_side d snapshot.asks in
      let a2 = record a1 { asks = asks' } in
      if nat_eq s 0
      then (failed snapshot_id_required, a)
      else if bids_ok
      then if asks_ok then finish_snapshot a2 now s snapshot else (failed bad_snapshot_quantity, a2)
      else (failed bad_snapshot_quantity, a1)
