-- ===== src/OrderBook/Assembler/Sequence.antt =====
-- Sequence numbers: which diffs are applied, and what becomes of those that arrive early.
use meltica_gateway.Common.{
  ℕ, ◌≤◌, ◌<◌, true, false, ◌≡◌, ◌≢◌, List, [], ◌∷◌, ◌++◌, arith, if◌then◌else◌,
}
use meltica_gateway.Common.Decimal.{Decimal}
use meltica_gateway.Schema.Order.{Time}
use meltica_gateway.Schema.Book.{BookSnapshotPayload}
use meltica_gateway.OrderBook.Side.{update_side}
use meltica_gateway.OrderBook.Assembler.{
  OrderBookDiff, OrderBookAssembler, bad_diff_quantity, book, not_applied, failed, build_snapshot,
  apply_diff_locked, apply_diff, snapshot_seq, apply_snapshot, commit_diff,
}

module _ {d : Decimal} where
  -- A diff that arrives before the first snapshot is queued; afterwards one whose sequence id is not
  -- above the last one applied changes nothing and returns no book.
  pub apply_diff_skips :
      (a : OrderBookAssembler d) (now : Time) (diff : OrderBookDiff)
      → diff.sequence_id ≤ a.last_seq
      → apply_diff a now diff ≡ (
          if a.initialized
          then (not_applied, a)
          else (not_applied, record a { pending = a.pending ++ diff ∷ [] }))
  unfolding apply_diff
  apply_diff_skips a now diff h = ground arith

  -- A diff that is applied.
  pub record Advanced (a a' : OrderBookAssembler d) (diff : OrderBookDiff) (b : BookSnapshotPayload)
      : Type 0 where
    pub ready : a.initialized ≡ true
    pub newer : a.last_seq < diff.sequence_id
    pub last_seq : a'.last_seq ≡ diff.sequence_id
    pub bids : (a'.bids, true) ≡ update_side d a.bids diff.bids
    pub asks : (a'.asks, true) ≡ update_side d a.asks diff.asks
    pub pending : a'.pending ≡ a.pending
    pub built : b ≡ build_snapshot a' diff.sequence_id diff.sequence_id

  -- ApplyDiff returns a book only for a diff above the last sequence id, on an assembler with a
  -- snapshot. Then both sides have all of the diff's updates, its id is the last one applied, and the
  -- book is built from the new sides under that id.
  pub apply_diff-Advanced :
      (a : OrderBookAssembler d) (now : Time) (diff : OrderBookDiff) (b : BookSnapshotPayload)
      → (apply_diff a now diff).0 ≡ book b
      → Advanced a (apply_diff a now diff).1 diff b
  unfolding apply_diff apply_diff_locked commit_diff
  apply_diff-Advanced a now diff b h = ground arith

  -- ApplyDiff for each diff in turn.
  pub run_diffs : OrderBookAssembler d → List (Time × OrderBookDiff) → OrderBookAssembler d
  run_diffs a [] = a
  run_diffs a ((now, diff) ∷ diffs) = run_diffs (apply_diff a now diff).1 diffs

  apply_diff-grows :
      (a : OrderBookAssembler d) (now : Time) (diff : OrderBookDiff)
      → a.last_seq ≤ (apply_diff a now diff).1.last_seq
  unfolding apply_diff apply_diff_locked commit_diff
  apply_diff-grows a now diff = ground arith

  -- No sequence of diffs, failing ones included, takes the last sequence id back.
  pub run_diffs_grows :
      (a : OrderBookAssembler d) (diffs : List (Time × OrderBookDiff))
      → a.last_seq ≤ (run_diffs a diffs).last_seq
  unfolding run_diffs
  run_diffs_grows a [] = omega arith
  run_diffs_grows a ((now, diff) ∷ diffs) =
      omega (arith, apply_diff-grows a now diff, run_diffs_grows (apply_diff a now diff).1 diffs)

  -- ApplySnapshot with a sequence id drops every diff that was queued: its result and the state that
  -- it leaves are those of an assembler with an empty queue.
  pub apply_snapshot_drops_queue :
      (a : OrderBookAssembler d) (now : Time) (seq : ℕ) (snapshot : BookSnapshotPayload)
      → snapshot_seq seq snapshot ≢ 0
      → apply_snapshot a now seq snapshot
        ≡ apply_snapshot (record a { pending = [] }) now seq snapshot
  unfolding apply_snapshot
  apply_snapshot_drops_queue a now seq snapshot h = ground arith

  -- A diff whose bids are all read and whose asks are not leaves the book half updated: ApplyDiff
  -- fails, the new bids stay, and the last sequence id is still the old one.
  pub apply_diff_half :
      (a : OrderBookAssembler d) (now : Time) (diff : OrderBookDiff)
      → a.initialized ≡ true
      → a.last_seq < diff.sequence_id
      → (update_side d a.bids diff.bids).1 ≡ true
      → (update_side d a.asks diff.asks).1 ≡ false
      → ((apply_diff a now diff).0 ≡ failed bad_diff_quantity)
        × ((apply_diff a now diff).1.bids ≡ (update_side d a.bids diff.bids).0)
        × ((apply_diff a now diff).1.last_seq ≡ a.last_seq)
  unfolding apply_diff apply_diff_locked
  apply_diff_half a now diff i n b c = ground arith
