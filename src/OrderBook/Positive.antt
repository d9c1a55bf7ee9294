-- ===== src/OrderBook/Positive.antt =====
-- Every quantity that a side of the book holds is positive.
use meltica_gateway.Common.{
  ℕ, true, ◌≡◌, some, List, [], ◌∷◌, All, arith, Option-cases, option-both, inl, inr,
}
use meltica_gateway.Common.Text.{Text, trim_space, text_eq}
use meltica_gateway.Common.Map.{put, delete}
use meltica_gateway.Common.Decimal.{Decimal}
use meltica_gateway.Common.Int.{ℤ}
use meltica_gateway.Schema.Order.{Time}
use meltica_gateway.Schema.Book.{PriceLevel, BookSnapshotPayload}
use meltica_gateway.OrderBook.Side.{
  DiffLevel, Side, Written, add_levels, replace_side, apply_update, update_side,
}
use meltica_gateway.OrderBook.Assembler.{
  OrderBookDiff, OrderBookAssembler, Reply, new_assembler, commit_diff, apply_diff_locked,
  apply_diff, apply_snapshot, drain,
}

module _ (d : Decimal) where
  open d use {Num, nil, lt, parse}

  abbrev pub IsPositive : Side d → Type 0
  IsPositive = All λ e. lt nil e.1 ≡ true

  put-IsPositive :
      (t : Side d) (k : Text) (q : Num) → lt nil q ≡ true → IsPositive t → IsPositive (put t k q)
  unfolding put
  put-IsPositive [] k q h v = (h, tt)
  put-IsPositive ((j, w) ∷ t) k q h v = ground (arith, put-IsPositive t k q h v.1)

  delete-IsPositive : (t : Side d) (k : Text) → IsPositive t → IsPositive (delete t k)
  unfolding delete
  delete-IsPositive [] k v = tt
  delete-IsPositive ((j, w) ∷ t) k v = ground (arith, delete-IsPositive t k v.1)

  add_levels-IsPositive :
      (levels : List PriceLevel) (t : Side d) → IsPositive t → IsPositive (add_levels d t levels).0
  unfolding add_levels
  add_levels-IsPositive [] t v = v
  add_levels-IsPositive (l ∷ levels) t v =
      option-both (λ (w : Written d). IsPositive w.0) (parse (trim_space l.quantity)) (λ _. v)
        λ q _.
          add_levels-IsPositive levels _
            (ground (arith, v, put-IsPositive t (trim_space l.price) q))

  apply_update-IsPositive :
      (t t' : Side d) (u : DiffLevel) → IsPositive t → apply_update d t u ≡ some t' → IsPositive t'
  unfolding apply_update
  apply_update-IsPositive t t' u v h = elim (Option-cases (parse (trim_space u.quantity))) [
    | inl e ↦ ground (arith, e, v, delete-IsPositive t (trim_space u.price) v)
    | inr (q, e) ↦ ground (
      arith,
      e,
      v,
      delete-IsPositive t (trim_space u.price) v,
      put-IsPositive t (trim_space u.price) q,
    )
  ]

  update_side-IsPositive :
      (us : List DiffLevel) (t : Side d) → IsPositive t → IsPositive (update_side d t us).0
  unfolding update_side
  update_side-IsPositive [] t v = v
  update_side-IsPositive (u ∷ us) t v =
      option-both (λ (w : Written d). IsPositive w.0) (apply_update d t u) (λ _. v)
        λ t' e. update_side-IsPositive us t' (apply_update-IsPositive t t' u v e)

-- The calls that write the book.
pub data Call : Type 0 where
  snapshots : Time → ℕ → BookSnapshotPayload → Call
  diffs : Time → OrderBookDiff → Call

module _ {d : Decimal} where
  -- Both sides hold positive quantities only.
  pub record IsPositiveBook (a : OrderBookAssembler d) : Type 0 where
    pub bids : IsPositive d a.bids
    pub asks : IsPositive d a.asks

  apply_diff_locked-IsPositiveBook :
      (a : OrderBookAssembler d) (now : Time) (diff : OrderBookDiff)
      → IsPositiveBook a
      → IsPositiveBook (apply_diff_locked a now diff).1
  unfolding apply_diff_locked commit_diff
  apply_diff_locked-IsPositiveBook a now diff v = ground (
    arith,
    v,
    update_side-IsPositive d diff.bids a.bids v.bids,
    update_side-IsPositive d diff.asks a.asks v.asks,
  )

  drain-IsPositiveBook :
      (a : OrderBookAssembler d) (now : Time) (r : Reply) (ds : List OrderBookDiff)
      → IsPositiveBook a
      → IsPositiveBook (drain a now r ds).1
  unfolding drain
  drain-IsPositiveBook a now r [] v = record { bids = v.bids; asks = v.asks }
  drain-IsPositiveBook a now r (x ∷ ds) v = ground (
    arith,
    v,
    drain-IsPositiveBook a now r ds v,
    drain-IsPositiveBook (apply_diff_locked a now x).1 now (apply_diff_locked a now x).0 ds
        (apply_diff_locked-IsPositiveBook a now x v),
    apply_diff_locked-IsPositiveBook a now x v,
  )

  apply_snapshot-IsPositiveBook :
      (a : OrderBookAssembler d) (now : Time) (seq : ℕ) (snapshot : BookSnapshotPayload)
      → IsPositiveBook a
      → IsPositiveBook (apply_snapshot a now seq snapshot).1
  unfolding apply_snapshot replace_side
  apply_snapshot-IsPositiveBook a now seq snapshot v = ground (
    arith,
    v,
    add_levels-IsPositive d snapshot.bids [] tt,
    add_levels-IsPositive d snapshot.asks [] tt,
  )

  -- One call of ApplySnapshot or ApplyDiff, with the clock that it reads.
  step : OrderBookAssembler d → Call → OrderBookAssembler d
  step a (snapshots now seq snapshot) = (apply_snapshot a now seq snapshot).1
  step a (diffs now diff) = (apply_diff a now diff).1

  pub run : OrderBookAssembler d → List Call → OrderBookAssembler d
  unfolding step
  run a [] = a
  run a (c ∷ cs) = run (step a c) cs

  step-IsPositiveBook :
      (a : OrderBookAssembler d) (c : Call) → IsPositiveBook a → IsPositiveBook (step a c)
  unfolding step apply_diff
  step-IsPositiveBook a (snapshots now seq snapshot) v =
      apply_snapshot-IsPositiveBook a now seq snapshot v
  step-IsPositiveBook a (diffs now diff) v =
      ground (arith, v, apply_diff_locked-IsPositiveBook a now diff v)

  run_keeps :
      (a : OrderBookAssembler d) (cs : List Call) → IsPositiveBook a → IsPositiveBook (run a cs)
  unfolding run
  run_keeps a [] v = v
  run_keeps a (c ∷ cs) v = run_keeps (step a c) cs (step-IsPositiveBook a c v)

  -- From a new assembler, no sequence of snapshots and diffs, refused and failing ones included,
  -- leaves a level whose quantity is not positive on either side.
  pub run-IsPositiveBook :
      (depth : ℤ) (cs : List Call) → IsPositiveBook (run (new_assembler depth) cs)
  unfolding new_assembler
  run-IsPositiveBook depth cs = run_keeps _ cs (record { bids = tt; asks = tt })
