-- ===== src/Risk/Slots/Bound.antt =====
-- The concurrency limit over whole histories.
use meltica_gateway.Common.{
  ◌+◌, ◌-◌, ◌≤◌, Bool, true, false, ◌≡◌, refl, ◌∙◌, Option, none, some, List, [], ◌∷◌, All, or_else,
  arith, ==_iff, Option-cases, option-both, inl, inr,
}
use meltica_gateway.Common.Text.{Text, text_eq}
use meltica_gateway.Common.Map.{get, get-put}
use meltica_gateway.Common.Int.{is_positive, pos_part}
use meltica_gateway.Schema.Order.{OrderRequest, ExecReportPayload, Time}
use meltica_gateway.Risk.Types.{Outside, OrderState, Manager}
use meltica_gateway.Risk.Fills.{
  book_fill, release_order, close_order, count_rejection, settle, handle_execution,
}
use meltica_gateway.Risk.Check.{check_order}
use meltica_gateway.Risk.Handlers.{
  Call, checks, executes, observes, resets, updates, observe_market_price, reset_kill_switch, step,
  run,
}
use meltica_gateway.Risk.Admission.{check_order-Admitted, check_order-refused}
use meltica_gateway.Risk.Ledger.{clamped, Booked, book_fill-Booked, Closed, close-Closed}
use meltica_gateway.Risk.Slots.{slots}

-- A call that leaves the limits alone.
abbrev pub keeps_limits : {o : Outside} → Call o → Bool
keeps_limits (updates l) = false
keeps_limits _ = true

module _ {o : Outside} where
  -- The limit is set and no symbol has more slots than it allows.
  pub record IsBounded (m : Manager o) : Type 0 where
    pub limited : is_positive m.limits.max_concurrent_orders ≡ true
    pub bounded : (s : Text) → slots m s ≤ pos_part m.limits.max_concurrent_orders

  release_order-slots-le :
      (m : Manager o) (sym s : Text) → or_else (get (release_order m sym).inflight s) 0 ≤ slots m s
  unfolding release_order
  release_order-slots-le m sym s =
      ground (arith, get-put m.inflight sym s (slots m sym - 1), ==_iff sym s)

  -- A report takes no slot and leaves the limits.
  record Eased (m m' : Manager o) : Type 0 where
    limits : m'.limits ≡ m.limits
    fewer : (s : Text) → slots m' s ≤ slots m s

  settle-Eased :
      (m : Manager o) (now : Time) (symbol : Text) (p : ExecReportPayload) (order : OrderState o)
      (q : o.decimal.Num)
      → Eased m (settle m now symbol p order q)
  unfolding settle
  settle-Eased m now symbol p order q = record {
    limits = c.limits ∙ b.limits;
    fewer = λ s. ground (arith, b, c, release_order-slots-le m1 order.symbol s);
  }
    where
      m1 : Manager o
      m1 = book_fill m now symbol p order (clamped o.decimal q)

      b : Booked m m1 symbol p order (clamped o.decimal q)
      b = book_fill-Booked m now symbol p order (clamped o.decimal q)

      c : Closed m1 (count_rejection (close_order m1 p order) now p) p order
      c = close-Closed m1 now p order

  handle_execution-Eased :
      (m : Manager o) (now : Time) (symbol : Text) (p : ExecReportPayload)
      → Eased m (handle_execution m now symbol p)
  unfolding handle_execution
  handle_execution-Eased m now symbol p =
      option-both (Eased m) (get m.orders p.client_order_id) (λ _. same)
        λ order _.
          option-both (Eased m) (o.decimal.parse p.filled_quantity) (λ _. same)
            λ q _. settle-Eased m now symbol p order q
    where
      same : Eased m m
      same = record { limits = refl; fewer = λ s. omega arith }

  check_order-IsBounded :
      (m : Manager o) (ctx : o.Context) (now : Time) (req : Option OrderRequest)
      → IsBounded m
      → IsBounded (check_order m ctx now req).1
  check_order-IsBounded m ctx now none v = unfold check_order in v
  check_order-IsBounded m ctx now (some req) v =
      elim (Option-cases (check_order m ctx now (some req)).0) [
        | inl e ↦
            let (order, w) = check_order-Admitted m ctx now req e in
            record {
              limited = ground (arith, w.same_limits, v.limited);
              bounded = λ s. ground (
                arith,
                w.same_limits,
                w.slot_free,
                w.slot_taken,
                v.limited,
                v.bounded s,
                get-put m.inflight req.symbol s (slots m req.symbol + 1),
                ==_iff req.symbol s,
              );
            }
        | inr (x, e) ↦
            let d = check_order-refused m ctx now (some req) x e in
            record {
              limited = ground (arith, d, v.limited);
              bounded = λ s. ground (arith, d, v.bounded s);
            }
      ]

  step-IsBounded :
      (m : Manager o) (c : Call o) → keeps_limits c ≡ true → IsBounded m → IsBounded (step m c)
  unfolding step observe_market_price reset_kill_switch
  step-IsBounded m (checks ctx now req) k v = check_order-IsBounded m ctx now req v
  step-IsBounded m (executes now symbol p) k v =
      let w = handle_execution-Eased m now symbol p in
      record {
        limited = ground (arith, w.limits, v.limited);
        bounded = λ s. ground (arith, w.limits, w.fewer s, v.bounded s);
      }
  step-IsBounded m (observes symbol price) k v = ground arith
  step-IsBounded m resets k v = record { limited = v.limited; bounded = v.bounded }
  step-IsBounded m (updates l) k v = cc

  -- While the limits stay, no history of checks, reports, observations and resets brings any symbol
  -- above the limit on concurrent orders, reused ids included.
  pub run-IsBounded :
      (m : Manager o) (cs : List (Call o))
      → IsBounded m
      → All (λ c. keeps_limits c ≡ true) cs
      → IsBounded (run m cs)
  unfolding run
  run-IsBounded m [] v k = v
  run-IsBounded m (c ∷ cs) v k = run-IsBounded (step m c) cs (step-IsBounded m c k.0 v) k.1
