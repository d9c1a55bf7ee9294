-- ===== src/Risk/Slots/Invariant.antt =====
-- Every slot belongs to an open order, and the slots stay within the limit.
use meltica_gateway.Common.{
  ◌+◌, ◌-◌, ◌<◌, ◌≡◌, refl, none, some, List, [], ◌∷◌, or_else, arith, if◌then◌else◌, ◌==◌, ==_iff,
  ==_refl, Option-cases, option-both, inl, inr,
}
use meltica_gateway.Common.Text.{Text, text_eq}
use meltica_gateway.Common.Map.{get, get-put, get-put_self}
use meltica_gateway.Schema.Order.{OrderRequest, ExecReportPayload, Time}
use meltica_gateway.Risk.Types.{Outside, OrderState, Manager}
use meltica_gateway.Risk.Fills.{book_fill, release_order, settle, handle_execution}
use meltica_gateway.Risk.Check.{check_order}
use meltica_gateway.Risk.Handlers.{
  Call, checks, executes, observes, resets, updates, observe_market_price, reset_kill_switch,
  update_limits, step, run,
}
use meltica_gateway.Risk.Admission.{Admitted, SameDesk, check_order-Admitted, check_order-refused}
use meltica_gateway.Risk.Ledger.{clamped, Booked, book_fill-Booked, Closed, close-Closed}
use meltica_gateway.Risk.Slots.{slots, count_open, Distinct}
use meltica_gateway.Risk.Slots.Counts.{
  put-Distinct, delete-Distinct, count-put_fresh, count-put_same, count-delete,
}

-- A request's id is that of no open order.
abbrev pub RequestFresh : {o : Outside} → Manager o → Call o → Type 0
RequestFresh m (checks ctx now (some req)) = get m.orders req.client_order_id ≡ none
RequestFresh m _ = Unit

module _ {o : Outside} where
  -- The order map has one entry for each id, and each symbol has a slot for each of its orders.
  pub record Accounted (m : Manager o) : Type 0 where
    pub distinct : Distinct m.orders
    pub balanced : (s : Text) → slots m s ≡ count_open m.orders s

  Admitted-Accounted :
      (m m' : Manager o) (req : OrderRequest) (order : OrderState o)
      → Accounted m
      → get m.orders req.client_order_id ≡ none
      → Admitted m m' req order
      → Accounted m'
  Admitted-Accounted m m' req order v fresh w = record {
    distinct = rw w.stored (put-Distinct m.orders req.client_order_id order v.distinct);
    balanced = λ s. ground (
      arith,
      w.stored,
      w.slot_taken,
      w.symbol,
      v.balanced s,
      v.balanced req.symbol,
      get-put m.inflight req.symbol s (slots m req.symbol + 1),
      count-put_fresh m.orders req.client_order_id s order fresh,
      ==_iff req.symbol s,
    );
  }

  desk-Accounted : (m m' : Manager o) → Accounted m → SameDesk m m' → Accounted m'
  desk-Accounted m m' v d = record {
    distinct = rw d.orders v.distinct;
    balanced = λ s. ground (arith, d, v.balanced s);
  }

  book-Accounted :
      (m m' : Manager o) (symbol : Text) (p : ExecReportPayload) (order : OrderState o)
      (cum : o.decimal.Num)
      → Accounted m
      → get m.orders p.client_order_id ≡ some order
      → Booked m m' symbol p order cum
      → Accounted m'
  book-Accounted m m' symbol p order cum v h b = record {
    distinct = ground (
      arith,
      b,
      v.distinct,
      put-Distinct m.orders p.client_order_id (record order { filled = cum }) v.distinct,
    );
    balanced = λ s. ground (
      arith,
      b,
      v.balanced s,
      count-put_same m.orders p.client_order_id s (record order { filled = cum }) order h refl,
    );
  }

  -- The slots of a symbol after one of its orders is released.
  release_order-slots :
      (m : Manager o) (sym s : Text)
      → 0 < slots m sym
      → or_else (get (release_order m sym).inflight s) 0
        ≡ (if sym == s then slots m sym - 1 else slots m s)
  unfolding release_order
  release_order-slots m sym s h = ground (arith, get-put m.inflight sym s (slots m sym - 1))

  close-Accounted :
      (m m' : Manager o) (p : ExecReportPayload) (order : OrderState o)
      → Accounted m
      → get m.orders p.client_order_id ≡ some order
      → Closed m m' p order
      → Accounted m'
  close-Accounted m m' p order v h c = record {
    distinct = ground (arith, c, v.distinct, delete-Distinct m.orders p.client_order_id v.distinct);
    balanced = λ s. ground (
      arith,
      c,
      v.balanced s,
      v.balanced order.symbol,
      ==_iff order.symbol s,
      ==_refl order.symbol,
      release_order-slots m order.symbol s,
      count-delete m.orders p.client_order_id s order v.distinct h,
      count-delete m.orders p.client_order_id order.symbol order v.distinct h,
    );
  }

  -- After booking, the id still has an order of the same symbol.
  Booked-order :
      (m m' : Manager o) (symbol : Text) (p : ExecReportPayload) (order : OrderState o)
      (cum : o.decimal.Num)
      → get m.orders p.client_order_id ≡ some order
      → Booked m m' symbol p order cum
      → get m'.orders p.client_order_id
        ≡ some
            (record order { filled = if o.decimal.lt order.filled cum then cum else order.filled })
  Booked-order m m' symbol p order cum h b =
      ground (arith, b, get-put_self m.orders p.client_order_id (record order { filled = cum }))

  Closed-symbol :
      (m m' : Manager o) (p : ExecReportPayload) (order : OrderState o) (f : o.decimal.Num)
      → Closed m m' p order
      → Closed m m' p (record order { filled = f })
  Closed-symbol m m' p order f c = record {
    positions = c.positions;
    orders = c.orders;
    inflight = c.inflight;
    limits = c.limits;
  }

  settle-Accounted :
      (m : Manager o) (now : Time) (symbol : Text) (p : ExecReportPayload) (order : OrderState o)
      (q : o.decimal.Num)
      → Accounted m
      → get m.orders p.client_order_id ≡ some order
      → Accounted (settle m now symbol p order q)
  unfolding settle
  settle-Accounted m now symbol p order q v h =
      close-Accounted m1 _ p _ (book-Accounted m m1 symbol p order cum v h booked)
        (Booked-order m m1 symbol p order cum h booked)
        (Closed-symbol m1 _ p order _ (close-Closed m1 now p order))
    where
      cum : o.decimal.Num
      cum = clamped o.decimal q

      m1 : Manager o
      m1 = book_fill m now symbol p order cum

      booked : Booked m m1 symbol p order cum
      booked = book_fill-Booked m now symbol p order cum

  handle_execution-Accounted :
      (m : Manager o) (now : Time) (symbol : Text) (p : ExecReportPayload)
      → Accounted m
      → Accounted (handle_execution m now symbol p)
  unfolding handle_execution
  handle_execution-Accounted m now symbol p v =
      option-both Accounted (get m.orders p.client_order_id) (λ _. v)
        λ order h.
          option-both Accounted (o.decimal.parse p.filled_quantity) (λ _. v)
            λ q _. settle-Accounted m now symbol p order q v h

  -- No request reuses the id of an order that is still open.
  abbrev pub IdsFresh : Manager o → List (Call o) → Type 0
  IdsFresh m [] = Unit
  IdsFresh m (c ∷ cs) = RequestFresh m c × IdsFresh (step m c) cs

  step-Accounted :
      (m : Manager o) (c : Call o) → RequestFresh m c → Accounted m → Accounted (step m c)
  unfolding step observe_market_price reset_kill_switch update_limits
  step-Accounted m (checks ctx now none) f v = unfold check_order in v
  step-Accounted m (checks ctx now (some req)) f v =
      elim (Option-cases (check_order m ctx now (some req)).0) [
        | inl e ↦
            let (order, w) = check_order-Admitted m ctx now req e in
            Admitted-Accounted m _ req order v f w
        | inr (x, e) ↦ desk-Accounted m _ v (check_order-refused m ctx now (some req) x e)
      ]
  step-Accounted m (executes now symbol p) f v = handle_execution-Accounted m now symbol p v
  step-Accounted m (observes symbol price) f v = ground arith
  step-Accounted m resets f v = record { distinct = v.distinct; balanced = v.balanced }
  step-Accounted m (updates l) f v = record { distinct = v.distinct; balanced = v.balanced }

  -- From a state whose slots match its open orders, and so from a new manager, any history of checks,
  -- reports, observations, resets and new limits in which no request reuses the id of an open order
  -- keeps the slots of every symbol equal to the number of its open orders, one entry for each id.
  pub run-Accounted :
      (m : Manager o) (cs : List (Call o)) → Accounted m → IdsFresh m cs → Accounted (run m cs)
  unfolding run
  run-Accounted m [] v f = v
  run-Accounted m (c ∷ cs) v f = run-Accounted (step m c) cs (step-Accounted m c f.0 v) f.1

  -- A request that reuses the id of an open order of its symbol and is accepted takes a second slot
  -- while the map keeps one order: where each symbol had as many slots as open orders before the call,
  -- the symbol has one slot more than open orders right after it.
  pub reused_id_leaks :
      (m : Manager o) (ctx : o.Context) (now : Time) (req : OrderRequest) (old : OrderState o)
      → Accounted m
      → get m.orders req.client_order_id ≡ some old
      → old.symbol ≡ req.symbol
      → (check_order m ctx now (some req)).0 ≡ none
      → let m' = (check_order m ctx now (some req)).1 in
        slots m' req.symbol ≡ count_open m'.orders req.symbol + 1
  reused_id_leaks m ctx now req old v h same e =
      let (order, w) = check_order-Admitted m ctx now req e in
      ground (
        arith,
        w.stored,
        w.slot_taken,
        w.symbol,
        v.balanced req.symbol,
        get-put_self m.inflight req.symbol (slots m req.symbol + 1),
        count-put_same m.orders req.client_order_id req.symbol order old h,
      )
