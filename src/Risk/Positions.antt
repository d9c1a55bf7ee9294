-- ===== src/Risk/Positions.antt =====
-- Positions over a sequence of execution reports of one order: duplicates and reports out of order
-- change nothing, and the position moves by exactly what the order has filled.
use meltica_gateway.Common.{
  false, ◌≡◌, refl, sym, subst, ◌∙◌, Option, none, some, List, [], ◌∷◌, All, arith, if◌then◌else◌,
  inl, inr, Option-cases,
}
use mathlib.Core.Path.{subst₂}
use meltica_gateway.Common.Text.{Text, text_eq}
use meltica_gateway.Common.Map.{get, get-put_self}
use meltica_gateway.Common.Decimal.{Decimal}
use meltica_gateway.Common.Decimal.Laws.{neg-add, neg-nil, sub_self, sub_telescope}
use meltica_gateway.Schema.Order.{ExecReportPayload, TradeSide, buy, sell, other_side, Time}
use meltica_gateway.Risk.Types.{Outside, OrderState, Manager}
use meltica_gateway.Risk.Fills.{
  position, signed_quantity, book_fill, settle, handle_execution, is_terminal,
}
use meltica_gateway.Risk.Ledger.{clamped, book_fill-Booked, close-Closed}

-- The reports are of one order and of one side, and none ends the order.
abbrev pub OfOrder : Text → TradeSide → List (Time × ExecReportPayload) → Type 0
OfOrder id side =
    All λ r. (r.1.client_order_id ≡ id) × (r.1.side ≡ side) × (is_terminal r.1.state ≡ false)

module _ (d : Decimal) where
  open d use {Num, nil, add, sub, lt, parse, add_assoc, add-nil}

  -- The larger of an order's filled quantity and a report's cumulative quantity, if it parses.
  abbrev pub raise_to : Num → Option Num → Num
  raise_to f none = f
  raise_to f (some q) = if lt f (clamped d q) then clamped d q else f

  -- The filled quantity after a sequence of reports.
  abbrev pub highest : Num → List (Time × ExecReportPayload) → Num
  highest f [] = f
  highest f ((now, p) ∷ rs) = highest (raise_to f (parse p.filled_quantity)) rs

  signed_add :
      (s : TradeSide) (a b : Num)
      → add (signed_quantity d s a) (signed_quantity d s b) ≡ signed_quantity d s (add a b)
  unfolding signed_quantity
  signed_add buy a b = refl
  signed_add sell a b = neg-add d a b
  signed_add (other_side t) a b = refl

  signed_none : (s : TradeSide) (x a : Num) → add x (signed_quantity d s (sub a a)) ≡ x
  unfolding signed_quantity
  signed_none buy x a = cc (sub_self d a, add-nil x)
  signed_none sell x a = cc (sub_self d a, neg-nil d, add-nil x)
  signed_none (other_side t) x a = cc (sub_self d a, add-nil x)

  -- Two moves of the position, from a to b and from b to c, are one.
  move_twice :
      (s : TradeSide) (x a b c : Num)
      → add (add x (signed_quantity d s (sub b a))) (signed_quantity d s (sub c b))
        ≡ add x (signed_quantity d s (sub c a))
  move_twice s x a b c = cc (
    add_assoc x (signed_quantity d s (sub b a)) (signed_quantity d s (sub c b)),
    signed_add s (sub b a) (sub c b),
    sub_telescope d a b c,
  )

module _ {o : Outside} where
  open o use {decimal}
  open o.decimal use {Num, nil, add, sub, lt, parse}

  -- HandleExecution for each report in turn.
  pub deliver : Manager o → Text → List (Time × ExecReportPayload) → Manager o
  deliver m symbol [] = m
  deliver m symbol ((now, p) ∷ rs) = deliver (handle_execution m now symbol p) symbol rs

  -- An order with a filled quantity of `f`, and the position that this brings its symbol to.
  record Stands (m m' : Manager o) (symbol id : Text) (side : TradeSide) (order : OrderState o)
      (f : Num) : Type 0 where
    open_order : get m'.orders id ≡ some (record order { filled = f })
    moved :
        position m' symbol
        ≡ add (position m symbol) (signed_quantity decimal side (sub f order.filled))
    inflight : m'.inflight ≡ m.inflight
    limits : m'.limits ≡ m.limits

  Stands-refl :
      (m : Manager o) (symbol id : Text) (side : TradeSide) (order : OrderState o)
      → get m.orders id ≡ some order
      → Stands m m symbol id side order order.filled
  Stands-refl m symbol id side order h = record {
    open_order = h;
    moved = sym (signed_none decimal side (position m symbol) order.filled);
    inflight = refl;
    limits = refl;
  }

  Stands-trans :
      (a b c : Manager o) (symbol id : Text) (side : TradeSide) (order : OrderState o) (f g : Num)
      → Stands a b symbol id side order f
      → Stands b c symbol id side (record order { filled = f }) g
      → Stands a c symbol id side order g
  Stands-trans a b c symbol id side order f g p q = record {
    open_order = q.open_order;
    moved = cc (p.moved, q.moved, move_twice decimal side (position a symbol) order.filled f g);
    inflight = q.inflight ∙ p.inflight;
    limits = q.limits ∙ p.limits;
  }

  settle-Stands :
      (m : Manager o) (now : Time) (symbol : Text) (p : ExecReportPayload) (order : OrderState o)
      (q : Num)
      → get m.orders p.client_order_id ≡ some order
      → is_terminal p.state ≡ false
      → Stands m
          (settle m now symbol p order q)
          symbol
          p.client_order_id
          p.side
          order
          (raise_to decimal order.filled (some q))
  unfolding settle
  settle-Stands m now symbol p order q h t =
      let m1 = book_fill m now symbol p order (clamped decimal q) in
      let b = book_fill-Booked m now symbol p order (clamped decimal q) in
      let c = close-Closed m1 now p order in
      record {
        open_order = ground (
          arith,
          b,
          c,
          h,
          get-put_self m.orders p.client_order_id (record order { filled = clamped decimal q }),
        );
        moved = ground (
          arith,
          b,
          c,
          get-put_self m.positions symbol (moved q),
          signed_none decimal p.side (position m symbol) order.filled,
        );
        inflight = ground (arith, b, c);
        limits = ground (arith, b, c);
      }
    where
      moved : Num → Num
      moved q =
          add (position m symbol)
            (signed_quantity decimal p.side (sub (clamped decimal q) order.filled))

  handle_execution-Stands :
      (m : Manager o) (now : Time) (symbol : Text) (p : ExecReportPayload) (order : OrderState o)
      → get m.orders p.client_order_id ≡ some order
      → is_terminal p.state ≡ false
      → Stands m
          (handle_execution m now symbol p)
          symbol
          p.client_order_id
          p.side
          order
          (raise_to decimal order.filled (parse p.filled_quantity))
  unfolding handle_execution
  handle_execution-Stands m now symbol p order h t =
      rw (h, handle_execution)
        (elim (Option-cases (parse p.filled_quantity)) [
          | inl e ↦ rw (e, handle_execution) (Stands-refl m symbol _ p.side order h)
          | inr (q, e) ↦ rw (e, handle_execution) (settle-Stands m now symbol p order q h t)
        ])

  deliver-Stands :
      (id : Text) (side : TradeSide) (symbol : Text) (rs : List (Time × ExecReportPayload))
      (m : Manager o) (order : OrderState o)
      → get m.orders id ≡ some order
      → OfOrder id side rs
      → Stands m (deliver m symbol rs) symbol id side order (highest decimal order.filled rs)
  unfolding deliver
  deliver-Stands id side symbol [] m order h t = Stands-refl m symbol id side order h
  deliver-Stands id side symbol ((now, p) ∷ rs) m order h t =
      Stands-trans m m1 _ symbol id side order f1 _ first
        (deliver-Stands id side symbol rs m1 (record order { filled = f1 }) first.open_order t.1)
    where
      m1 : Manager o
      m1 = handle_execution m now symbol p

      f1 : Num
      f1 = raise_to decimal order.filled (parse p.filled_quantity)

      first : Stands m m1 symbol id side order f1
      first =
          subst₂ (λ i s. Stands m m1 symbol i s order f1) t.0.0 t.0.1
            (handle_execution-Stands m now symbol p order
              (subst (λ i. get m.orders i ≡ some order) (sym t.0.0) h) t.0.2)

  -- Whatever reports of one open order arrive, in whatever order and however often, none of them
  -- final: the order's filled quantity is the largest cumulative quantity reported so far, where a
  -- negative one counts as zero and one that does not parse is ignored; the symbol's position has
  -- moved by the signed difference to what the order had filled before; slots and limits are as
  -- before.
  pub deliver-highest :
      (id : Text) (side : TradeSide) (symbol : Text) (rs : List (Time × ExecReportPayload))
      (m : Manager o) (order : OrderState o)
      → get m.orders id ≡ some order
      → OfOrder id side rs
      → let f = highest decimal order.filled rs in
        (get (deliver m symbol rs).orders id ≡ some (record order { filled = f }))
        × (position (deliver m symbol rs) symbol
            ≡ add (position m symbol) (signed_quantity decimal side (sub f order.filled)))
        × ((deliver m symbol rs).inflight ≡ m.inflight)
        × ((deliver m symbol rs).limits ≡ m.limits)
  deliver-highest id side symbol rs m order h t = (w.open_order, w.moved, w.inflight, w.limits)
    where
      w : Stands m (deliver m symbol rs) symbol id side order (highest decimal order.filled rs)
      w = deliver-Stands id side symbol rs m order h t
