-- ===== src/Core/Reports.antt =====
-- Which orders a lambda takes for its own, and what events do to the risk manager.
use meltica_gateway.Common.{
  ℕ, true, ◌&&◌, ◌≡◌, if◌then◌else◌, refl, ap, Option, none, some, [], ◌∷◌, ◌++◌, nat_eq_iff, arith,
}
use meltica_gateway.Common.Text.{Text, codes, text_beq}
use meltica_gateway.Schema.Order.{ExecReportPayload, Time}
use meltica_gateway.Schema.Payload.{Payload, exec_report}
use meltica_gateway.Schema.Route.{Event}
use meltica_gateway.Publisher.Emit.{decimal_text}
use meltica_gateway.Risk.Types.{Outside, Manager}
use meltica_gateway.Risk.Fills.{handle_execution}
use meltica_gateway.Core.Config.{BaseLambda, extends, is_my_order}
use meltica_gateway.Core.Orders.{Desk, new_order_id}
use meltica_gateway.Core.Events.{Around, Handled, passes, exec_callback}

extends-append : (p : Text) (c : ℕ) (s : Text) → extends p (p ++ c ∷ s) ≡ true
unfolding extends
extends-append [] c s = refl
extends-append (d ∷ p) c s = ground (arith, extends-append p c s, nat_eq_iff d d)

dashed : (p s : Text) (c : ℕ) → (p ++ b'-' ∷ []) ++ c ∷ s ≡ p ++ b'-' ∷ c ∷ s
dashed [] s c = refl
dashed (d ∷ p) s c = ap (λ t. d ∷ t) (dashed p s c)

append_first : (t s : Text) (c : ℕ) → (d : ℕ) × (u : Text) × (t ++ c ∷ s ≡ d ∷ u)
append_first [] s c = (c, s, refl)
append_first (d ∷ t) s c = (d, t ++ c ∷ s, refl)

is_my_order-dashed : (id t s : Text) (c : ℕ) → is_my_order id (id ++ b'-' ∷ (t ++ c ∷ s)) ≡ true
unfolding is_my_order
is_my_order-dashed id t s c =
    let (d, u, e) = append_first t s c in
    rw (e, ← dashed id u d) (extends-append (id ++ b'-' ∷ []) d u)

append_dashed : (p s t : Text) → (p ++ b'-' ∷ s) ++ t ≡ p ++ b'-' ∷ (s ++ t)
append_dashed [] s t = refl
append_dashed (d ∷ p) s t = ap (λ u. d ∷ u) (append_dashed p s t)

-- A lambda takes the orders that it submits for its own, whenever it submits them; and so it takes
-- those of every lambda whose id goes on from its own with a dash.
pub is_my_order-new_order_id :
    (id tail : Text) (now : Time) (count : ℕ)
    → (is_my_order id (new_order_id id now count) ≡ true)
      × (is_my_order id (new_order_id (id ++ b'-' ∷ tail) now count) ≡ true)
unfolding new_order_id
is_my_order-new_order_id id tail now count = (
  is_my_order-dashed id (decimal_text 20 now) (decimal_text 20 count) b'-',
  rw (append_dashed id tail (b'-' ∷ (decimal_text 20 now ++ b'-' ∷ decimal_text 20 count)))
      (is_my_order-dashed id tail (decimal_text 20 now ++ b'-' ∷ decimal_text 20 count) b'-'),
)

-- The orders, positions and slots of two managers are the same.
pub record SameBooks {o : Outside} (m n : Manager o) : Type 0 where
  pub orders : n.orders ≡ m.orders
  pub positions : n.positions ≡ m.positions
  pub inflight : n.inflight ≡ m.inflight

module _ {F A : Type 0} where
  -- The execution report of an order that a lambda takes for its own.
  unfoldable pub own_part : BaseLambda F → Payload F A → Option ExecReportPayload
  own_part l (exec_report p) = if is_my_order l.id p.client_order_id then some p else none
  own_part l payload = none

  -- The one that an event brings to it by the subscription to a type.
  unfoldable pub own_report : Text → Event (Payload F A) → BaseLambda F → Option ExecReportPayload
  own_report typ evt l =
      if passes typ evt l && text_beq typ (codes "ExecReport")
      then elim evt.payload [ none ↦ none | some payload ↦ own_part l payload ]
      else none

module _ {o : Outside} {A : Type 0} where
  open o use {float}

  -- What an event does to the risk manager's books, and what the strategy is told of a report.
  unfoldable pub Booked :
      Around o
      → Event (Payload float.F A)
      → Desk o
      → Handled o A
      → Option ExecReportPayload
      → Type 0
  Booked x evt d r none = SameBooks d.risk r.desk.risk
  Booked x evt d r (some p) =
      (r.desk.risk ≡ handle_execution d.risk x.now evt.symbol p) × (r.told ≡ exec_callback p)

  abbrev Kept : Desk o → Handled o A → Type 0
  Kept d r = SameBooks d.risk r.desk.risk
