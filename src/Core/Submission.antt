-- ===== src/Core/Submission.antt =====
-- What becomes of an order that a strategy submits, with the risk manager.
use meltica_gateway.Common.{
  ◌+◌, Bool, true, false, not, ◌≡◌, refl, ap, Option, none, some, [], ◌∷◌, ◌++◌, ◌⊎◌, inl, inr,
  or_else, option-both, if-both, arith,
}
use meltica_gateway.Common.Text.{Text, text_eq, trim_space}
use meltica_gateway.Common.Map.{get, get-put_self}
use meltica_gateway.Schema.Order.{OrderRequest, TradeSide}
use meltica_gateway.Risk.Types.{Outside, OrderState}
use meltica_gateway.Risk.Check.{check_order}
use meltica_gateway.Risk.Admission.{Admitted, check_order-Admitted}
use meltica_gateway.Core.Config.{BaseLambda}
use meltica_gateway.Core.Orders.{
  Answers, Desk, SubmitError, persist_failed, submit_failed, request_unavailable, order_request,
  new_row, send_order, store_order, check_and_store, check_provider, place_order,
}

-- The errors of an order that the risk manager had accepted.
unfoldable pub is_late : Option SubmitError → Bool
is_late (some (persist_failed e)) = true
is_late (some (submit_failed e)) = true
is_late (some e) = false
is_late none = false

check_provider-early :
    {F : Type 0} (l : BaseLambda F) (provider : Text) (e : SubmitError)
    → check_provider l provider ≡ some e
    → is_late (some e) ≡ false
unfolding check_provider is_late
check_provider-early l provider e refused = ground (arith, refused)

abbrev Outcome : Outside → Type 0
Outcome o = Option SubmitError × Desk o

module _ {o : Outside} where
  open o use {Context}

  store_order-risk :
      (a : Answers Context) (req : OrderRequest) (d : Desk o)
      → (store_order a req d).1.risk ≡ d.risk
  unfolding store_order send_order
  store_order-risk a req d =
      option-both (λ (r : Outcome o). (r.1).risk ≡ d.risk) (a.create_error (new_row d.base req))
        (λ _.
          option-both (λ (r : Outcome o). (r.1).risk ≡ d.risk) (a.submit_error req) (λ _. refl)
            (λ _ _. refl))
        (λ _ _. refl)

  store_order-sent :
      (a : Answers Context) (req : OrderRequest) (d : Desk o)
      → ((store_order a req d).1.sent ≡ d.sent)
        ⊎ ((store_order a req d).1.sent ≡ d.sent ++ req ∷ [])
  unfolding store_order send_order
  store_order-sent a req d =
      option-both (λ (r : Outcome o). ((r.1).sent ≡ d.sent) ⊎ ((r.1).sent ≡ d.sent ++ req ∷ []))
        (a.create_error (new_row d.base req))
        (λ _.
          option-both (λ (r : Outcome o). ((r.1).sent ≡ d.sent) ⊎ ((r.1).sent ≡ d.sent ++ req ∷ []))
            (a.submit_error req) (λ _. inr refl) (λ _ _. inr refl))
        (λ _ _. inl refl)

  -- An order that was sent or stored had been accepted by the risk manager, which is left as CheckOrder
  -- left it.
  record IsChecked (a : Answers Context) (req : OrderRequest) (d d' : Desk o) : Type 0 where
    accepted : (check_order d.risk a.context a.now (some req)).0 ≡ none
    kept : d'.risk ≡ (check_order d.risk a.context a.now (some req)).1

  check_and_store-sent :
      (a : Answers Context) (provider : Text) (req : OrderRequest) (d : Desk o)
      → let d' = (check_and_store a provider req d).1 in
        (d'.sent ≡ d.sent) ⊎ ((d'.sent ≡ d.sent ++ req ∷ []) × IsChecked a req d d')
  unfolding check_and_store
  check_and_store-sent a provider req d =
      let risk = (check_order d.risk a.context a.now (some req)).1 in
      option-both
        (λ (r : Outcome o).
          ((r.1).sent ≡ d.sent) ⊎ (((r.1).sent ≡ d.sent ++ req ∷ []) × IsChecked a req d (r.1)))
        ((check_order d.risk a.context a.now (some req)).0)
        (λ passed. elim (store_order-sent a req (record d { risk = risk })) [
          | inl same ↦ inl same
          | inr more ↦ inr (
            more,
            record { accepted = passed; kept = store_order-risk a req (record d { risk = risk }) },
          )
        ])
        (λ e _. inl refl)

  check_and_store-late :
      (a : Answers Context) (provider : Text) (req : OrderRequest) (d : Desk o)
      → is_late ((check_and_store a provider req d).0) ≡ true
      → IsChecked a req d ((check_and_store a provider req d).1)
  unfolding check_and_store is_late
  check_and_store-late a provider req d =
      let risk = (check_order d.risk a.context a.now (some req)).1 in
      option-both (λ (r : Outcome o). is_late (r.0) ≡ true → IsChecked a req d (r.1))
        ((check_order d.risk a.context a.now (some req)).0)
        (λ passed _. record {
          accepted = passed;
          kept = store_order-risk a req (record d { risk = risk });
        })
        (λ e _ late. absurd (ground (arith, late)))

  admitted :
      (a : Answers Context) (req : OrderRequest) (d d' : Desk o)
      → IsChecked a req d d'
      → (order : OrderState o) × Admitted d.risk d'.risk req order
  admitted a req d d' checked =
      rw checked.kept (check_order-Admitted d.risk a.context a.now req checked.accepted)

  -- A property of every outcome of a submission.
  place_order-both :
      (P : Outcome o → Type 0) (a : Answers Context) (given : Text) (side : TradeSide) (kind : Text)
      (price : Option Text) (quantity tif : Text) (d : Desk o)
      → ((e : Option SubmitError) → is_late e ≡ false → P (e, d))
      → (check_provider d.base (trim_space given) ≡ none
          → d.base.dry_run ≡ false
          → P (
              check_and_store a
                (trim_space given)
                (order_request d.base (trim_space given) side kind price quantity tif a.now)
                d))
      → P (place_order a given side kind price quantity tif d)
  unfolding place_order check_provider is_late
  place_order-both P a given side kind price quantity tif d early checked =
      option-both P (check_provider d.base (trim_space given))
        (λ known.
          if-both P d.base.dry_run (λ _. early none refl)
            (λ live.
              if-both P (not a.has_request) (λ _. early (some request_unavailable) refl)
                (λ _. checked known live)))
        (λ e refused. early (some e) (check_provider-early d.base (trim_space given) e refused))

  -- A request that goes to a provider, whether or not the provider takes it, is one that the risk
  -- manager has just admitted, of a lambda that is not in its dry run, for a provider that its
  -- configuration allows.
  pub place_order-Admitted :
      (a : Answers Context) (given : Text) (side : TradeSide) (kind : Text) (price : Option Text)
      (quantity tif : Text) (d : Desk o)
      → let d' = (place_order a given side kind price quantity tif d).1 in
        let req = order_request d.base (trim_space given) side kind price quantity tif a.now in
        (d'.sent ≡ d.sent)
        ⊎ ((d'.sent ≡ d.sent ++ req ∷ [])
            × (d.base.dry_run ≡ false)
            × (check_provider d.base (trim_space given) ≡ none)
            × (order : OrderState o) × Admitted d.risk d'.risk req order)
  place_order-Admitted a given side kind price quantity tif d =
      let req = order_request d.base (trim_space given) side kind price quantity tif a.now in
      place_order-both
        (λ (r : Outcome o).
          ((r.1).sent ≡ d.sent)
          ⊎ (((r.1).sent ≡ d.sent ++ req ∷ [])
              × (d.base.dry_run ≡ false)
              × (check_provider d.base (trim_space given) ≡ none)
              × (order : OrderState o) × Admitted d.risk (r.1).risk req order))
        a given side kind price quantity tif d (λ _ _. inl refl)
        (λ known live. elim (check_and_store-sent a (trim_space given) req d) [
          | inl same ↦ inl same
          | inr (more, checked) ↦
              let (order, taken) = admitted a req d _ checked in
              inr (more, live, known, order, taken)
        ])

  -- An order that the risk manager admitted and that the store or the provider then refuses stays in
  -- the risk manager as an open order, and keeps the slot of its symbol.
  pub place_order-keeps_slot :
      (a : Answers Context) (given : Text) (side : TradeSide) (kind : Text) (price : Option Text)
      (quantity tif : Text) (d : Desk o)
      → is_late ((place_order a given side kind price quantity tif d).0) ≡ true
      → let d' = (place_order a given side kind price quantity tif d).1 in
        let req = order_request d.base (trim_space given) side kind price quantity tif a.now in
        (order : OrderState o) × (get d'.risk.orders req.client_order_id ≡ some order)
        × (or_else (get d'.risk.inflight req.symbol) 0
            ≡ or_else (get d.risk.inflight req.symbol) 0 + 1)
  place_order-keeps_slot a given side kind price quantity tif d =
      let req = order_request d.base (trim_space given) side kind price quantity tif a.now in
      place_order-both
        (λ (r : Outcome o).
          is_late (r.0) ≡ true
          → (order : OrderState o) × (get (r.1).risk.orders req.client_order_id ≡ some order)
            × (or_else (get (r.1).risk.inflight req.symbol) 0
                ≡ or_else (get d.risk.inflight req.symbol) 0 + 1))
        a given side kind price quantity tif d
        (λ e early late. absurd (ground (arith, early, late)))
        (λ known live late.
          let (order, taken) =
            admitted a req d _ (check_and_store-late a (trim_space given) req d late) in
          (
            order,
            rw taken.stored (get-put_self d.risk.orders req.client_order_id order),
            rw taken.slot_taken (ap (λ n. or_else n 0) (get-put_self d.risk.inflight req.symbol _)),
          ))
