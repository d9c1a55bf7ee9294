-- ===== src/Risk/Acceptance.antt =====
-- What CheckOrder guarantees when it accepts an order and when it refuses one.
use meltica_gateway.Common.{
  ◌+◌, ◌<◌, true, false, ◌||◌, ◌≡◌, ◌⊎◌, some, is_some, is_nil, or_else, arith,
}
use meltica_gateway.Common.Text.{Text, to_lower, text_eq}
use meltica_gateway.Common.Map.{get, put}
use meltica_gateway.Common.Int.{is_positive, pos_part}
use meltica_gateway.Common.Exec.{Ensures, Ensures-bind}
use meltica_gateway.Schema.Order.{OrderRequest}
use meltica_gateway.Risk.Types.{Outside, OrderState, Manager}
use meltica_gateway.Risk.Fills.{exceeds}
use meltica_gateway.Risk.Check.{
  evaluate, enforce_order_type, order_quantity, resolve_order_price, validate_price_band,
  enforce_concurrency, projected, check_limits,
}

module _ {o : Outside} where
  open o use {decimal}
  open o.decimal use {Num, nil, abs, mul, lt, parse}

  -- The price resolution writes reference prices and nothing else.
  pub record SamePriced (m m' : Manager o) : Type 0 where
    pub limits : m'.limits ≡ m.limits
    pub positions : m'.positions ≡ m.positions
    pub notionals : m'.notionals ≡ m.notionals
    pub orders : m'.orders ≡ m.orders
    pub inflight : m'.inflight ≡ m.inflight
    pub allowed_types : m'.allowed_types ≡ m.allowed_types
    pub kill_switch : m'.kill_switch ≡ m.kill_switch

  resolve-SamePriced :
      (req : OrderRequest) (m : Manager o) → SamePriced m (resolve_order_price req m).1
  unfolding resolve_order_price validate_price_band
  resolve-SamePriced req m = ground arith

  -- What the limits establish of the order that they let pass.
  pub record Within (m m' : Manager o) (req : OrderRequest) (order : OrderState o) : Type 0 where
    pub within_position :
        exceeds decimal m.limits.max_position_size (abs (projected m req order.quantity)) ≡ false
    pub within_notional :
        exceeds decimal m.limits.max_notional_value
          (mul (abs (projected m req order.quantity)) order.limit_px)
        ≡ false
    pub slot_free :
        (is_positive m.limits.max_concurrent_orders ≡ false)
        ⊎ (or_else (get m.inflight req.symbol) 0 < pos_part m.limits.max_concurrent_orders)
    pub slot_taken :
        m'.inflight ≡ put m.inflight req.symbol (or_else (get m.inflight req.symbol) 0 + 1)
    pub unfilled : order.filled ≡ nil
    pub symbol : order.symbol ≡ req.symbol
    pub side : order.side ≡ req.side
    pub same_positions : m'.positions ≡ m.positions
    pub same_orders : m'.orders ≡ m.orders
    pub same_limits : m'.limits ≡ m.limits
    pub same_switch : m'.kill_switch ≡ m.kill_switch

  -- What an accepted evaluation establishes of the order that it returns.
  pub record Passed (m m' : Manager o) (req : OrderRequest) (order : OrderState o) : Type 0 where
    pub allowed :
        (is_nil m.allowed_types || is_some (get m.allowed_types (to_lower req.order_type))) ≡ true
    pub quantity : parse req.quantity ≡ some order.quantity
    pub positive : lt nil order.quantity ≡ true
    pub within : Within m m' req order

  enforce_order_type-Ensures :
      (t : Text) (m : Manager o)
      → Ensures
          (λ _ m'.
            ((is_nil m.allowed_types || is_some (get m.allowed_types (to_lower t))) ≡ true)
            × SamePriced m m')
          (λ _ m'. SamePriced m m')
          (enforce_order_type t m)
  unfolding enforce_order_type
  enforce_order_type-Ensures t m = record {
    on_ok = λ u m' h. ground arith;
    on_err = λ e m' h. ground arith;
  }

  module _ (m0 m : Manager o) (same : SamePriced m0 m) where
    order_quantity-Ensures :
        (req : OrderRequest)
        → Ensures
            (λ q m'. (parse req.quantity ≡ some q) × (lt nil q ≡ true) × SamePriced m0 m')
            (λ _ m'. SamePriced m0 m')
            (order_quantity req m)
    unfolding order_quantity
    order_quantity-Ensures req = record {
      on_ok = λ q m' h. ground arith;
      on_err = λ e m' h. ground arith;
    }

    resolve-Ensures :
        (req : OrderRequest)
        → Ensures (λ _ m'. SamePriced m0 m') (λ _ m'. SamePriced m0 m') (resolve_order_price req m)
    resolve-Ensures req = record {
      on_ok = λ p m' h. ground (arith, resolve-SamePriced req m);
      on_err = λ e m' h. ground (arith, resolve-SamePriced req m);
    }

    check_limits-Ensures :
        (req : OrderRequest) (q p : Num)
        → Ensures
            (λ order m'. Within m0 m' req order × (order.quantity ≡ q))
            (λ _ m'. SamePriced m0 m')
            (check_limits req q p m)
    unfolding check_limits enforce_concurrency
    check_limits-Ensures req q p = record {
      on_ok = λ order m' h. ground arith;
      on_err = λ e m' h. ground arith;
    }

  pub evaluate-Ensures :
      (req : OrderRequest) (m : Manager o)
      → Ensures (λ order m'. Passed m m' req order) (λ _ m'. SamePriced m m') (evaluate req m)
  unfolding evaluate
  evaluate-Ensures req m =
      Ensures-bind _ _ _ (enforce_order_type req.order_type) _ m
        (enforce_order_type-Ensures req.order_type m)
        λ _ m1 h1.
          Ensures-bind _ _ _ (order_quantity req) _ m1 (order_quantity-Ensures m m1 h1.1 req)
            λ q m2 h2.
              Ensures-bind _ _ _ (resolve_order_price req) _ m2 (resolve-Ensures m m2 h2.2 req)
                λ p m3 h3. record {
                  on_ok = λ order m' h.
                      let (w, e) = (check_limits-Ensures m m3 h3 req q p).on_ok order m' h in
                      record {
                        allowed = h1.0;
                        quantity = rw e h2.0;
                        positive = rw e h2.1;
                        within = w;
                      };
                  on_err = (check_limits-Ensures m m3 h3 req q p).on_err;
                }
