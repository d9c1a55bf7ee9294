-- ===== src/Common/Decimal/Laws.antt =====
-- Exact sums and differences of decimals.
use mathlib.Core.Path.{◌≡◌, sym, ◌∙◌}
use meltica_gateway.Common.Decimal.{Decimal}

module _ (d : Decimal) where
  open d use {Num, nil, add, sub, neg, add_assoc, add_comm, add-nil, add-neg, sub-eq}

  pub nil-add : (a : Num) → add nil a ≡ a
  nil-add a = add_comm nil a ∙ add-nil a

  neg_unique : (x y : Num) → add x y ≡ nil → y ≡ neg x
  neg_unique x y h =
      cc (h, nil-add y, add_comm x (neg x), add-neg x, add_assoc (neg x) x y, add-nil (neg x))

  pub neg-add : (a b : Num) → add (neg a) (neg b) ≡ neg (add a b)
  neg-add a b = neg_unique (add a b) (add (neg a) (neg b)) (
      cc (
        add_assoc (add a b) (neg a) (neg b),
        add_comm a b,
        add_assoc b a (neg a),
        add-neg a,
        add-nil b,
        add-neg b,
      ))

  pub neg-nil : neg nil ≡ nil
  neg-nil = sym (neg_unique nil nil (add-nil nil))

  pub sub_self : (a : Num) → sub a a ≡ nil
  sub_self a = sub-eq a a ∙ add-neg a

  -- (b - a) + (c - b) is c - a.
  pub sub_telescope : (a b c : Num) → add (sub b a) (sub c b) ≡ sub c a
  sub_telescope a b c = cc (
    sub-eq b a,
    sub-eq c b,
    sub-eq c a,
    add_comm (add b (neg a)) (add c (neg b)),
    add_assoc c (neg b) (add b (neg a)),
    add_assoc (neg b) b (neg a),
    add_comm (neg b) b,
    add-neg b,
    nil-add (neg a),
  )
