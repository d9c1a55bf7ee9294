-- ===== src/Common/Decimal.antt =====
-- github.com/shopspring/decimal as a parameter: its exact signed decimals up to numerical equality,
-- the operations that the components call, and the laws of exact arithmetic.
pub mod Laws
use mathlib.Core.Path.{◌≡◌}
use mathlib.Core.Bool.{Bool, true, false, not}
use mathlib.Core.Option.{Option}
use meltica_gateway.Common.Text.{Text}

pub record Decimal : Type 1 where
  pub Num : Type 0
  pub nil : Num
  pub add : Num → Num → Num
  pub sub : Num → Num → Num
  pub mul : Num → Num → Num
  pub neg : Num → Num
  pub abs : Num → Num
  -- a.LessThan(b); the other comparisons are its converse and negations.
  pub lt : Num → Num → Bool
  -- decimal.NewFromString; `none` is its error.
  pub parse : Text → Option Num
  -- The text of that error.
  pub parse_error : Text → Text
  pub to_text : Num → Text
  pub add_assoc : (a b c : Num) → add (add a b) c ≡ add a (add b c)
  pub add_comm : (a b : Num) → add a b ≡ add b a
  pub add-nil : (a : Num) → add a nil ≡ a
  pub add-neg : (a : Num) → add a (neg a) ≡ nil
  pub sub-eq : (a b : Num) → sub a b ≡ add a (neg b)
  pub lt_irrefl : (a : Num) → lt a a ≡ false
  pub lt_trans : (a b c : Num) → lt a b ≡ true → lt b c ≡ true → lt a c ≡ true
  pub lt_tri : (a b : Num) → lt a b ≡ false → lt b a ≡ false → a ≡ b
  -- a - b > 0 exactly when b < a
  pub lt-sub : (a b : Num) → lt nil (sub a b) ≡ lt b a

module _ (d : Decimal) where
  open d use {Num, lt}

  -- a.GreaterThan(b)
  abbrev pub gt : Num → Num → Bool
  gt a b = lt b a

  -- a.LessThanOrEqual(b)
  abbrev pub le : Num → Num → Bool
  le a b = not (lt b a)
