-- ===== src/Common/Sample.antt =====
-- Concrete instances of the parameters, for tests and examples: whole numbers for decimals and floats.
use Prim.Native.Nat.{ℕ, ◌+◌, ◌-◌, ◌*◌, ◌/◌}
use mathlib.Core.Path.{◌≡◌, refl}
use mathlib.Core.Bool.{Bool, true, false, not, ◌&&◌}
use mathlib.Core.Option.{Option, none, some}
use mathlib.Core.List.{[], ◌∷◌}
use native.Mathlib.Omega.{arith}
use meltica_gateway.Common.Tests.{ltb, leb, nat_eq, if◌then◌else◌}
use meltica_gateway.Common.Text.{Text, codes}
use meltica_gateway.Common.Int.{ℤ, pos, pos_part, neg_part, sub_ℕ}
use meltica_gateway.Common.Decimal.{Decimal}
use meltica_gateway.Common.Float.{Float, FloatLaws}

abbrev int_add : ℤ → ℤ → ℤ
int_add a b = sub_ℕ (pos_part a + pos_part b) (neg_part a + neg_part b)

abbrev int_neg : ℤ → ℤ
int_neg a = sub_ℕ (neg_part a) (pos_part a)

abbrev int_mul : ℤ → ℤ → ℤ
int_mul a b =
    sub_ℕ (pos_part a * pos_part b + neg_part a * neg_part b)
      (pos_part a * neg_part b + neg_part a * pos_part b)

abbrev int_lt : ℤ → ℤ → Bool
int_lt a b = ltb (pos_part a + neg_part b) (pos_part b + neg_part a)

abbrev int_abs : ℤ → ℤ
int_abs a = pos (pos_part a + neg_part a)

pub int-add_assoc : (a b c : ℤ) → int_add (int_add a b) c ≡ int_add a (int_add b c)
int-add_assoc a b c = ground arith

pub int-add_comm : (a b : ℤ) → int_add a b ≡ int_add b a
int-add_comm a b = ground arith

pub int-add-nil : (a : ℤ) → int_add a (pos 0) ≡ a
int-add-nil a = ground arith

pub int-add-neg : (a : ℤ) → int_add a (int_neg a) ≡ pos 0
int-add-neg a = ground arith

pub int-lt_irrefl : (a : ℤ) → int_lt a a ≡ false
int-lt_irrefl a = ground arith

pub int-lt_trans : (a b c : ℤ) → int_lt a b ≡ true → int_lt b c ≡ true → int_lt a c ≡ true
int-lt_trans a b c p q = ground arith

pub int-lt_tri : (a b : ℤ) → int_lt a b ≡ false → int_lt b a ≡ false → a ≡ b
int-lt_tri a b p q = ground arith

pub int-lt-sub : (a b : ℤ) → int_lt (pos 0) (int_add a (int_neg b)) ≡ int_lt b a
int-lt-sub a b = ground arith

-- Decimal digits.
abbrev digits : ℕ → Text → Option ℤ
digits n [] = some (pos n)
digits n (c ∷ s) =
    let rest = digits (n * 10 + (c - 48)) s in if leb 48 c && leb c 57 then rest else none

abbrev parse_int : Text → Option ℤ
parse_int [] = none
parse_int (c ∷ s) =
    if nat_eq c 45
    then elim (digits 0 s) [ none ↦ none | some n ↦ some (int_neg n) ]
    else digits 0 (c ∷ s)

abbrev pub sample_decimal : Decimal
sample_decimal = record {
  Num = ℤ;
  nil = pos 0;
  add = int_add;
  sub = λ a b. int_add a (int_neg b);
  mul = int_mul;
  neg = int_neg;
  abs = int_abs;
  lt = int_lt;
  parse = parse_int;
  parse_error = λ t. codes "not a decimal";
  to_text = λ n. codes "";
  add_assoc = int-add_assoc;
  add_comm = int-add_comm;
  add-nil = int-add-nil;
  add-neg = int-add-neg;
  sub-eq = λ a b. refl;
  lt_irrefl = int-lt_irrefl;
  lt_trans = int-lt_trans;
  lt_tri = int-lt_tri;
  lt-sub = int-lt-sub;
}

-- Whole numbers; no NaN and no infinity.
abbrev pub sample_float : Float
sample_float = record {
  F = ℤ;
  fzero = pos 0;
  fone = pos 1;
  hundred = pos 100;
  fadd = int_add;
  fsub = λ a b. int_add a (int_neg b);
  fmul = int_mul;
  fdiv = λ a b. pos (pos_part a / pos_part b);
  flt = int_lt;
  fle = λ a b. not (int_lt b a);
  is_nan = λ a. false;
  is_inf = λ a. false;
}

abbrev pub sample_float_laws : FloatLaws sample_float
sample_float_laws = record { lt_irrefl = int-lt_irrefl; zero_number = refl; zero_finite = refl }
