-- ===== src/Common/Float.antt =====
-- IEEE 754 float64 as a parameter: the operations that the components use and the few laws of its
-- order and of zero.
use mathlib.Core.Bool.{Bool, false}
use mathlib.Core.Path.{◌≡◌}

pub record Float : Type 1 where
  pub F : Type 0
  pub fzero : F
  pub fone : F
  pub hundred : F
  pub fadd : F → F → F
  pub fsub : F → F → F
  pub fmul : F → F → F
  pub fdiv : F → F → F
  pub flt : F → F → Bool
  pub fle : F → F → Bool
  pub is_nan : F → Bool
  pub is_inf : F → Bool

-- What IEEE 754 says of the order and of zero.
pub record FloatLaws (float : Float) : Type 0 where
  pub lt_irrefl : (x : float.F) → float.flt x x ≡ false
  pub zero_number : float.is_nan float.fzero ≡ false
  pub zero_finite : float.is_inf float.fzero ≡ false
