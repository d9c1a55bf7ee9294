-- ===== src/Common/Text/Laws.antt =====
-- Trimming and case mapping are idempotent and commute: what makes normalised keys canonical.
use mathlib.Core.Path.{◌≡◌, refl, sym, ap, ◌∙◌}
use Prim.Native.Nat.{ℕ}
use mathlib.Core.Bool.{false, ◌&&◌}
use mathlib.Core.Logic.{inl, inr}
use mathlib.Core.List.{[], ◌∷◌, map}
use native.Mathlib.Omega.{arith}
use meltica_gateway.Common.Tests.{Bool-cases}
use meltica_gateway.Common.Lists.{is_nil}
use meltica_gateway.Common.Text.{
  Text, is_space, lower, to_lower, upper, to_upper, trim_left, trim_right, trim_space,
}

lower_idem : (c : ℕ) → lower (lower c) ≡ lower c
unfolding lower
lower_idem c = ground arith

upper_idem : (c : ℕ) → upper (upper c) ≡ upper c
unfolding upper
upper_idem c = ground arith

is_space-lower : (c : ℕ) → is_space (lower c) ≡ is_space c
unfolding lower is_space
is_space-lower c = ground arith

is_space-upper : (c : ℕ) → is_space (upper c) ≡ is_space c
unfolding upper is_space
is_space-upper c = ground arith

pub to_lower_idem : (s : Text) → to_lower (to_lower s) ≡ to_lower s
unfolding to_lower
to_lower_idem [] = refl
to_lower_idem (c ∷ s) = cc (lower_idem c, to_lower_idem s)

pub to_upper_idem : (s : Text) → to_upper (to_upper s) ≡ to_upper s
unfolding to_upper
to_upper_idem [] = refl
to_upper_idem (c ∷ s) = cc (upper_idem c, to_upper_idem s)

pub to_upper-nil : to_upper [] ≡ []
unfolding to_upper
to_upper-nil = refl

-- A map on characters that keeps what is a space commutes with trimming.
module _ (f : ℕ → ℕ) (keeps : (c : ℕ) → is_space (f c) ≡ is_space c) where
  trim_left-map : (s : Text) → trim_left (map f s) ≡ map f (trim_left s)
  unfolding trim_left
  trim_left-map [] = refl
  trim_left-map (c ∷ s) = elim (Bool-cases (is_space c)) [
    | inl p ↦ rw (keeps c, p, trim_left-map s)
    | inr p ↦ rw (keeps c, p)
  ]

  is_nil-map : (s : Text) → is_nil (map f s) ≡ is_nil s
  is_nil-map [] = refl
  is_nil-map (c ∷ s) = refl

  trim_right-map : (s : Text) → trim_right (map f s) ≡ map f (trim_right s)
  unfolding trim_right
  trim_right-map [] = refl
  trim_right-map (c ∷ s) = elim (Bool-cases (is_nil (trim_right s) && is_space c)) [
    | inl p ↦ rw (trim_right-map s, is_nil-map (trim_right s), keeps c, p)
    | inr p ↦ rw (trim_right-map s, is_nil-map (trim_right s), keeps c, p)
  ]

  trim_space-map : (s : Text) → trim_space (map f s) ≡ map f (trim_space s)
  unfolding trim_space
  trim_space-map s = ap trim_right (trim_left-map s) ∙ trim_right-map (trim_left s)

pub trim_space-to_lower : (s : Text) → trim_space (to_lower s) ≡ to_lower (trim_space s)
unfolding to_lower
trim_space-to_lower s = trim_space-map lower is_space-lower s

pub trim_space-to_upper : (s : Text) → trim_space (to_upper s) ≡ to_upper (trim_space s)
unfolding to_upper
trim_space-to_upper s = trim_space-map upper is_space-upper s

trim_right_idem : (s : Text) → trim_right (trim_right s) ≡ trim_right s
unfolding trim_right
trim_right_idem [] = refl
trim_right_idem (c ∷ s) = elim (Bool-cases (is_nil (trim_right s) && is_space c)) [
  | inl p ↦ rw p
  | inr p ↦ rw (p, trim_right_idem s, p)
]

trim_left-first : (c : ℕ) (s : Text) → is_space c ≡ false → trim_left (c ∷ s) ≡ c ∷ s
unfolding trim_left
trim_left-first c s p = rw p

trim_left-kept :
    (c : ℕ) (s : Text) → is_space c ≡ false → trim_left (trim_right (c ∷ s)) ≡ trim_right (c ∷ s)
unfolding trim_left trim_right
trim_left-kept c s p = elim (Bool-cases (is_nil (trim_right s))) [
  | inl q ↦ rw (q, p, p)
  | inr q ↦ rw (q, p)
]

-- What starts with a character that is kept still does after the right end is trimmed.
trim_left-trim_right : (s : Text) → trim_left (trim_right (trim_left s)) ≡ trim_right (trim_left s)
unfolding trim_left trim_right
trim_left-trim_right [] = refl
trim_left-trim_right (c ∷ s) = elim (Bool-cases (is_space c)) [
  | inl p ↦ rw (p, trim_left-trim_right s)
  | inr p ↦
      let e = trim_left-first c s p in
      ap (λ t. trim_left (trim_right t)) e ∙ trim_left-kept c s p ∙ ap trim_right (sym e)
]

pub trim_space_idem : (s : Text) → trim_space (trim_space s) ≡ trim_space s
unfolding trim_space
trim_space_idem s = ap trim_right (trim_left-trim_right s) ∙ trim_right_idem (trim_left s)
