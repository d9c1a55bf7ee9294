-- ===== src/Common/Keys.antt =====
-- What a type must have to be the key of a map: a test that tells equal keys from different ones.
use mathlib.Core.Bool.{Bool, true}
use mathlib.Core.Logic.{◌↔◌}
use mathlib.Core.Path.{◌≡◌, refl}

pub record Key {κ} (K : Type κ) : Type κ where
  pub same : K → K → Bool
  pub same_iff : (j k : K) → (same j k ≡ true) ↔ (j ≡ k)

module _ {κ} {K : Type κ} ⦃key : Key K⦄ where
  -- The test as an operator, for every key type.
  infix 50 ◌==◌
  abbrev pub ◌==◌ : K → K → Bool
  j == k = key.same j k

  pub ==_iff : (j k : K) → ((j == k) ≡ true) ↔ (j ≡ k)
  ==_iff j k = key.same_iff j k

  pub ==_refl : (k : K) → (k == k) ≡ true
  ==_refl k = (key.same_iff k k).1 refl
