-- ===== src/Common/Map.antt =====
-- Go's maps as association lists: read, write and delete. A key occurs at most once.
use mathlib.Core.Path.{◌≡◌, refl, ◌∙◌}
use mathlib.Core.Option.{Option, none, some}
use mathlib.Core.List.{List, [], ◌∷◌}
use native.Mathlib.Omega.{arith}
use meltica_gateway.Common.Tests.{if◌then◌else◌}
use meltica_gateway.Common.Keys.{Key, ◌==◌, ==_iff, ==_refl}

abbrev pub Map : Type 0 → Type 0 → Type 0
Map K V = List (K × V)

module _ {K V : Type 0} ⦃key : Key K⦄ where
  -- v, ok := m[k]
  unfoldable pub get : Map K V → K → Option V
  get [] k = none
  get ((j, v) ∷ m) k = if j == k then some v else get m k

  -- m[k] = v
  unfoldable pub put : Map K V → K → V → Map K V
  put [] k v = (k, v) ∷ []
  put ((j, w) ∷ m) k v = if j == k then (j, v) ∷ m else (j, w) ∷ put m k v

  -- delete(m, k)
  unfoldable pub delete : Map K V → K → Map K V
  delete [] k = []
  delete ((j, w) ∷ m) k = let rest = delete m k in if j == k then rest else (j, w) ∷ rest

  pub get-nil : (k : K) → get [] k ≡ none
  unfolding get
  get-nil k = refl

  pub get-put :
      (m : Map K V) (k j : K) (v : V) → get (put m k v) j ≡ (if k == j then some v else get m j)
  unfolding get put
  get-put [] k j v = refl
  get-put ((i, w) ∷ m) k j v = ground (arith, get-put m k j v, ==_iff i k, ==_iff i j, ==_iff k j)

  pub get-put_self : (m : Map K V) (k : K) (v : V) → get (put m k v) k ≡ some v
  get-put_self m k v = get-put m k k v ∙ rw (==_refl k)

  pub get-delete : (m : Map K V) (k j : K) → get (delete m k) j ≡ (if k == j then none else get m j)
  unfolding get delete
  get-delete [] k j = ground arith
  get-delete ((i, w) ∷ m) k j = ground (arith, get-delete m k j, ==_iff i k, ==_iff i j, ==_iff k j)

pub ruleset map_laws = (get-nil, get-put, get-delete)
