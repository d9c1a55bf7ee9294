-- ===== src/Dispatcher/Registrar/Keyed.antt =====
-- Maps of routes whose keys are those of their routes, and loops over them.
use meltica_gateway.Common.{
  false, ◌≡◌, refl, sym, ap, ◌∙◌, Option, none, some, [], ◌∷◌, inl, inr, Bool-cases, if◌then◌else◌,
  arith, ◌==◌, ==_iff,
}
use meltica_gateway.Common.Map.{get, put, delete, get-nil, get-put, delete, get-delete}
use meltica_gateway.Dispatcher.Table.{Route, RouteKey, route_key, normalize_key}
use meltica_gateway.Dispatcher.Registrar.Apply.{Applied, Routes, each_route}

-- Every route stands under its own key, and a key occurs once.
unfoldable pub IsKeyed : {V : Type 0} → Routes V → Type 0
IsKeyed [] = Unit
IsKeyed ((key, route) ∷ m) =
    (normalize_key route.provider route.kind ≡ key) × ((get m key ≡ none) × IsKeyed m)

pub get-IsKeyed :
    {V : Type 0} (m : Routes V) (key : RouteKey) (route : Route V)
    → IsKeyed m
    → get m key ≡ some route
    → normalize_key route.provider route.kind ≡ key
unfolding IsKeyed get
get-IsKeyed [] key route keyed found = ground arith
get-IsKeyed ((j, s) ∷ m) key route (own, (fresh, keyed)) found =
    ground (arith, own, found, ==_iff j key, get-IsKeyed m key route keyed)

pub delete-IsKeyed :
    {V : Type 0} (m : Routes V) (key : RouteKey) → IsKeyed m → IsKeyed (delete m key)
unfolding IsKeyed delete
delete-IsKeyed [] key keyed = keyed
delete-IsKeyed ((j, s) ∷ m) key (own, (fresh, keyed)) = elim (Bool-cases (j == key)) [
  | inl same ↦ rw same (delete-IsKeyed m key keyed)
  | inr other ↦
      rw other (own, (get-delete m key j ∙ ground (arith, fresh), delete-IsKeyed m key keyed))
]

pub put-IsKeyed :
    {V : Type 0} (m : Routes V) (key : RouteKey) (route : Route V)
    → IsKeyed m
    → normalize_key route.provider route.kind ≡ key
    → IsKeyed (put m key route)
unfolding IsKeyed put
put-IsKeyed [] key route keyed own = (own, (get-nil key, tt))
put-IsKeyed ((j, s) ∷ m) key route (p, (q, keyed)) own = elim (Bool-cases (j == key)) [
  | inl same ↦ rw same (own ∙ sym ((==_iff j key).0 same), (q, keyed))
  | inr other ↦ rw other (
    p,
    (
      get-put m key j route ∙ ground (arith, q, other, ==_iff key j, ==_iff j key),
      put-IsKeyed m key route keyed own,
    ),
  )
]

-- An entry of the table after such a loop: the list's entry under the key acts on it, if there is one.
unfoldable pub after_each :
    {V : Type 0}
    → (Route V → Option (Route V) → Option (Route V))
    → Option (Route V)
    → Option (Route V)
    → Option (Route V)
after_each effect none now = now
after_each effect (some r) now = effect r now

-- A loop whose rounds change the table at their own keys only, each as `effect` says.
module _ {V : Type 0} (step : RouteKey × Route V → Applied V → Applied V)
    (effect : RouteKey → Route V → Option (Route V) → Option (Route V))
    (self : (key : RouteKey) (r : Route V) (st : Applied V)
      → normalize_key r.provider r.kind ≡ key
      → get (step (key, r) st).table.routes key ≡ effect key r (get st.table.routes key))
    (other : (key k : RouteKey) (r : Route V) (st : Applied V)
      → normalize_key r.provider r.kind ≡ key
      → (key == k) ≡ false
      → get (step (key, r) st).table.routes k ≡ get st.table.routes k) where
  get-step :
      (key k : RouteKey) (r : Route V) (st : Applied V)
      → normalize_key r.provider r.kind ≡ key
      → get (step (key, r) st).table.routes k
        ≡ (if key == k then effect k r (get st.table.routes k) else get st.table.routes k)
  get-step key k r st own = elim (Bool-cases (key == k)) [
    | inl same ↦ rw same (
        ap (get (step (key, r) st).table.routes) (sym ((==_iff key k).0 same))
        ∙ self key r st own
        ∙ ap (λ j. effect j r (get st.table.routes j)) ((==_iff key k).0 same))
    | inr apart ↦ rw apart (other key k r st own apart)
  ]

  pub get-each_route :
      (m : Routes V) (k : RouteKey) (st : Applied V)
      → IsKeyed m
      → get (each_route step m st).table.routes k
        ≡ after_each (effect k) (get m k) (get st.table.routes k)
  unfolding each_route IsKeyed get after_each
  get-each_route [] k st keyed = refl
  get-each_route ((key, r) ∷ m) k st (own, (fresh, keyed)) =
      get-each_route m k (step (key, r) st) keyed
      ∙ ap (after_each (effect k) (get m k)) (get-step key k r st own)
      ∙ elim (Bool-cases (key == k)) [
        | inl same ↦ rw same (
            ap (λ o. after_each (effect k) o (effect k r (get st.table.routes k)))
              (ap (get m) (sym ((==_iff key k).0 same)) ∙ fresh))
        | inr apart ↦ rw apart
      ]
