-- ===== src/OrderBook/Ordering.antt =====
-- The published side is sorted, best price first, and no deeper than asked.
use meltica_gateway.Common.{
  Bool, true, false, ◌≡◌, refl, none, some, take, if◌then◌else◌, List, [], ◌∷◌, map, arith,
  Bool-cases, inl, inr,
}
use mathlib.Core.List.{Perm}
use mathlib.Core.List.Perm
use meltica_gateway.Common.Int.{ℤ, is_positive, pos_part}
use meltica_gateway.Common.Decimal.{Decimal}
use meltica_gateway.Schema.Book.{PriceLevel}
use meltica_gateway.OrderBook.Side.{
  Side, Level, before, insert_level, sort_levels, limit_levels, collect, level_text, build_side,
}

module _ (d : Decimal) where
  open d use {Num, lt, nil, parse, to_text, lt_irrefl, lt_trans}

  -- No level is strictly better priced than the one before it.
  abbrev pub InOrder : Bool → Level d → Level d → Type 0
  InOrder true a b = lt a.price b.price ≡ false
  InOrder false a b = lt b.price a.price ≡ false

  abbrev pub Leads : Bool → Level d → List (Level d) → Type 0
  Leads bid a [] = Unit
  Leads bid a (b ∷ ls) = InOrder bid a b

  abbrev pub IsSorted : Bool → List (Level d) → Type 0
  IsSorted bid [] = Unit
  IsSorted bid (a ∷ ls) = Leads bid a ls × IsSorted bid ls

  lt_asym : (a b : Num) → lt a b ≡ true → lt b a ≡ false
  lt_asym a b h = ground (arith, lt_trans a b a h, lt_irrefl a)

  before-InOrder : (bid : Bool) (a b : Level d) → before d bid b a ≡ true → InOrder bid b a
  unfolding before
  before-InOrder true a b h = ground (arith, lt_asym a.price b.price)
  before-InOrder false a b h = ground (arith, lt_asym b.price a.price)

  behind-InOrder : (bid : Bool) (a b : Level d) → before d bid b a ≡ false → InOrder bid a b
  unfolding before
  behind-InOrder true a b h = ground arith
  behind-InOrder false a b h = ground arith

  insert-Leads :
      (bid : Bool) (b a : Level d) (ls : List (Level d))
      → InOrder bid b a
      → Leads bid b ls
      → Leads bid b (insert_level d bid a ls)
  unfolding insert_level
  insert-Leads bid b a [] h l = h
  insert-Leads bid b a (c ∷ ls) h l = elim (Bool-cases (before d bid c a)) [
    | inl e ↦ rw e l
    | inr e ↦ rw e h
  ]

  insert-IsSorted :
      (bid : Bool) (a : Level d) (ls : List (Level d))
      → IsSorted bid ls
      → IsSorted bid (insert_level d bid a ls)
  unfolding insert_level
  insert-IsSorted bid a [] v = (tt, tt)
  insert-IsSorted bid a (b ∷ ls) v = elim (Bool-cases (before d bid b a)) [
    | inl e ↦
        rw (e)
          (insert-Leads bid b a ls (before-InOrder bid a b e) v.0, insert-IsSorted bid a ls v.1)
    | inr e ↦ rw (e) (behind-InOrder bid a b e, v)
  ]

  sort_levels-IsSorted : (bid : Bool) (ls : List (Level d)) → IsSorted bid (sort_levels d bid ls)
  unfolding sort_levels
  sort_levels-IsSorted bid [] = tt
  sort_levels-IsSorted bid (a ∷ ls) = insert-IsSorted bid a _ (sort_levels-IsSorted bid ls)

  insert-perm :
      (bid : Bool) (a : Level d) (ls : List (Level d)) → Perm (insert_level d bid a ls) (a ∷ ls)
  unfolding insert_level
  insert-perm bid a [] = Perm.rfl
  insert-perm bid a (b ∷ ls) = elim (Bool-cases (before d bid b a)) [
    | inl e ↦ rw e (Perm.trans (Perm.cons b (insert-perm bid a ls)) (Perm.swap a b ls))
    | inr e ↦ rw e Perm.rfl
  ]

  sort_levels-perm : (bid : Bool) (ls : List (Level d)) → Perm (sort_levels d bid ls) ls
  unfolding sort_levels
  sort_levels-perm bid [] = Perm.rfl
  sort_levels-perm bid (a ∷ ls) =
      Perm.trans (insert-perm bid a (sort_levels d bid ls)) (Perm.cons a (sort_levels-perm bid ls))

  -- The levels of a side that are shown: those whose price is a decimal and whose quantity is above
  -- zero.
  unfoldable pub shown : Side d → List (Level d)
  shown [] = []
  shown ((key, qty) ∷ source) =
      let rest = shown source in
      elim (parse key) [
        | none ↦ rest
        | some price ↦
            if lt nil qty then record { price = price; qty = qty; key = key } ∷ rest else rest
      ]

  collect-shown : (source : Side d) → collect d source ≡ shown source
  unfolding collect shown
  collect-shown [] = refl
  collect-shown ((key, qty) ∷ source) = ground (arith, collect-shown source)

  -- A level as it is published.
  abbrev pub price_level : Level d → PriceLevel
  price_level l = record { price = to_text l.price; quantity = to_text l.qty }

  -- The levels of an arrangement that a depth allows.
  abbrev pub within : ℤ → List (Level d) → List (Level d)
  within depth ls = if is_positive depth then take (pos_part depth) ls else ls

  -- The published side is the start of an arrangement, sorted by price with the best first, of the side's
  -- levels: its first levels, as many as the depth, where that is positive, and else all of them. The
  -- levels are those whose price is a decimal and whose quantity is above zero, each with its price and
  -- quantity as texts.
  pub build_side-IsSorted :
      (depth : ℤ) (source : Side d) (bid : Bool)
      → (ls : List (Level d)) × Perm ls (shown source)
        × IsSorted bid ls
        × (build_side d depth source bid ≡ map price_level (within depth ls))
  unfolding build_side limit_levels level_text
  build_side-IsSorted depth source bid = (
    sort_levels d bid (collect d source),
    rw (← collect-shown source) (sort_levels-perm bid (collect d source)),
    sort_levels-IsSorted bid (collect d source),
    refl,
  )
