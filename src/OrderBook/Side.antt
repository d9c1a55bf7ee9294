-- ===== src/OrderBook/Side.antt =====
-- One side of the book: the map from trimmed price texts to quantities, how snapshots and diffs write
-- it, and how it is read back (replaceSideLocked, updateSideLocked, buildSideSnapshotLocked).
use meltica_gateway.Common.{
  Bool, true, false, ◌&&◌, not, Option, none, some, List, [], ◌∷◌, map, take, if◌then◌else◌,
}
use meltica_gateway.Common.Text.{Text, codes, trim_space, text_beq, text_eq, text_lt}
use meltica_gateway.Common.Map.{Map, put, delete}
use meltica_gateway.Common.Int.{ℤ, is_positive, pos_part}
use meltica_gateway.Common.Decimal.{Decimal, le}
use meltica_gateway.Schema.Book.{PriceLevel}

-- DiffLevel
pub record DiffLevel : Type 0 where
  pub price : Text
  pub quantity : Text

module _ (d : Decimal) where
  open d use {Num, nil, lt, parse, to_text}

  abbrev pub Side : Type 0
  Side = Map Text Num

  -- The result of a loop over levels that may stop at an error: the map as it then is, and whether
  -- every level was read.
  abbrev pub Written : Type 0
  Written = Side × Bool

  -- The loop of replaceSideLocked.
  unfoldable pub add_levels : Side → List PriceLevel → Written
  add_levels target [] = (target, true)
  add_levels target (level ∷ levels) = elim (parse (trim_space level.quantity)) [
    | none ↦ (target, false)
    | some qty ↦
        add_levels (if le d qty nil then target else put target (trim_space level.price) qty) levels
  ]

  -- replaceSideLocked: the target is emptied first.
  unfoldable pub replace_side : List PriceLevel → Written
  unfolding add_levels
  replace_side levels = add_levels [] levels

  -- What one update does to a side; `none` is a quantity that does not parse.
  unfoldable pub apply_update : Side → DiffLevel → Option Side
  apply_update target update =
      if text_beq (trim_space update.price) (codes "")
      then some target
      else if text_beq (trim_space update.quantity) (codes "")
      then some (delete target (trim_space update.price))
      else elim (parse (trim_space update.quantity)) [
        | none ↦ none
        | some qty ↦ some (
            if le d qty nil
            then delete target (trim_space update.price)
            else put target (trim_space update.price) qty)
      ]

  -- updateSideLocked
  unfoldable pub update_side : Side → List DiffLevel → Written
  update_side target [] = (target, true)
  update_side target (update ∷ updates) = elim (apply_update target update) [
    | none ↦ (target, false)
    | some target' ↦ update_side target' updates
  ]

  -- A level of the snapshot being built.
  pub record Level : Type 0 where
    pub price : Num
    pub qty : Num
    pub key : Text

  -- The levels whose price parses and whose quantity is positive.
  unfoldable pub collect : Side → List Level
  collect [] = []
  collect ((key, qty) ∷ source) =
      let rest = collect source in
      elim (parse key) [
        | none ↦ rest
        | some price ↦
            if le d qty nil then rest else record { price = price; qty = qty; key = key } ∷ rest
      ]

  -- The comparison of the sort: best price first, and then the price's text.
  unfoldable pub before : Bool → Level → Level → Bool
  before true a b =
      if lt b.price a.price then true else not (lt a.price b.price) && text_lt a.key b.key
  before false a b =
      if lt a.price b.price then true else not (lt b.price a.price) && text_lt a.key b.key

  unfoldable pub insert_level : Bool → Level → List Level → List Level
  insert_level bid a [] = a ∷ []
  insert_level bid a (b ∷ ls) =
      let rest = insert_level bid a ls in if before bid b a then b ∷ rest else a ∷ b ∷ ls

  -- sort.Slice by `before`, as an insertion sort.
  unfoldable pub sort_levels : Bool → List Level → List Level
  unfolding insert_level
  sort_levels bid [] = []
  sort_levels bid (a ∷ ls) = insert_level bid a (sort_levels bid ls)

  -- The first `depth` levels, or all if the depth is not positive.
  unfoldable pub limit_levels {ℓ} : {A : Type ℓ} → ℤ → List A → List A
  limit_levels depth ls = if is_positive depth then take (pos_part depth) ls else ls

  unfoldable pub level_text : Level → PriceLevel
  level_text l = record { price = to_text l.price; quantity = to_text l.qty }

  -- buildSideSnapshotLocked
  unfoldable pub build_side : ℤ → Side → Bool → List PriceLevel
  unfolding collect sort_levels limit_levels level_text
  build_side depth source bid =
      map level_text (limit_levels depth (sort_levels bid (collect source)))
