-- ===== src/OrderBook/Lookup.antt =====
-- What a side of the book holds at each price after a list of updates: the last word on that price.
use meltica_gateway.Common.{
  Bool, true, false, ◌&&◌, not, ◌≡◌, refl, ap, ◌∙◌, inl, inr, Option, none, some, List, [], ◌∷◌,
  arith, Option-cases, if◌then◌else◌, ◌==◌,
}
use meltica_gateway.Common.Text.{Text, trim_space, text_beq, text_eq}
use meltica_gateway.Common.Map.{get, get-put, get-delete}
use meltica_gateway.Common.Decimal.{Decimal, le}
use meltica_gateway.OrderBook.Side.{DiffLevel, Side, apply_update, update_side}

-- The update is of the price level with this key.
abbrev pub touches : DiffLevel → Text → Bool
touches u k = not (text_beq (trim_space u.price) []) && (trim_space u.price == k)

module _ (d : Decimal) where
  open d use {Num, nil, parse}

  -- A positive quantity, as a level's content.
  abbrev pub content : Option Num → Option Num
  content none = none
  content (some q) = if le d q nil then none else some q

  -- What an update puts at its price: nothing for an empty or non-positive quantity.
  abbrev pub value_of : DiffLevel → Option Num
  value_of u =
      if text_beq (trim_space u.quantity) [] then none else content (parse (trim_space u.quantity))

  -- The last word of the updates on a key that held `old`.
  abbrev pub latest : List DiffLevel → Text → Option Num → Option Num
  latest [] k old = old
  latest (u ∷ us) k old = latest us k (if touches u k then value_of u else old)

  apply_update-get :
      (t t' : Side d) (u : DiffLevel) (k : Text)
      → apply_update d t u ≡ some t'
      → get t' k ≡ (if touches u k then value_of u else get t k)
  unfolding apply_update
  apply_update-get t t' u k h = elim (Option-cases (parse (trim_space u.quantity))) [
    | inl e ↦ ground (arith, e, get-delete t (trim_space u.price) k)
    | inr (q, e) ↦
        ground (arith, e, get-delete t (trim_space u.price) k, get-put t (trim_space u.price) k q)
  ]

  -- Where every quantity parses, each price level holds after the updates what the last update of
  -- that price says, and what it held before if there is none; an empty or non-positive quantity
  -- removes the level, and an update without a price is ignored.
  pub update_side-get :
      (us : List DiffLevel) (t : Side d) (k : Text)
      → (update_side d t us).1 ≡ true
      → get (update_side d t us).0 k ≡ latest us k (get t k)
  unfolding update_side
  update_side-get [] t k h = refl
  update_side-get (u ∷ us) t k h = elim (Option-cases (apply_update d t u)) [
    | inl e ↦ absurd (let stop : false ≡ true = rw (e, update_side) at h in cc stop)
    | inr (t', e) ↦
        let read : (update_side d t' us).1 ≡ true = rw (e, update_side) at h in
        rw (e, update_side)
          (update_side-get us t' k read ∙ ap (latest us k) (apply_update-get t t' u k e))
  ]
