-- ===== src/Risk/Slots.antt =====
-- The slots that limit concurrent orders (risk.go: inflight) against the orders that are open.
pub mod Counts
pub mod Invariant
pub mod Bound
use meltica_gateway.Common.{ℕ, ◌+◌, ◌≡◌, none, List, [], ◌∷◌, or_else, if◌then◌else◌, ◌==◌}
use meltica_gateway.Common.Text.{Text, text_eq}
use meltica_gateway.Common.Map.{Map, get}
use meltica_gateway.Risk.Types.{Outside, OrderState, Manager}

module _ {o : Outside} where
  -- m.inflight[symbol]
  abbrev pub slots : Manager o → Text → ℕ
  slots m symbol = or_else (get m.inflight symbol) 0

  abbrev pub unit_of : OrderState o → Text → ℕ
  unit_of order symbol = if order.symbol == symbol then 1 else 0

  -- How many entries of the order map are of the symbol.
  abbrev pub count_open : Map Text (OrderState o) → Text → ℕ
  count_open [] symbol = 0
  count_open ((id, order) ∷ orders) symbol = unit_of order symbol + count_open orders symbol

-- No key occurs twice.
abbrev pub Distinct : {V : Type 0} → Map Text V → Type 0
Distinct [] = Unit
Distinct ((k, v) ∷ m) = (get m k ≡ none) × Distinct m
