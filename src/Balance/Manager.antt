-- ===== src/Balance/Manager.antt =====
-- accounting.go: BalanceManager's state and operations, over any floats.
use meltica_gateway.Common.{
  Bool, false, ◌&&◌, ◌||◌, not, Option, none, some, List, [], ◌∷◌, length, leb, if◌then◌else◌,
  is_some,
}
use meltica_gateway.Common.Text.{Text, text_beq, text_eq}
use meltica_gateway.Common.Map.{Map, get, put}
use meltica_gateway.Common.Float.{Float}
use meltica_gateway.Schema.Order.{TradeSide, buy, sell, other_side}
use meltica_gateway.Schema.Instrument.{Instrument, normalize_currency_code}

-- BalanceState
pub record BalanceState (float : Float) : Type 0 where
  pub total : float.F
  pub available : float.F

-- BalanceManager
pub record BalanceManager (float : Float) : Type 0 where
  pub balances : Map Text (BalanceState float)
  pub default_state : BalanceState float

-- _, ok := seen[entry]
unfoldable pub has_code : List Text → Text → Bool
has_code [] entry = false
has_code (code ∷ seen) entry = text_beq code entry || has_code seen entry

-- The loop of dedupeCurrencies; `seen` has the entries of `out`.
unfoldable pub dedupe_from : List Text → List Text → List Text
dedupe_from seen [] = []
dedupe_from seen (entry ∷ list) =
    let code = normalize_currency_code entry in
    let skipped = dedupe_from seen list in
    let taken = code ∷ dedupe_from (code ∷ seen) list in
    if text_beq code [] then skipped else if has_code seen code then skipped else taken

-- dedupeCurrencies
unfoldable pub dedupe_currencies : List Text → List Text
dedupe_currencies list = if leb (length list) 1 then list else dedupe_from [] list

-- The currencies that AdjustInstrumentFill collects.
unfoldable pub touched : Text → Text → List Text
touched base quote =
    let quotes = if not (text_beq quote []) && not (text_beq quote base) then quote ∷ [] else [] in
    if not (text_beq base []) then base ∷ quotes else quotes

module _ (float : Float) where
  open float use {F, fzero, fadd, fsub, fmul, flt, fle, is_nan, is_inf}

  -- clampNonNegative
  unfoldable pub clamp_non_negative : F → F
  clamp_non_negative value =
      if flt value fzero
      then fzero
      else if is_nan value
      then fzero
      else if is_inf value
      then fzero
      else value

  -- A NaN counts as zero.
  unfoldable pub number_or_zero : F → F
  number_or_zero value = if is_nan value then fzero else value

  -- The last step of normalizeBalanceState: available is at most total.
  unfoldable pub cap_available : F → F → BalanceState float
  cap_available total available = record {
    total = total;
    available = if flt total available then total else available;
  }

  -- normalizeBalanceState
  unfoldable pub normalize_balance_state : BalanceState float → BalanceState float
  normalize_balance_state state =
      cap_available (clamp_non_negative (number_or_zero state.total))
        (clamp_non_negative (number_or_zero state.available))

  -- NewBalanceManager
  unfoldable pub new_balance_manager : F → F → BalanceManager float
  new_balance_manager default_total default_available = record {
    balances = [];
    default_state =
        normalize_balance_state (record { total = default_total; available = default_available });
  }

  -- m.balances[currency] = state
  unfoldable pub set_balance :
      BalanceManager float → Text → BalanceState float → BalanceManager float
  set_balance m currency state = record m { balances = put m.balances currency state }

  -- The state that is tracked, or the default.
  unfoldable pub state_or : BalanceState float → Option (BalanceState float) → BalanceState float
  state_or default_state none = default_state
  state_or default_state (some state) = normalize_balance_state state

  -- What ensureBalanceLocked returns and stores.
  unfoldable pub current_balance : BalanceManager float → Text → BalanceState float
  current_balance m currency = state_or m.default_state (get m.balances currency)

  -- ensureBalanceLocked
  unfoldable pub ensure_balance :
      BalanceManager float → Text → BalanceState float × BalanceManager float
  ensure_balance m currency =
      (current_balance m currency, set_balance m currency (current_balance m currency))

  -- EnsureInstrument
  unfoldable pub ensure_instrument : BalanceManager float → Instrument F → BalanceManager float
  ensure_instrument m inst =
      let base = normalize_currency_code inst.base_currency in
      let quote = normalize_currency_code inst.quote_currency in
      let m1 = if not (text_beq base []) then (ensure_balance m base).1 else m in
      if not (text_beq quote []) && not (text_beq quote base)
      then (ensure_balance m1 quote).1
      else m1

  -- The switch on the side for one currency: what comes in is added, what goes out is taken off.
  unfoldable pub credit : BalanceState float → F → BalanceState float
  credit state x = record { total = fadd state.total x; available = fadd state.available x }

  unfoldable pub debit : BalanceState float → F → BalanceState float
  debit state x = record {
    total = clamp_non_negative (fsub state.total x);
    available = clamp_non_negative (fsub state.available x);
  }

  unfoldable pub move_base : TradeSide → BalanceState float → F → BalanceState float
  move_base buy state quantity = credit state quantity
  move_base sell state quantity = debit state quantity
  move_base (other_side s) state quantity = state

  unfoldable pub move_quote : TradeSide → BalanceState float → F → BalanceState float
  move_quote buy state notional = debit state notional
  move_quote sell state notional = credit state notional
  move_quote (other_side s) state notional = state

  -- One of the two blocks of AdjustInstrumentFill: read or seed, move, normalise, store.
  unfoldable pub adjust_currency :
      BalanceManager float → Text → (BalanceState float → BalanceState float) → BalanceManager float
  adjust_currency m currency move =
      let (state, m1) = ensure_balance m currency in
      set_balance m1 currency (normalize_balance_state (move state))

  -- AdjustInstrumentFill
  unfoldable pub adjust_instrument_fill :
      BalanceManager float → Instrument F → TradeSide → F → F → List Text × BalanceManager float
  adjust_instrument_fill m inst side quantity price =
      let base = normalize_currency_code inst.base_currency in
      let quote = normalize_currency_code inst.quote_currency in
      let notional = clamp_non_negative (fmul quantity price) in
      let m1 =
        if not (text_beq base [])
        then adjust_currency m base (λ state. move_base side state quantity)
        else m in
      let m2 =
        if not (text_beq quote [])
        then adjust_currency m1 quote (λ state. move_quote side state notional)
        else m1 in
      if fle quantity fzero then ([], m) else (dedupe_currencies (touched base quote), m2)

  abbrev zero_state : BalanceState float
  zero_state = record { total = fzero; available = fzero }

  -- fn(state) where fn is not nil
  abbrev pub apply_fn :
      Option (BalanceState float → BalanceState float) → BalanceState float → BalanceState float
  apply_fn none state = state
  apply_fn (some fn) state = fn state

  -- Update
  unfoldable pub update :
      BalanceManager float
      → Text
      → Option (BalanceState float → BalanceState float)
      → BalanceState float × BalanceManager float
  update m currency fn =
      let normalized = normalize_currency_code currency in
      let (state, m1) = ensure_balance m normalized in
      let state' = normalize_balance_state (apply_fn fn state) in
      if text_beq normalized [] then (zero_state, m) else (state', set_balance m1 normalized state')

  -- Snapshot
  unfoldable pub snapshot :
      BalanceManager float → Text → Option (BalanceState float) × BalanceManager float
  snapshot m currency =
      let normalized = normalize_currency_code currency in
      if text_beq normalized [] then (none, m) else elim (get m.balances normalized) [
        | none ↦ (none, m)
        | some state ↦
            let state' = normalize_balance_state state in
            (some state', set_balance m normalized state')
      ]

  -- snapshotAll, what Range passes to its function
  unfoldable pub snapshot_all : Map Text (BalanceState float) → Map Text (BalanceState float)
  snapshot_all [] = []
  snapshot_all ((currency, state) ∷ balances) =
      (currency, normalize_balance_state state) ∷ snapshot_all balances

  -- One entry of MergeBalances.
  unfoldable pub merge_entry :
      Map Text (BalanceState float) → Text → BalanceState float → Map Text (BalanceState float)
  merge_entry dst currency state =
      let code = normalize_currency_code currency in
      if text_beq code []
      then dst
      else if is_some (get dst code)
      then dst
      else put dst code (normalize_balance_state state)

  -- MergeBalances: `src` in the order of the iteration.
  unfoldable pub merge_balances :
      Map Text (BalanceState float) → Map Text (BalanceState float) → Map Text (BalanceState float)
  merge_balances dst [] = dst
  merge_balances dst ((currency, state) ∷ src) = merge_balances (merge_entry dst currency state) src

  -- The calls on a manager.
  pub data Call : Type 0 where
    ensure : Instrument F → Call
    fill : Instrument F → TradeSide → F → F → Call
    change : Text → Option (BalanceState float → BalanceState float) → Call
    read : Text → Call

  unfoldable pub step : BalanceManager float → Call → BalanceManager float
  step m (ensure inst) = ensure_instrument m inst
  step m (fill inst side quantity price) = (adjust_instrument_fill m inst side quantity price).1
  step m (change currency fn) = (update m currency fn).1
  step m (read currency) = (snapshot m currency).1

  unfoldable pub run : BalanceManager float → List Call → BalanceManager float
  run m [] = m
  run m (c ∷ cs) = run (step m c) cs
