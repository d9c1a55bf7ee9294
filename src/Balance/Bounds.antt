-- ===== src/Balance/Bounds.antt =====
-- Every balance that is kept is a finite number, not negative, and available is at most total.
use meltica_gateway.Common.{
  Bool, false, ◌&&◌, not, ◌≡◌, sym, subst, ◌∙◌, Option, none, some, List, [], ◌∷◌, if◌then◌else◌,
  if-both, Bool-cases, ◌==◌, inl, inr, option-both,
}
use meltica_gateway.Common.Text.{Text, text_beq, text_eq}
use meltica_gateway.Common.Map.{get, get-put, get-nil}
use meltica_gateway.Common.Float.{Float, FloatLaws}
use meltica_gateway.Schema.Order.{TradeSide}
use meltica_gateway.Schema.Instrument.{Instrument, normalize_currency_code}
use meltica_gateway.Balance.Manager.{
  BalanceState, BalanceManager, clamp_non_negative, number_or_zero, cap_available,
  normalize_balance_state, new_balance_manager, set_balance, current_balance, state_or,
  ensure_balance, ensure_instrument, adjust_currency, adjust_instrument_fill, update, snapshot,
  Call, step, run, ensure, fill, change, read, apply_fn, move_base,
}

module _ (float : Float) (laws : FloatLaws float) where
  open float use {F, fzero, flt, is_nan, is_inf}

  -- A finite number that is not negative.
  pub IsAmount : F → Type 0
  IsAmount x = (flt x fzero ≡ false) × (is_nan x ≡ false) × (is_inf x ≡ false)

  pub IsBalance : BalanceState float → Type 0
  IsBalance s = IsAmount s.total × IsAmount s.available × (flt s.total s.available ≡ false)

  IsAmount-fzero : IsAmount fzero
  unfolding IsAmount
  IsAmount-fzero = (laws.lt_irrefl fzero, laws.zero_number, laws.zero_finite)

  clamp_non_negative-IsAmount : (x : F) → IsAmount (clamp_non_negative float x)
  unfolding clamp_non_negative IsAmount
  clamp_non_negative-IsAmount x =
      if-both IsAmount (flt x fzero) (λ _. IsAmount-fzero)
        (λ p.
          if-both IsAmount (is_nan x) (λ _. IsAmount-fzero)
            (λ q. if-both IsAmount (is_inf x) (λ _. IsAmount-fzero) (λ r. (p, q, r))))

  cap_available-IsBalance :
      (t a : F) → IsAmount t → IsAmount a → IsBalance (cap_available float t a)
  unfolding cap_available IsBalance
  cap_available-IsBalance t a pt pa =
      let P : F → Type 0 = λ x. IsAmount x × (flt t x ≡ false) in
      let (q, r) = if-both P (flt t a) (λ _. (pt, laws.lt_irrefl t)) (λ e. (pa, e)) in (pt, q, r)

  -- What normalizeBalanceState returns is a balance.
  pub normalize_balance_state-IsBalance :
      (s : BalanceState float) → IsBalance (normalize_balance_state float s)
  unfolding normalize_balance_state
  normalize_balance_state-IsBalance s =
      cap_available-IsBalance (clamp_non_negative float (number_or_zero float s.total))
        (clamp_non_negative float (number_or_zero float s.available))
        (clamp_non_negative-IsAmount (number_or_zero float s.total))
        (clamp_non_negative-IsAmount (number_or_zero float s.available))

  -- Every balance of a manager, and its default, is one.
  pub IsSound : BalanceManager float → Type 0
  IsSound m =
      IsBalance m.default_state
      × ((c : Text) (s : BalanceState float) → get m.balances c ≡ some s → IsBalance s)

  set_balance-IsSound :
      (m : BalanceManager float) (c : Text) (s : BalanceState float)
      → IsSound m
      → IsBalance s
      → IsSound (set_balance float m c s)
  unfolding set_balance IsSound
  set_balance-IsSound m c s (d, all) ok = (
    d,
    λ c' s' e.
        let e' : (if c == c' then some s else get m.balances c') ≡ some s' =
          sym (get-put m.balances c c' s) ∙ e in
        elim (Bool-cases (c == c')) [
          | inl p ↦
              let e2 : some s ≡ some s' = rw p at e' in
              let same : s ≡ s' = cc in subst IsBalance same ok
          | inr p ↦ let e2 : get m.balances c' ≡ some s' = rw p at e' in all c' s' e2
        ],
  )

  state_or-IsBalance :
      (d : BalanceState float) (o : Option (BalanceState float))
      → IsBalance d
      → IsBalance (state_or float d o)
  unfolding state_or
  state_or-IsBalance d none p = p
  state_or-IsBalance d (some s) p = normalize_balance_state-IsBalance s

  current_balance-IsBalance :
      (m : BalanceManager float) (c : Text) → IsSound m → IsBalance (current_balance float m c)
  unfolding current_balance IsSound
  current_balance-IsBalance m c (d, all) = state_or-IsBalance m.default_state (get m.balances c) d

  ensure_balance-IsSound :
      (m : BalanceManager float) (c : Text) → IsSound m → IsSound ((ensure_balance float m c).1)
  unfolding ensure_balance
  ensure_balance-IsSound m c p =
      set_balance-IsSound m c (current_balance float m c) p (current_balance-IsBalance m c p)

  adjust_currency-IsSound :
      (m : BalanceManager float) (c : Text) (move : BalanceState float → BalanceState float)
      → IsSound m
      → IsSound (adjust_currency float m c move)
  unfolding adjust_currency ensure_balance
  adjust_currency-IsSound m c move p =
      set_balance-IsSound ((ensure_balance float m c).1) c
        (normalize_balance_state float (move (current_balance float m c)))
        (ensure_balance-IsSound m c p)
        (normalize_balance_state-IsBalance (move (current_balance float m c)))

  -- The steps that run only under a test.
  if-IsSound :
      (b : Bool) (m m' : BalanceManager float)
      → IsSound m
      → IsSound m'
      → IsSound (if b then m else m')
  if-IsSound b m m' p q = if-both IsSound b (λ _. p) (λ _. q)

  ensure_instrument-IsSound :
      (m : BalanceManager float) (inst : Instrument F)
      → IsSound m
      → IsSound (ensure_instrument float m inst)
  unfolding ensure_instrument
  ensure_instrument-IsSound m inst p =
      let base = normalize_currency_code inst.base_currency in
      let quote = normalize_currency_code inst.quote_currency in
      let m1 = if not (text_beq base []) then (ensure_balance float m base).1 else m in
      let p1 : IsSound m1 =
        if-IsSound (not (text_beq base [])) _ _ (ensure_balance-IsSound m base p) p in
      if-IsSound (not (text_beq quote []) && not (text_beq quote base)) _ _
        (ensure_balance-IsSound m1 quote p1) p1

  adjust_instrument_fill-IsSound :
      (m : BalanceManager float) (inst : Instrument F) (side : TradeSide) (quantity price : F)
      → IsSound m
      → IsSound ((adjust_instrument_fill float m inst side quantity price).1)
  unfolding adjust_instrument_fill
  adjust_instrument_fill-IsSound m inst side quantity price p =
      let base = normalize_currency_code inst.base_currency in
      let quote = normalize_currency_code inst.quote_currency in
      let moved : BalanceState float → BalanceState float =
        λ state. move_base float side state quantity in
      let m1 = if not (text_beq base []) then adjust_currency float m base moved else m in
      let p1 : IsSound m1 =
        if-IsSound (not (text_beq base [])) _ m (adjust_currency-IsSound m base moved p) p in
      if-both (λ (r : List Text × BalanceManager float). IsSound (r.1)) (float.fle quantity fzero)
        (λ _. p)
        (λ _. if-IsSound (not (text_beq quote [])) _ m1 (adjust_currency-IsSound m1 quote _ p1) p1)

  update-IsSound :
      (m : BalanceManager float) (currency : Text)
      (fn : Option (BalanceState float → BalanceState float))
      → IsSound m
      → IsSound ((update float m currency fn).1)
  unfolding update
  update-IsSound m currency fn p =
      let code = normalize_currency_code currency in
      if-both (λ (r : BalanceState float × BalanceManager float). IsSound (r.1)) (text_beq code [])
        (λ _. p)
        (λ _.
          set_balance-IsSound ((ensure_balance float m code).1) code
            (normalize_balance_state float (apply_fn float fn ((ensure_balance float m code).0)))
            (ensure_balance-IsSound m code p)
            (normalize_balance_state-IsBalance
              (apply_fn float fn ((ensure_balance float m code).0))))

  snapshot-IsSound :
      (m : BalanceManager float) (currency : Text)
      → IsSound m
      → IsSound ((snapshot float m currency).1)
  unfolding snapshot
  snapshot-IsSound m currency p =
      let code = normalize_currency_code currency in
      let P : Option (BalanceState float) × BalanceManager float → Type 0 = λ r. IsSound (r.1) in
      if-both P (text_beq code []) (λ _. p)
        (λ _.
          option-both P (get m.balances code) (λ _. p)
            (λ s _.
              set_balance-IsSound m code (normalize_balance_state float s) p
                (normalize_balance_state-IsBalance s)))

  step-IsSound : (m : BalanceManager float) (c : Call float) → IsSound m → IsSound (step float m c)
  unfolding step
  step-IsSound m (ensure inst) p = ensure_instrument-IsSound m inst p
  step-IsSound m (fill inst side quantity price) p =
      adjust_instrument_fill-IsSound m inst side quantity price p
  step-IsSound m (change currency fn) p = update-IsSound m currency fn p
  step-IsSound m (read currency) p = snapshot-IsSound m currency p

  run-IsSound :
      (m : BalanceManager float) (cs : List (Call float)) → IsSound m → IsSound (run float m cs)
  unfolding run
  run-IsSound m [] p = p
  run-IsSound m (c ∷ cs) p = run-IsSound (step float m c) cs (step-IsSound m c p)

  get-nil-some : (c : Text) (s : BalanceState float) → ¬ (get [] c ≡ some s)
  get-nil-some c s e = let e' : none ≡ some s = sym (get-nil c) ∙ e in cc

  -- Over any history of calls on a new manager, whatever defaults, quantities, prices and update
  -- functions it is given (NaN and the infinities included), every balance and the default are finite,
  -- not negative, and have available at most total.
  pub new-run-IsSound :
      (total available : F) (cs : List (Call float))
      → IsSound (run float (new_balance_manager float total available) cs)
  unfolding new_balance_manager IsSound
  new-run-IsSound total available cs = run-IsSound (new_balance_manager float total available) cs (
    normalize_balance_state-IsBalance (record { total = total; available = available }),
    λ c s e. elim (get-nil-some c s e) [ ],
  )
