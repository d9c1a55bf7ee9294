-- ===== src/Balance/Fills.antt =====
-- Which currencies the operations on balances change.
use meltica_gateway.Common.{
  true, false, ◌||◌, ◌≡◌, ◌≢◌, refl, sym, ap, ◌∙◌, Option, none, some, [], ◌∷◌, if◌then◌else◌,
  if-both, Bool-cases, ◌==◌, ==_iff, arith, inl, inr, is_some,
}
use meltica_gateway.Common.Text.{Text, text_beq, text_beq_iff, text_eq}
use meltica_gateway.Common.Map.{Map, get, put, get-put}
use meltica_gateway.Common.Float.{Float}
use meltica_gateway.Schema.Order.{TradeSide, buy, sell, other_side}
use meltica_gateway.Schema.Instrument.{
  Instrument, normalize_currency_code, normalize_currency_code_idem,
}
use meltica_gateway.Balance.Manager.{
  BalanceState, BalanceManager, set_balance, ensure_balance, current_balance, state_or,
  adjust_currency, adjust_instrument_fill, move_base, move_quote, credit, debit, clamp_non_negative,
  normalize_balance_state, merge_balances, merge_entry, touched, dedupe_currencies, dedupe_from,
  has_code,
}

module _ (float : Float) where
  open float use {F, fzero, fadd, fsub, fmul, fle}

  abbrev State : Type 0
  State = BalanceState float

  get-adjust_currency :
      (m : BalanceManager float) (c other : Text) (move : State → State)
      → get (adjust_currency float m c move).balances other ≡ (
          if c == other
          then some (normalize_balance_state float (move (current_balance float m c)))
          else get m.balances other)
  unfolding adjust_currency ensure_balance set_balance
  get-adjust_currency m c other move =
      let s = current_balance float m c in
      let e = get-put m.balances c other s in
      let e' = get-put (put m.balances c s) c other (normalize_balance_state float (move s)) in
      e' ∙ ground (arith, e)

  merge_entry-keeps :
      (dst : Map Text State) (currency : Text) (state : State) (c : Text) (s : State)
      → get dst c ≡ some s
      → get (merge_entry float dst currency state) c ≡ some s
  unfolding merge_entry
  merge_entry-keeps dst currency state c s e =
      let code = normalize_currency_code currency in
      let P : Map Text State → Type 0 = λ d. get d c ≡ some s in
      if-both P (text_beq code []) (λ _. e)
        (λ _.
          if-both P (is_some (get dst code)) (λ _. e)
            (λ absent.
              get-put dst code c (normalize_balance_state float state)
              ∙ elim (Bool-cases (code == c)) [
                | inl p ↦
                    let same = (==_iff code c).0 p in
                    let found : is_some (get dst code) ≡ true =
                      ap (λ k. is_some (get dst k)) same ∙ ap is_some e in
                    let never : true ≡ false = sym found ∙ absent in cc
                | inr p ↦ rw p e
              ]))

  -- A merge never changes a currency that the destination has, whatever order the source is read in.
  pub merge_balances-keeps :
      (dst src : Map Text State) (c : Text) (s : State)
      → get dst c ≡ some s
      → get (merge_balances float dst src) c ≡ some s
  unfolding merge_balances
  merge_balances-keeps dst [] c s e = e
  merge_balances-keeps dst ((currency, state) ∷ src) c s e =
      merge_balances-keeps (merge_entry float dst currency state) src c s
        (merge_entry-keeps dst currency state c s e)

  touched-dedupe :
      (base quote : Text)
      → dedupe_currencies (touched (normalize_currency_code base) (normalize_currency_code quote))
        ≡ touched (normalize_currency_code base) (normalize_currency_code quote)
  unfolding dedupe_currencies touched dedupe_from has_code
  touched-dedupe base quote =
      let b = normalize_currency_code base in
      let q = normalize_currency_code quote in
      ground (
        arith,
        normalize_currency_code_idem base,
        normalize_currency_code_idem quote,
        text_beq_iff q b,
        text_beq_iff b q,
      )

  current_balance-adjust_currency :
      (m : BalanceManager float) (c other : Text) (move : State → State)
      → c ≢ other
      → current_balance float (adjust_currency float m c move) other ≡ current_balance float m other
  unfolding current_balance adjust_currency set_balance ensure_balance
  current_balance-adjust_currency m c other move differ =
      let e = get-adjust_currency m c other move in
      ap (state_or float m.default_state) (ground (arith, e, ==_iff c other, differ))

  -- The state that a manager has of a currency, or its default.
  abbrev pub tracked : BalanceManager float → Text → State
  tracked m c = elim (get m.balances c) [
    | none ↦ m.default_state
    | some s ↦ normalize_balance_state float s
  ]

  -- The state of a currency that has got an amount, from the tracked state or the default.
  abbrev pub got : BalanceManager float → Text → F → State
  got m c x =
      let s = tracked m c in
      normalize_balance_state float
        (record { total = fadd s.total x; available = fadd s.available x })

  -- That of one that has given an amount; neither part goes below zero.
  abbrev pub given : BalanceManager float → Text → F → State
  given m c x =
      let s = tracked m c in
      normalize_balance_state float (record {
        total = clamp_non_negative float (fsub s.total x);
        available = clamp_non_negative float (fsub s.available x);
      })

  -- That of one that a fill only reads.
  abbrev pub held : BalanceManager float → Text → State
  held m c = normalize_balance_state float (tracked m c)

  -- What a fill does to its base currency, and to its quote currency. A buyer gets the base and gives
  -- the quote; a seller gives the base and gets the quote.
  unfoldable pub base_after : BalanceManager float → TradeSide → Text → F → State
  base_after m buy c quantity = got m c quantity
  base_after m sell c quantity = given m c quantity
  base_after m (other_side s) c quantity = held m c

  unfoldable pub quote_after : BalanceManager float → TradeSide → Text → F → State
  quote_after m buy c notional = given m c notional
  quote_after m sell c notional = got m c notional
  quote_after m (other_side s) c notional = held m c

  current_balance-tracked :
      (m : BalanceManager float) (c : Text) → current_balance float m c ≡ tracked m c
  unfolding current_balance state_or
  current_balance-tracked m c = ground arith

  base_after-move_base :
      (m : BalanceManager float) (side : TradeSide) (c : Text) (x : F)
      → normalize_balance_state float (move_base float side (current_balance float m c) x)
        ≡ base_after m side c x
  unfolding base_after move_base credit debit
  base_after-move_base m buy c x = rw (current_balance-tracked m c) refl
  base_after-move_base m sell c x = rw (current_balance-tracked m c) refl
  base_after-move_base m (other_side s) c x = rw (current_balance-tracked m c) refl

  quote_after-move_quote :
      (m : BalanceManager float) (side : TradeSide) (c : Text) (x : F)
      → normalize_balance_state float (move_quote float side (current_balance float m c) x)
        ≡ quote_after m side c x
  unfolding quote_after move_quote credit debit
  quote_after-move_quote m buy c x = rw (current_balance-tracked m c) refl
  quote_after-move_quote m sell c x = rw (current_balance-tracked m c) refl
  quote_after-move_quote m (other_side s) c x = rw (current_balance-tracked m c) refl

  -- The state of a currency after a fill of an instrument with different currencies.
  unfoldable pub filled_state :
      BalanceManager float → Instrument F → TradeSide → F → F → Text → Option State
  filled_state m inst side quantity price c =
      let base = normalize_currency_code inst.base_currency in
      let quote = normalize_currency_code inst.quote_currency in
      let notional = clamp_non_negative float (fmul quantity price) in
      if fle quantity fzero || text_beq c []
      then get m.balances c
      else if base == c
      then some (base_after m side c quantity)
      else if quote == c
      then some (quote_after m side c notional)
      else get m.balances c

  -- A fill of an instrument with different currencies: with a quantity that is not above zero nothing
  -- changes. Else a buy adds the quantity to the total and the available amount of the base currency
  -- and takes the notional off those of the quote currency, and a sell takes the quantity off the base
  -- and adds the notional to the quote, each from the tracked state or the default, and what is taken
  -- off leaves at least zero; the outcome is normalised. Another side moves nothing, and no other
  -- currency changes.
  pub adjust_instrument_fill-get :
      (m : BalanceManager float) (inst : Instrument F) (side : TradeSide) (quantity price : F)
      (c : Text)
      → normalize_currency_code inst.base_currency ≢ normalize_currency_code inst.quote_currency
      → get ((adjust_instrument_fill float m inst side quantity price).1).balances c
        ≡ filled_state m inst side quantity price c
  unfolding adjust_instrument_fill filled_state
  adjust_instrument_fill-get m inst side quantity price c differ =
      let base = normalize_currency_code inst.base_currency in
      let quote = normalize_currency_code inst.quote_currency in
      let notional = clamp_non_negative float (fmul quantity price) in
      let moved : State → State = λ state. move_base float side state quantity in
      let paid : State → State = λ state. move_quote float side state notional in
      let m1 = adjust_currency float m base moved in
      let e1 = get-adjust_currency m base c moved in
      let e2 = get-adjust_currency m quote c paid in
      let e3 = get-adjust_currency m1 quote c paid in
      let e4 = current_balance-adjust_currency m base quote moved differ in
      ground (
        arith,
        e1,
        e2,
        e3,
        e4,
        base_after-move_base m side base quantity,
        quote_after-move_quote m side quote notional,
        ==_iff base c,
        ==_iff quote c,
        text_beq_iff c [],
        text_beq_iff base [],
        text_beq_iff quote [],
        differ,
      )

  -- A fill returns the currencies that it changes, each once: those of base and quote that are
  -- well-formed codes; none where the quantity is not above zero.
  pub adjust_instrument_fill-touched :
      (m : BalanceManager float) (inst : Instrument F) (side : TradeSide) (quantity price : F)
      → (adjust_instrument_fill float m inst side quantity price).0 ≡ (
          if fle quantity fzero
          then []
          else touched
              (normalize_currency_code inst.base_currency)
              (normalize_currency_code inst.quote_currency))
  unfolding adjust_instrument_fill
  adjust_instrument_fill-touched m inst side quantity price =
      ground (arith, touched-dedupe inst.base_currency inst.quote_currency)
