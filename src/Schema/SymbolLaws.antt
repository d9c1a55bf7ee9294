-- ===== src/Schema/SymbolLaws.antt =====
-- Symbols that are put together from two currency codes are read back.
use meltica_gateway.Common.{
  ℕ, true, false, ◌≡◌, refl, ap, ◌∙◌, none, [], ◌∷◌, ◌++◌, nat_eq, is_nil, arith,
}
use meltica_gateway.Common.Text.{
  Text, trim_space, trim_left, trim_right, is_space, upper, to_upper, text_beq, text_beq_iff,
}
use meltica_gateway.Common.Exec.{ok}
use meltica_gateway.Schema.Instrument.{bad_char, is_upper_alnum, is_currency_code}
use meltica_gateway.Schema.Symbol.{
  has_dash, split_dashes, check_segments, validate_instrument_symbol, base_and_quote,
  trimmed_currencies, instrument_currencies,
}

-- What a capital or digit is not.
bad_char-plain :
    (r : ℕ) → bad_char r ≡ false → (upper r ≡ r) × (is_space r ≡ false) × (nat_eq r b'-' ≡ false)
unfolding bad_char upper is_space
bad_char-plain r e = ground arith

is_upper_alnum-to_upper : (s : Text) → is_upper_alnum s ≡ true → to_upper s ≡ s
unfolding is_upper_alnum to_upper
is_upper_alnum-to_upper [] e = refl
is_upper_alnum-to_upper (r ∷ s) e = ground (arith, is_upper_alnum-to_upper s, bad_char-plain r)

split_dashes-code : (s : Text) → is_upper_alnum s ≡ true → split_dashes s ≡ s ∷ []
unfolding is_upper_alnum split_dashes
split_dashes-code [] e = refl
split_dashes-code (r ∷ s) e = ground (arith, split_dashes-code s, bad_char-plain r)

split_dashes-append :
    (s t : Text) → is_upper_alnum s ≡ true → split_dashes (s ++ b'-' ∷ t) ≡ s ∷ split_dashes t
unfolding is_upper_alnum split_dashes
split_dashes-append [] t e = refl
split_dashes-append (r ∷ s) t e = ground (arith, split_dashes-append s t, bad_char-plain r)

has_dash-append : (s t : Text) → has_dash (s ++ b'-' ∷ t) ≡ true
unfolding has_dash
has_dash-append [] t = refl
has_dash-append (r ∷ s) t = ground (arith, has_dash-append s t)

-- No capital or digit is trimmed on the right.
trim_right-code : (s : Text) → is_upper_alnum s ≡ true → trim_right s ≡ s
unfolding is_upper_alnum trim_right
trim_right-code [] e = refl
trim_right-code (r ∷ s) e = ground (arith, trim_right-code s, bad_char-plain r)

trim_right-append :
    (s t : Text) → is_upper_alnum s ≡ true → trim_right t ≡ t → trim_right (s ++ t) ≡ s ++ t
unfolding is_upper_alnum trim_right
trim_right-append [] t e p = p
trim_right-append (r ∷ s) t e p = ground (arith, trim_right-append s t, bad_char-plain r)

dash-kept : (t : Text) → trim_right t ≡ t → trim_right (b'-' ∷ t) ≡ b'-' ∷ t
unfolding trim_right is_space
dash-kept t p = ground (arith, p)

trim_left-code :
    (s t : Text) → is_nil s ≡ false → is_upper_alnum s ≡ true → trim_left (s ++ t) ≡ s ++ t
unfolding is_upper_alnum trim_left
trim_left-code [] t full e = cc full
trim_left-code (r ∷ s) t full e = ground (arith, bad_char-plain r)

-- A code is not empty and is plain.
code-plain : (s : Text) → is_currency_code s ≡ true → (is_nil s ≡ false) × (is_upper_alnum s ≡ true)
unfolding is_currency_code
code-plain [] e = ground (arith, e)
code-plain (r ∷ s) e = ground arith

trim_space-symbol :
    (base quote : Text)
    → is_currency_code base ≡ true
    → is_currency_code quote ≡ true
    → trim_space (base ++ b'-' ∷ quote) ≡ base ++ b'-' ∷ quote
unfolding trim_space
trim_space-symbol base quote pb pq =
    let (full, plain) = code-plain base pb in
    let (_, plain') = code-plain quote pq in
    ap trim_right (trim_left-code base (b'-' ∷ quote) full plain)
    ∙ trim_right-append base (b'-' ∷ quote) plain (dash-kept quote (trim_right-code quote plain'))

check_segments-codes :
    (base quote : Text)
    → is_currency_code base ≡ true
    → is_currency_code quote ≡ true
    → check_segments (base ∷ quote ∷ []) ≡ none
unfolding check_segments
check_segments-codes base quote pb pq = ground (
  arith,
  code-plain base pb,
  code-plain quote pq,
  is_upper_alnum-to_upper base,
  is_upper_alnum-to_upper quote,
  text_beq_iff (to_upper base) base,
  text_beq_iff (to_upper quote) quote,
)

symbol-full : (s t : Text) → text_beq (s ++ b'-' ∷ t) [] ≡ false
unfolding text_beq
symbol-full [] t = refl
symbol-full (r ∷ s) t = refl

-- The symbol that joins two well-formed currency codes with a dash is accepted, and its base and quote
-- are these codes.
pub instrument_currencies-join :
    (base quote : Text)
    → is_currency_code base ≡ true
    → is_currency_code quote ≡ true
    → instrument_currencies (base ++ b'-' ∷ quote) ≡ ok (base, quote)
unfolding instrument_currencies trimmed_currencies validate_instrument_symbol base_and_quote
instrument_currencies-join base quote pb pq =
    let symbol = base ++ b'-' ∷ quote in
    let (full, plain) = code-plain base pb in
    let (_, plain') = code-plain quote pq in
    let parts : split_dashes symbol ≡ base ∷ quote ∷ [] =
      split_dashes-append base quote plain ∙ ap (λ t. base ∷ t) (split_dashes-code quote plain') in
    let filled : text_beq symbol [] ≡ false = symbol-full base quote in
    ap trimmed_currencies (trim_space-symbol base quote pb pq)
    ∙ rw (filled, has_dash-append base quote, parts, check_segments-codes base quote pb pq)
        (ap base_and_quote parts)
