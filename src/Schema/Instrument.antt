-- ===== src/Schema/Instrument.antt =====
-- internal/domain/schema/instrument.go: the instrument and its currency codes.
use meltica_gateway.Common.{
  ℕ, Bool, true, false, ◌&&◌, ◌||◌, not, ◌≡◌, refl, sym, ap, ◌∙◌, Option, [], ◌∷◌, length, ltb,
  if◌then◌else◌, inl, inr, ◌⊎◌, if-both,
}
use meltica_gateway.Common.Text.{Text, trim_space, trim_left, trim_right, to_upper, text_beq}
use meltica_gateway.Common.Text.Laws.{trim_space_idem, trim_space-to_upper, to_upper_idem}
use meltica_gateway.Common.Int.{ℤ}

-- Instrument. The type of floats is a parameter.
pub record Instrument (F : Type 0) : Type 0 where
  pub symbol : Text
  pub kind : Text
  pub base_currency : Text
  pub quote_currency : Text
  pub venue : Text
  pub expiry : Text
  pub contract_value : Option F
  pub contract_currency : Text
  pub strike : Option F
  pub option_type : Text
  pub price_increment : Text
  pub quantity_increment : Text
  pub price_precision : Option ℤ
  pub quantity_precision : Option ℤ
  pub notional_precision : Option ℤ
  pub min_notional : Text
  pub min_quantity : Text
  pub max_quantity : Text

-- (r < 'A' || r > 'Z') && (r < '0' || r > '9')
unfoldable pub bad_char : ℕ → Bool
bad_char r = (ltb r b'A' || ltb b'Z' r) && (ltb r b'0' || ltb b'9' r)

-- isUpperAlnum
unfoldable pub is_upper_alnum : Text → Bool
is_upper_alnum [] = true
is_upper_alnum (r ∷ value) = if bad_char r then false else is_upper_alnum value

-- isCurrencyCode. Go's length is in bytes: the codes that pass are ASCII.
unfoldable pub is_currency_code : Text → Bool
is_currency_code segment =
    if ltb (length segment) 2 || ltb 10 (length segment) then false else is_upper_alnum segment

-- NormalizeCurrencyCode on the trimmed and uppercased code.
unfoldable pub checked_code : Text → Text
checked_code trimmed =
    if text_beq trimmed [] then [] else if not (is_currency_code trimmed) then [] else trimmed

-- NormalizeCurrencyCode
unfoldable pub normalize_currency_code : Text → Text
normalize_currency_code code = checked_code (to_upper (trim_space code))

checked_code-cases : (t : Text) → (checked_code t ≡ []) ⊎ (checked_code t ≡ t)
unfolding checked_code
checked_code-cases t =
    if-both (λ x. (x ≡ []) ⊎ (x ≡ t)) (text_beq t []) (λ _. inl refl)
      (λ _.
        if-both (λ x. (x ≡ []) ⊎ (x ≡ t)) (not (is_currency_code t)) (λ _. inl refl)
          (λ _. inr refl))

normalize_currency_code-nil : normalize_currency_code [] ≡ []
unfolding normalize_currency_code checked_code text_beq to_upper trim_space trim_left trim_right
normalize_currency_code-nil = refl

-- A normalised code is blank, or it is trimmed, in capitals and well-formed: it is kept.
pub normalize_currency_code_idem :
    (code : Text)
    → normalize_currency_code (normalize_currency_code code) ≡ normalize_currency_code code
unfolding normalize_currency_code
normalize_currency_code_idem code =
    let t = to_upper (trim_space code) in
    let e : to_upper (trim_space t) ≡ t =
      ap to_upper (trim_space-to_upper (trim_space code) ∙ ap to_upper (trim_space_idem code))
      ∙ to_upper_idem (trim_space code) in
    elim (checked_code-cases t) [
      | inl p ↦ ap normalize_currency_code p ∙ normalize_currency_code-nil ∙ sym p
      | inr p ↦ ap normalize_currency_code p ∙ ap checked_code e
    ]
