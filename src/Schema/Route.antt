-- ===== src/Schema/Route.antt =====
-- Route types and events (internal/domain/schema/event.go: NormalizeRouteType, RouteType.Validate).
use meltica_gateway.Common.{
  ℕ, Bool, ◌&&◌, ◌||◌, not, List, [], ◌∷◌, Option, none, some, ltb, nat_eq, is_nil, if◌then◌else◌,
}
use meltica_gateway.Common.Text.{Text, trim_space, to_upper, text_beq}
use meltica_gateway.Schema.Order.{Time}

-- NormalizeRouteType
unfoldable pub normalize_route_type : Text → Text
normalize_route_type route =
    if text_beq (trim_space route) [] then [] else to_upper (trim_space route)

-- Why a route type is refused.
pub data RouteTypeError : Type 0 where
  required not_canonical empty_segment : RouteTypeError

-- The first segment of a split is extended by a character.
abbrev pub push_first : ℕ → List Text → List Text
push_first c [] = (c ∷ []) ∷ []
push_first c (s ∷ ss) = (c ∷ s) ∷ ss

-- strings.Split(s, ".")
unfoldable pub split_dots : Text → List Text
split_dots [] = [] ∷ []
split_dots (c ∷ s) =
    let rest = split_dots s in if nat_eq c b'.' then [] ∷ rest else push_first c rest

-- The test on a character, as the source groups it:
-- ch < 'A' || (ch > 'Z' && (ch < '0' || ch > '9')).
unfoldable pub refused_char : ℕ → Bool
refused_char ch = ltb ch b'A' || (ltb b'Z' ch && (ltb ch b'0' || ltb b'9' ch))

unfoldable pub check_chars : Text → Option RouteTypeError
unfolding refused_char
check_chars [] = none
check_chars (ch ∷ part) =
    let rest = check_chars part in if refused_char ch then some not_canonical else rest

unfoldable pub check_parts : List Text → Option RouteTypeError
check_parts [] = none
check_parts (part ∷ parts) =
    let rest = check_parts parts in
    if is_nil part
    then some empty_segment
    else elim (check_chars part) [ some e ↦ some e | none ↦ rest ]

-- RouteType.Validate: `none` is a nil error.
unfoldable pub validate_route_type : Text → Option RouteTypeError
validate_route_type r =
    let normalized = normalize_route_type r in
    if text_beq normalized []
    then some required
    else if not (text_beq normalized r)
    then some not_canonical
    else check_parts (split_dots normalized)

-- Event. The payload's type is a parameter.
pub record Event (Payload : Type 0) : Type 0 where
  pub returned : Bool
  pub event_id : Text
  pub routing_version : ℕ
  pub provider : Text
  pub symbol : Text
  pub kind : Text
  pub seq_provider : ℕ
  pub ingest_ts : Time
  pub emit_ts : Time
  pub payload : Option Payload
