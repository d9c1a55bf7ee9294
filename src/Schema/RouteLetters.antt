-- ===== src/Schema/RouteLetters.antt =====
-- event.go, RouteType.Validate: which route types pass.
use meltica_gateway.Common.{ℕ, ◌≤◌, false, ◌≡◌, subst, List, [], ◌∷◌, none, is_nil, All, arith}
use meltica_gateway.Common.Text.{Text, text_beq_iff}
use meltica_gateway.Schema.Route.{
  refused_char, check_chars, check_parts, split_dots, normalize_route_type, validate_route_type,
}

-- A letter from A to Z.
unfoldable pub IsCapital : ℕ → Type 0
IsCapital c = (b'A' ≤ c) × (c ≤ b'Z')

-- Not empty, and letters from A to Z only.
unfoldable pub IsSegment : Text → Type 0
IsSegment part = (is_nil part ≡ false) × All IsCapital part

check_chars-IsCapital : (part : Text) → check_chars part ≡ none → All IsCapital part
unfolding check_chars refused_char IsCapital
check_chars-IsCapital [] e = tt
check_chars-IsCapital (ch ∷ part) e = ground (arith, check_chars-IsCapital part)

check_parts-IsSegment : (parts : List Text) → check_parts parts ≡ none → All IsSegment parts
unfolding check_parts IsSegment
check_parts-IsSegment [] e = tt
check_parts-IsSegment (part ∷ parts) e =
    ground (arith, check_parts-IsSegment parts, check_chars-IsCapital part)

-- A route type that passes is its own normal form, and its segments between dots are not empty and
-- have letters from A to Z only: a digit is refused, too.
pub validate_route_type-IsSegment :
    (r : Text)
    → validate_route_type r ≡ none
    → (normalize_route_type r ≡ r) × All IsSegment (split_dots r)
unfolding validate_route_type
validate_route_type-IsSegment r e =
    let n = normalize_route_type r in
    let same : n ≡ r = ground (arith, text_beq_iff n r) in
    let parts : check_parts (split_dots n) ≡ none = ground (arith, text_beq_iff n r) in
    (
      same,
      subst (λ x. All IsSegment (split_dots x)) same (check_parts-IsSegment (split_dots n) parts),
    )
