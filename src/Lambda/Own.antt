-- ===== src/Lambda/Own.antt =====
-- The keys of the manager's map of specs.
use meltica_gateway.Common.{Bool, true, ◌&&◌, ◌≡◌, refl, some, is_some, [], ◌∷◌, arith}
use meltica_gateway.Common.Text.{Text, text_beq, text_beq_iff, text_eq, trim_space}
use meltica_gateway.Common.Map.{Map, get, put, delete}
use meltica_gateway.Lambda.Spec.{LambdaSpec}

-- Each spec of a map stands under its own id, which has no spaces around it.
unfoldable pub own_ids : {C : Type 0} → Map Text (LambdaSpec C) → Bool
own_ids [] = true
own_ids ((id, spec) ∷ specs) = text_beq spec.id id && text_beq (trim_space id) id && own_ids specs

pub own_ids-get :
    {C : Type 0} (specs : Map Text (LambdaSpec C)) (id : Text) (spec : LambdaSpec C)
    → own_ids specs ≡ true
    → get specs id ≡ some spec
    → (spec.id ≡ id) × (trim_space id ≡ id)
unfolding own_ids get
own_ids-get [] id spec own found = ground (arith, found)
own_ids-get ((j, s) ∷ specs) id spec own found = ground (
  arith,
  own,
  found,
  text_beq_iff s.id j,
  text_beq_iff (trim_space j) j,
  text_beq_iff j id,
  own_ids-get specs id spec,
)

pub own_ids-key :
    {C : Type 0} (specs : Map Text (LambdaSpec C)) (id : Text)
    → own_ids specs ≡ true
    → is_some (get specs id) ≡ true
    → trim_space id ≡ id
unfolding own_ids get
own_ids-key [] id own found = ground (arith, found)
own_ids-key ((j, s) ∷ specs) id own found =
    ground
      (arith, own, found, text_beq_iff (trim_space j) j, text_beq_iff j id, own_ids-key specs id)

pub own_ids-put :
    {C : Type 0} (specs : Map Text (LambdaSpec C)) (id : Text) (spec : LambdaSpec C)
    → spec.id ≡ id
    → trim_space id ≡ id
    → own_ids specs ≡ true
    → own_ids (put specs id spec) ≡ true
unfolding own_ids put
own_ids-put [] id spec own trimmed rest =
    ground (arith, own, trimmed, text_beq_iff spec.id id, text_beq_iff (trim_space id) id)
own_ids-put ((j, s) ∷ specs) id spec own trimmed rest = ground (
  arith,
  own,
  trimmed,
  rest,
  text_beq_iff spec.id j,
  text_beq_iff j id,
  own_ids-put specs id spec own trimmed,
)

pub own_ids-delete :
    {C : Type 0} (specs : Map Text (LambdaSpec C)) (id : Text)
    → own_ids specs ≡ true
    → own_ids (delete specs id) ≡ true
unfolding own_ids delete
own_ids-delete [] id own = refl
own_ids-delete ((j, s) ∷ specs) id own = ground (arith, own, own_ids-delete specs id)
