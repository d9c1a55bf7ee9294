-- ===== src/Subscription/Filled.antt =====
-- Lists of texts without blanks and surrounding spaces, which flattening leaves as they are.
use meltica_gateway.Common.{false, ◌≡◌, refl, ap, List, [], ◌∷◌, inl, inr, Bool-cases, if-both}
use meltica_gateway.Common.Text.{Text, text_beq, text_lt, trim_space}
use meltica_gateway.Common.Text.Laws.{trim_space_idem}
use meltica_gateway.Dispatcher.Filters.{insert_text, sort_texts, add_text}
use meltica_gateway.Subscription.Diff.{FieldDelta, keep_filled, norm_field, add_delta, add_values}
use meltica_gateway.Dispatcher.Table.Match.{has_text}

unfoldable pub IsFilled : List Text → Type 0
IsFilled [] = Unit
IsFilled (t ∷ ts) = ((trim_space t ≡ t) × (text_beq t [] ≡ false)) × IsFilled ts

pub keep_filled-IsFilled : (ts : List Text) → IsFilled (keep_filled ts)
unfolding IsFilled keep_filled
keep_filled-IsFilled [] = tt
keep_filled-IsFilled (t ∷ ts) = elim (Bool-cases (text_beq (trim_space t) [])) [
  | inl p ↦ rw p (keep_filled-IsFilled ts)
  | inr p ↦ rw p ((trim_space_idem t, p), keep_filled-IsFilled ts)
]

pub keep_filled-same : (ts : List Text) → IsFilled ts → keep_filled ts ≡ ts
unfolding IsFilled keep_filled
keep_filled-same [] filled = refl
keep_filled-same (t ∷ ts) ((trimmed, full), filled) =
    rw (trimmed, full) (ap (λ us. t ∷ us) (keep_filled-same ts filled))

add_text-IsFilled :
    (set : List Text) (t : Text) → IsFilled (t ∷ []) → IsFilled set → IsFilled (add_text set t)
unfolding IsFilled add_text
add_text-IsFilled [] t one filled = one
add_text-IsFilled (u ∷ us) t one (here, filled) =
    if-both IsFilled (text_beq u t) (λ _. (here, filled))
      (λ _. (here, add_text-IsFilled us t one filled))

insert_text-IsFilled :
    (t : Text) (ts : List Text) → IsFilled (t ∷ []) → IsFilled ts → IsFilled (insert_text t ts)
unfolding IsFilled insert_text
insert_text-IsFilled t [] one filled = one
insert_text-IsFilled t (u ∷ us) (one, _) (here, filled) =
    if-both IsFilled (text_lt u t) (λ _. (here, insert_text-IsFilled t us (one, tt) filled))
      (λ _. (one, (here, filled)))

pub sort_texts-IsFilled : (ts : List Text) → IsFilled ts → IsFilled (sort_texts ts)
unfolding IsFilled sort_texts
sort_texts-IsFilled [] filled = tt
sort_texts-IsFilled (t ∷ ts) (one, filled) =
    insert_text-IsFilled t (sort_texts ts) (one, tt) (sort_texts-IsFilled ts filled)

-- Every entry has a field whose name its key is, and values that are filled.
unfoldable pub IsClean : List FieldDelta → Type 0
IsClean [] = Unit
IsClean (d ∷ deltas) = ((norm_field d.field ≡ d.key) × IsFilled d.values) × IsClean deltas

add_delta-IsClean :
    (deltas : List FieldDelta) (key field value : Text)
    → norm_field field ≡ key
    → IsFilled (value ∷ [])
    → IsClean deltas
    → IsClean (add_delta deltas key field value)
unfolding IsClean add_delta
add_delta-IsClean [] key field value own one clean = ((own, one), tt)
add_delta-IsClean (d ∷ deltas) key field value own one ((p, filled), clean) =
    if-both IsClean (text_beq d.key key)
      (λ _. ((p, add_text-IsFilled d.values value one filled), clean))
      (λ _. ((p, filled), add_delta-IsClean deltas key field value own one clean))

pub add_values-IsClean :
    (ref : List Text) (field : Text) (values : List Text) (deltas : List FieldDelta)
    → norm_field (trim_space field) ≡ norm_field field
    → IsFilled values
    → IsClean deltas
    → IsClean (add_values ref field values deltas)
unfolding IsFilled add_values
add_values-IsClean ref field [] deltas own filled clean = clean
add_values-IsClean ref field (value ∷ values) deltas own (one, filled) clean =
    add_values-IsClean ref field values _ own filled (
      if-both IsClean (has_text ref value) (λ _. clean)
        (λ _.
          add_delta-IsClean deltas (norm_field field) (trim_space field) value own (one, tt) clean))
