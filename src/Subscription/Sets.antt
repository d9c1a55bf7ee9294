-- ===== src/Subscription/Sets.antt =====
-- Membership in the sets of strings and the deltas that diffFilters builds.
use meltica_gateway.Common.{
  Bool, false, not, ◌&&◌, ◌||◌, ◌≡◌, refl, sym, ap, ◌∙◌, List, [], ◌∷◌, arith,
}
use meltica_gateway.Common.Text.{Text, text_beq, text_beq_iff, text_eq, trim_space, to_lower}
use meltica_gateway.Common.Text.Laws.{trim_space_idem, trim_space-to_lower}
use meltica_gateway.Dispatcher.Table.Match.{has_text}
use meltica_gateway.Dispatcher.Filters.{insert_text, sort_texts, add_text, add_texts}
use meltica_gateway.Subscription.Diff.{FieldDelta, norm_field, add_delta, add_values}

pub has_text-add_text :
    (set : List Text) (t u : Text) → has_text (add_text set t) u ≡ (has_text set u || text_beq u t)
unfolding has_text add_text
has_text-add_text [] t u = ground arith
has_text-add_text (x ∷ set) t u =
    ground (arith, has_text-add_text set t u, text_beq_iff x t, text_beq_iff u x, text_beq_iff u t)

pub has_text-add_texts :
    (set ts : List Text) (u : Text)
    → has_text (add_texts set ts) u ≡ (has_text set u || has_text ts u)
unfolding has_text add_texts
has_text-add_texts set [] u = ground arith
has_text-add_texts set (t ∷ ts) u =
    ground (arith, has_text-add_texts (add_text set t) ts u, has_text-add_text set t u)

has_text-insert_text :
    (t : Text) (ts : List Text) (u : Text)
    → has_text (insert_text t ts) u ≡ (text_beq u t || has_text ts u)
unfolding has_text insert_text
has_text-insert_text t [] u = ground arith
has_text-insert_text t (x ∷ ts) u = ground (arith, has_text-insert_text t ts u)

pub has_text-sort_texts : (ts : List Text) (u : Text) → has_text (sort_texts ts) u ≡ has_text ts u
unfolding has_text sort_texts
has_text-sort_texts [] u = refl
has_text-sort_texts (t ∷ ts) u =
    ground (arith, has_text-insert_text t (sort_texts ts) u, has_text-sort_texts ts u)

pub norm_field-trim_space : (field : Text) → norm_field (trim_space field) ≡ norm_field field
unfolding norm_field
norm_field-trim_space field =
    trim_space-to_lower (trim_space field)
    ∙ ap to_lower (trim_space_idem field)
    ∙ sym (trim_space-to_lower field)

-- Some entry has the value under the key.
unfoldable pub has_delta : List FieldDelta → Text → Text → Bool
has_delta [] key value = false
has_delta (d ∷ deltas) key value =
    (text_beq key d.key && has_text d.values value) || has_delta deltas key value

has_delta-add_delta :
    (deltas : List FieldDelta) (key field value k v : Text)
    → has_delta (add_delta deltas key field value) k v
      ≡ (has_delta deltas k v || (text_beq k key && text_beq v value))
unfolding has_delta add_delta has_text
has_delta-add_delta [] key field value k v = ground arith
has_delta-add_delta (d ∷ deltas) key field value k v = ground (
  arith,
  has_delta-add_delta deltas key field value k v,
  has_text-add_text d.values value v,
  text_beq_iff d.key key,
)

pub has_delta-add_values :
    (ref : List Text) (field : Text) (values : List Text) (deltas : List FieldDelta) (k v : Text)
    → has_delta (add_values ref field values deltas) k v ≡ (
        has_delta deltas k v
        || (text_beq k (norm_field field) && (has_text values v && not (has_text ref v))))
unfolding has_text add_values
has_delta-add_values ref field [] deltas k v = ground arith
has_delta-add_values ref field (value ∷ values) deltas k v = ground (
  arith,
  has_delta-add_values ref field values deltas k v,
  has_delta-add_values ref field values
      (add_delta deltas (norm_field field) (trim_space field) value) k v,
  has_delta-add_delta deltas (norm_field field) (trim_space field) value k v,
  text_beq_iff v value,
)
