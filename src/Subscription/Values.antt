-- ===== src/Subscription/Values.antt =====
-- Which values diffFilters asks for.
use meltica_gateway.Common.{Bool, false, ◌&&◌, ◌||◌, ◌≡◌, none, some, List, [], ◌∷◌}
use meltica_gateway.Common.Text.{Text, text_beq, text_eq}
use meltica_gateway.Common.Map.{Map}
use meltica_gateway.Dispatcher.Table.{FilterRule}
use meltica_gateway.Dispatcher.Table.Match.{has_text}
use meltica_gateway.Dispatcher.Filters.{AnyWriter}
use meltica_gateway.Subscription.Diff.{norm_field, flatten_filter_values}

-- What a writer's values are read back as.
pub record WriterLaws (w : AnyWriter) : Type 0 where
  pub text_there : (t : Text) → w.any.is_nothing (w.from_text t) ≡ false
  pub text_back : (t : Text) → w.any.as_text (w.from_text t) ≡ some t
  pub texts_there : (ts : List Text) → w.any.is_nothing (w.from_texts ts) ≡ false
  pub texts_no_text : (ts : List Text) → w.any.as_text (w.from_texts ts) ≡ none
  pub texts_back : (ts : List Text) → w.any.as_texts (w.from_texts ts) ≡ some ts

module _ (w : AnyWriter) where
  open w use {any}
  open w.any use {V, as_items, as_texts, as_text, is_nothing, sprint}

  -- Some filter has the value under the field, each filter's value read as a set of strings.
  unfoldable pub has_value : List (FilterRule V) → Text → Text → Bool
  has_value [] key v = false
  has_value (f ∷ filters) key v =
      (text_beq key (norm_field f.field) && has_text (flatten_filter_values w f.value) v)
      || has_value filters key v
