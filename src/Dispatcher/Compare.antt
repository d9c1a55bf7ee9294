-- ===== src/Dispatcher/Compare.antt =====
-- route_compare.go: when two routes are the same. Signatures are compared as sorted lists.
use meltica_gateway.Common.{
  suc, Bool, true, false, ◌&&◌, ◌≡◌, refl, List, [], ◌∷◌, ◌++◌, map, length, nat_eq, arith,
}
use meltica_gateway.Common.Text.{Text, text_beq, text_beq_iff, trim_space, to_lower}
use meltica_gateway.Common.Int.{ℤ, pos, negsuc}
use meltica_gateway.Publisher.Emit.{uint64_text}
use meltica_gateway.Dispatcher.Table.{Route, RestFn, FilterRule}
use meltica_gateway.Dispatcher.Filters.{AnyWriter, sort_texts, flatten_values}

-- The loop over two sorted lists of one length.
unfoldable pub equal_texts : List Text → List Text → Bool
equal_texts [] [] = true
equal_texts [] (u ∷ us) = false
equal_texts (t ∷ ts) [] = false
equal_texts (t ∷ ts) (u ∷ us) = text_beq t u && equal_texts ts us

-- The three comparisons once their members have become strings.
unfoldable pub equal_sorted : List Text → List Text → Bool
equal_sorted a b = nat_eq (length a) (length b) && equal_texts (sort_texts a) (sort_texts b)

-- equalStringSets
unfoldable pub equal_string_sets : List Text → List Text → Bool
equal_string_sets a b = equal_sorted (map trim_space a) (map trim_space b)

-- %d of a duration, at most 19 digits and a sign.
unfoldable pub int_text : ℤ → Text
int_text (pos n) = uint64_text n
int_text (negsuc n) = b'-' ∷ uint64_text (suc n)

-- restSignature
unfoldable pub rest_signature : RestFn → Text
rest_signature fn =
    trim_space fn.name
    ++ b'|'
      ∷ (trim_space fn.endpoint ++ b'|' ∷ (int_text fn.interval ++ b'|' ∷ trim_space fn.parser))

-- equalRestFns
unfoldable pub equal_rest_fns : List RestFn → List RestFn → Bool
equal_rest_fns a b = equal_sorted (map rest_signature a) (map rest_signature b)

-- strings.Join(values, ",")
unfoldable pub join_commas : List Text → Text
join_commas [] = []
join_commas (t ∷ []) = t
join_commas (t ∷ u ∷ ts) = t ++ b',' ∷ join_commas (u ∷ ts)

module _ (w : AnyWriter) where
  open w use {any}
  open w.any use {V}

  -- filterSignature
  unfoldable pub filter_signature : FilterRule V → Text
  filter_signature filter =
      trim_space (to_lower filter.field)
      ++ b'|'
        ∷ (trim_space (to_lower filter.op)
            ++ b'|' ∷ join_commas (sort_texts (flatten_values w filter.value)))

  -- equalFilters
  unfoldable pub equal_filters : List (FilterRule V) → List (FilterRule V) → Bool
  equal_filters a b = equal_sorted (map filter_signature a) (map filter_signature b)

  -- EqualRoutes
  unfoldable pub equal_routes : Route V → Route V → Bool
  equal_routes a b =
      text_beq (trim_space (to_lower a.provider)) (trim_space (to_lower b.provider))
      && text_beq a.kind b.kind
      && equal_string_sets a.ws_topics b.ws_topics
      && equal_rest_fns a.rest_fns b.rest_fns
      && equal_filters a.filters b.filters

equal_texts_refl : (ts : List Text) → equal_texts ts ts ≡ true
unfolding equal_texts
equal_texts_refl [] = refl
equal_texts_refl (t ∷ ts) = ground (arith, text_beq_iff t t, equal_texts_refl ts)

pub equal_sorted_refl : (ts : List Text) → equal_sorted ts ts ≡ true
unfolding equal_sorted
equal_sorted_refl ts = ground (arith, equal_texts_refl (sort_texts ts))
