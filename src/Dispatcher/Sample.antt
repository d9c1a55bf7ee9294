-- ===== src/Dispatcher/Sample.antt =====
-- Filter values for examples.
use meltica_gateway.Common.{Option, none, some, List, [], false}
use meltica_gateway.Common.Text.{Text}
use meltica_gateway.Dispatcher.Filters.{AnyWriter}

-- A string or a list of strings.
pub data Words : Type 0 where
  word : Text → Words
  words : List Text → Words

abbrev pub words_text : Words → Option Text
words_text (word t) = some t
words_text (words ts) = none

abbrev pub words_list : Words → Option (List Text)
words_list (word t) = none
words_list (words ts) = some ts

abbrev pub words_print : Words → Text
words_print (word t) = t
words_print (words ts) = []

abbrev pub writer : AnyWriter
writer = record {
  any = record {
    V = Words;
    as_map = λ v. none;
    as_items = λ v. none;
    as_texts = words_list;
    as_text = words_text;
    is_nothing = λ v. false;
    sprint = words_print;
  };
  from_text = word;
  from_texts = words;
}
