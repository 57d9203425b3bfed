-- ===== src/Storage/Filters/Tests.antt =====
-- internal/conn/memory/storage: a run of the filters, and instances of the theorems on lists.
use riposo.Prelude.{
  ◌<◌, ◌≤◌, ◌≡◌, refl, false, not, some, List, [], ◌∷◌, if◌then◌else◌, is_empty, length, Text,
  bytes, text_eq, text_lt, has_prefix, Dict, lookup, last_index_byte, ok,
}
use riposo.Path.{is_node, namespace, split}
use riposo.Schema.{Object}
use riposo.Params.{compact, conditions, conditions_from, filters_at, value}
use riposo.Storage.Tree.{get_node, each}
use riposo.Storage.Backend.{Backend}
use riposo.Storage.Txn.{begin}
use riposo.Storage.Filters.{
  Gjson, string_kind, rank, compare_text, is_greater, same_kind, get, compare, compare_as, is_equal,
  equal_as, match, match_as, condition_match, one_match, pagination_match, pagination_filter,
}
use riposo.Storage.Filters.Pages.{one_greater, only, pagination_filter-conditions}
use riposo.Storage.Lists.{ListOptions, list_all, count_all, list_all-count_all}

-- Values that are all strings, and objects whose extra text is every other field.
abbrev strings : Gjson Text
strings = record {
  kind = λ v. string_kind;
  raw = λ v. v;
  string = λ v. v;
  truth = λ v. text_eq v (bytes "true");
  exists = λ v. not (is_empty v);
  float_lt = text_lt;
  num_eq = text_eq;
  string_value = λ s. s;
  epoch_value = λ n. n ∷ [];
  bool_value = λ b. if b then bytes "true" else bytes "false";
  get_bytes = λ extra field. extra;
  zero_value = [];
  like_pattern = λ s. s;
  compile = λ p. some (λ s. has_prefix s p);
}

abbrev item : Text → Text → Object
item id extra = record { id = id; mod_time = 1; deleted = false; extra = extra }

-- In the order of the names and then of the IDs, the last object of the page and two after it.
abbrev items : List Object
items =
    item (bytes "x") (bytes "ann")
    ∷ item (bytes "y") (bytes "ann")
    ∷ item (bytes "a") (bytes "bob")
    ∷ []

abbrev last : Dict Text
last = (bytes "name", bytes "ann") ∷ (bytes "id", bytes "x") ∷ []

-- The third object comes after the last one of the page, and the next page leaves it out.
next_page : pagination_filter strings items (conditions last) ≡ item (bytes "y") (bytes "ann") ∷ []
unfolding text_eq text_lt compact conditions conditions_from filters_at value rank compare_text
    is_greater same_kind get compare compare_as is_equal equal_as match match_as condition_match
    one_match pagination_match pagination_filter
next_page = refl

pagination_filter-conditions_example :
    pagination_filter strings items (conditions last)
    ≡ (if is_empty last then items else only (λ o. one_greater strings o last) items)
pagination_filter-conditions_example = pagination_filter-conditions strings items last

abbrev backend : Backend
backend = record {
  tree =
      (
        bytes "/buckets",
        record {
          objects =
              (bytes "x", item (bytes "x") (bytes "ann"))
              ∷ (bytes "y", item (bytes "y") (bytes "ann"))
              ∷ [];
          mod_time = 1;
        },
      )
      ∷ [];
  dead = [];
  locked = false;
}

abbrev options : ListOptions Text
options = record { condition = []; pagination = []; sort = []; limit = 0; include_all = false }

count_two : count_all strings (bytes "/buckets/*") [] (begin backend) ≡ ok 2
unfolding text_eq lookup last_index_byte is_node namespace split get_node each begin condition_match
    count_all
count_two = refl

list_all-count_all_example :
    (objs : List Object) × (list_all strings (bytes "/buckets/*") options (begin backend) ≡ ok objs)
    × (0 < 0 → length objs ≤ 0)
    × (options.limit ≡ 0
        → options.pagination ≡ []
        → options.include_all ≡ false
        → count_all strings (bytes "/buckets/*") [] (begin backend) ≡ ok (length objs))
unfolding is_node begin
list_all-count_all_example =
    list_all-count_all strings (bytes "/buckets/*") options (begin backend) refl refl
