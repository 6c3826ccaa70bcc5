-- ===== src/Tests/Source.antt =====
-- Tests of the table filters and the table names, and their theorems at concrete tables.
use transferdb.Prelude.{Bool, true, false, not, ◌&&◌, List, [], ◌∷◌, filter, some, ok, ◌≡◌, refl}
use transferdb.Text.{Text, codes, text_eq, to_upper}
use transferdb.Dict.{get, set}
use transferdb.Common.Sets.{is_contain_string}
use transferdb.Filter.Parser.{parse_loop, parse_from, wildcard_range, class_items, class_text}
use transferdb.Filter.{
  string_matcher, regexp_matcher, new_regexp_matcher, parse_pattern, parse, match_table,
}
use transferdb.Reverse.TableName.{
  TableNameRule, custom_table_name_rule, collect_names, change_table_name,
}
use transferdb.Reverse.Tables.{chosen_tables}
use transferdb.Reverse.Tables.Selection.{
  AreUpper, is_contain_string-filter, filter-AreUpper, include_or_exclude,
}

-- no expression fails to compile, and none matches
abbrev all_compile : Text → Bool
all_compile _ = true

abbrev none_match : Text → Text → Bool
none_match _ _ = false

test_wildcard :
    parse_pattern all_compile (codes "T[!a]*?")
    ≡ ok (regexp_matcher (codes "(?i)(^|([\\s\\t\\n]+))T[^a].*.$"))
unfolding parse_pattern parse_loop parse_from wildcard_range class_items class_text
    new_regexp_matcher text_eq
test_wildcard = refl

abbrev name_rules : List TableNameRule
name_rules = record { table_name_s = codes "emp"; table_name_t = codes "staff" } ∷ []

test_change_table_name :
    get (codes "EMP") (change_table_name name_rules (codes "DEPT" ∷ codes "emp" ∷ []))
    ≡ some (codes "STAFF")
unfolding change_table_name custom_table_name_rule collect_names get set text_eq to_upper
test_change_table_name = refl

-- sets as lists
abbrev list_difference : List Text → List Text → List Text
list_difference xs ys = filter (λ x. not (is_contain_string ys x)) xs

abbrev list_intersection : List Text → List Text → List Text
list_intersection xs ys = filter (λ x. is_contain_string ys x) xs

list_difference-law :
    (xs ys : List Text) (k : Text)
    → is_contain_string (list_difference xs ys) k
      ≡ (is_contain_string xs k && not (is_contain_string ys k))
list_difference-law xs ys k = is_contain_string-filter (λ x. not (is_contain_string ys x)) xs k

list_intersection-law :
    (xs ys : List Text) (k : Text)
    → is_contain_string (list_intersection xs ys) k
      ≡ (is_contain_string xs k && is_contain_string ys k)
list_intersection-law xs ys k = is_contain_string-filter (λ x. is_contain_string ys x) xs k

list_intersection-AreUpper : (xs ys : List Text) → AreUpper xs → AreUpper (list_intersection xs ys)
list_intersection-AreUpper xs ys h = filter-AreUpper (λ x. is_contain_string ys x) xs h

abbrev tables : List Text
tables = codes "EMP" ∷ codes "DEPT" ∷ []

tables-AreUpper : AreUpper tables
unfolding to_upper
tables-AreUpper = (refl, (refl, tt))

parse_emp : parse all_compile (codes "emp" ∷ []) ≡ ok (string_matcher (codes "emp") ∷ [])
unfolding parse parse_pattern parse_loop parse_from
parse_emp = refl

include_or_exclude_example :
    (included : List Text) × (excluded : List Text) × (chosen_tables all_compile none_match
        list_difference
        (codes "emp" ∷ [])
        []
        tables
      ≡ ok included)
    × (chosen_tables all_compile none_match list_difference [] (codes "emp" ∷ []) tables
        ≡ ok excluded)
    × ((k : Text)
        → (is_contain_string included k ≡ (
            is_contain_string tables k
            && match_table none_match (string_matcher (codes "emp") ∷ []) k))
          × (is_contain_string excluded k ≡ (
              is_contain_string tables k
              && not (match_table none_match (string_matcher (codes "emp") ∷ []) k))))
include_or_exclude_example =
    include_or_exclude all_compile none_match list_difference list_difference-law (codes "emp") []
      tables (string_matcher (codes "emp") ∷ []) parse_emp tables-AreUpper
