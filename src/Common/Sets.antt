-- ===== src/Common/Sets.antt =====
-- The set operations of common/strings.go. The sets of package scylladb/go-set are a parameter: the list of
-- a difference and of an intersection, in any order.
use transferdb.Prelude.{Bool, true, false, List, [], ◌∷◌, map, if◌then◌else◌}
use transferdb.Text.{Text, text_eq, to_upper}

-- `IsContainString`
unfoldable pub is_contain_string : List Text → Text → Bool
is_contain_string [] item = false
is_contain_string (each ∷ items) item =
    if text_eq each item then true else is_contain_string items item

-- `FilterDifferenceStringItems`
unfoldable pub filter_difference_string_items :
    (List Text → List Text → List Text) → List Text → List Text → List Text
filter_difference_string_items difference origin exclude =
    difference (map to_upper origin) (map to_upper exclude)

-- `FilterIntersectionStringItems`
unfoldable pub filter_intersection_string_items :
    (List Text → List Text → List Text) → List Text → List Text → List Text
filter_intersection_string_items intersection origin new =
    intersection (map to_upper origin) (map to_upper new)
