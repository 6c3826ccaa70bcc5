-- ===== src/Reverse/TableName.antt =====
-- module/reverse/oracle/public/change.go, `ChangeTableName`: the target name of each source table.
-- The source tables pass through a pool of goroutines, so they reach the map in any order: the
-- order of arrival is an argument.
pub mod Order
use transferdb.Prelude.{Bool, true, false, List, [], ◌∷◌, Option, none, some, if◌then◌else◌}
use transferdb.Text.{Text, text_eq, to_upper}
use transferdb.Dict.{Dict, get, set}

-- `meta.TableNameRule`, the names of the tables
pub record TableNameRule : Type 0 where
  pub table_name_s : Text
  pub table_name_t : Text

-- the loop that fills `customTableNameRule`: a later rule replaces an earlier one
unfoldable pub custom_table_name_rule : List TableNameRule → Dict Text → Dict Text
custom_table_name_rule [] m = m
custom_table_name_rule (r ∷ rs) m =
    custom_table_name_rule rs (set (to_upper r.table_name_s) (to_upper r.table_name_t) m)

abbrev pub or_name : Option Text → Text → Text
or_name none name = name
or_name (some t) name = t

-- the goroutine that reads `tableChT`
unfoldable pub collect_names : Dict Text → List Text → Dict Text → Dict Text
collect_names custom [] names = names
collect_names custom (c ∷ cs) names =
    collect_names custom cs
      (set (to_upper c) (or_name (get (to_upper c) custom) (to_upper c)) names)

unfoldable pub change_table_name : List TableNameRule → List Text → Dict Text
unfolding custom_table_name_rule collect_names
change_table_name rules arrived = collect_names (custom_table_name_rule rules []) arrived []
