-- ===== src/Reverse/Keys/Unique.antt =====
-- module/reverse/oracle/o2m/rule.go, `GenTableUniqueIndex`: the unique indexes of a table.
use transferdb.Prelude.{
  String, ◌&&◌, not, List, [], ◌∷◌, if◌then◌else◌, Option, none, some, Result, ok, err,
}
use transferdb.Text.{Text, codes, text_eq, equal_fold, strings_builder}
use transferdb.Reverse.Keys.{
  KeyError, index_type_unsupported, not_unique, Indexes, field_case, quoted_columns, add_index,
  statement_or, index_loop,
}

pub record UniqueIndex : Type 0 where
  pub table_name : Text
  pub uniqueness : Text
  pub index_type : Text
  pub index_name : Text
  pub column_list : Text

abbrev pub create_index : Text → Text → Text → UniqueIndex → String → Text
create_index mode schema table i end = strings_builder (
    codes "CREATE UNIQUE INDEX `"
    ∷ i.index_name
    ∷ codes "` ON `"
    ∷ schema
    ∷ codes "`.`"
    ∷ table
    ∷ codes "` ("
    ∷ field_case mode i.column_list
    ∷ codes end
    ∷ [])

unfoldable pub unique_text : Text → UniqueIndex → Text
unfolding field_case quoted_columns
unique_text mode i = strings_builder (
    codes "UNIQUE INDEX `"
    ∷ i.index_name
    ∷ codes "` ("
    ∷ quoted_columns (field_case mode i.column_list)
    ∷ codes ")"
    ∷ [])

-- the types of index that are left to a user
unfoldable pub unique_statement : Text → Text → Text → UniqueIndex → Option Text
unfolding field_case
unique_statement mode schema table i =
    if text_eq i.index_type (codes "FUNCTION-BASED NORMAL")
    then some (create_index mode schema table i ");")
    else if text_eq i.index_type (codes "NORMAL/REV")
    then some (create_index mode schema table i ") REVERSE;")
    else none

-- a row of `UniqueIndexINFO`
unfoldable pub unique_index : Text → Text → Text → UniqueIndex → Result KeyError (Indexes → Indexes)
unfolding unique_text unique_statement
unique_index mode schema table i =
    if not (text_eq i.table_name []) && equal_fold i.uniqueness (codes "UNIQUE")
    then if text_eq i.index_type (codes "NORMAL")
      then ok (add_index (unique_text mode i))
      else statement_or (index_type_unsupported i.index_name) (unique_statement mode schema table i)
    else err (not_unique i.index_name)

unfoldable pub gen_table_unique_index :
    Text → Text → Text → List UniqueIndex → Result KeyError Indexes
unfolding unique_index index_loop
gen_table_unique_index mode schema table is = index_loop (unique_index mode schema table) is
