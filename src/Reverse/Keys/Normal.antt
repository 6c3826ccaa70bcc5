-- ===== src/Reverse/Keys/Normal.antt =====
-- module/reverse/oracle/o2m/rule.go, `GenTableNormalIndex`: the indexes of a table that are not unique.
use transferdb.Prelude.{
  String, ◌&&◌, not, List, [], ◌∷◌, if◌then◌else◌, Option, none, some, Result, ok, err,
}
use transferdb.Text.{Text, codes, text_eq, equal_fold, strings_builder}
use transferdb.Reverse.Keys.{
  KeyError, normal_type_unsupported, not_normal, Indexes, field_case, quoted_columns, add_index,
  statement_or, index_loop,
}

pub record NormalIndex : Type 0 where
  pub table_name : Text
  pub uniqueness : Text
  pub index_type : Text
  pub index_name : Text
  pub column_list : Text
  pub ityp_owner : Text
  pub ityp_name : Text
  pub parameters : Text

-- the text of an index that MySQL has
unfoldable pub key_index : Text → NormalIndex → Text
unfolding field_case quoted_columns
key_index mode i = strings_builder (
    codes "KEY `"
    ∷ i.index_name
    ∷ codes "` ("
    ∷ quoted_columns (field_case mode i.column_list)
    ∷ codes ")"
    ∷ [])

-- `CREATE INDEX` with its word for the kind, and what comes after the columns
abbrev pub create_normal : String → Text → Text → Text → NormalIndex → Text → Text
create_normal create mode schema table i end = strings_builder (
    codes create
    ∷ i.index_name
    ∷ codes " ON "
    ∷ schema
    ∷ codes "."
    ∷ table
    ∷ codes " ("
    ∷ field_case mode i.column_list
    ∷ end
    ∷ [])

abbrev pub domain_end : Text → NormalIndex → Text
domain_end mode i = strings_builder (
    codes ") INDEXTYPE IS "
    ∷ field_case mode i.ityp_owner
    ∷ codes "."
    ∷ field_case mode i.ityp_name
    ∷ codes " PARAMETERS ('"
    ∷ i.parameters
    ∷ codes "');"
    ∷ [])

-- the types of index that are left to a user
unfoldable pub normal_statement : Text → Text → Text → NormalIndex → Option Text
unfolding field_case
normal_statement mode schema table i =
    if text_eq i.index_type (codes "FUNCTION-BASED NORMAL")
    then some (create_normal "CREATE INDEX " mode schema table i (codes ");"))
    else if text_eq i.index_type (codes "BITMAP")
    then some (create_normal "CREATE BITMAP INDEX " mode schema table i (codes ");"))
    else if text_eq i.index_type (codes "FUNCTION-BASED BITMAP")
    then some (create_normal "CREATE BITMAP INDEX " mode schema table i (codes ");"))
    else if text_eq i.index_type (codes "DOMAIN")
    then some (create_normal "CREATE INDEX " mode schema table i (domain_end mode i))
    else if text_eq i.index_type (codes "NORMAL/REV")
    then some (create_normal "CREATE INDEX " mode schema table i (codes ") REVERSE;"))
    else none

-- a row of `NormalIndexINFO`
unfoldable pub normal_index : Text → Text → Text → NormalIndex → Result KeyError (Indexes → Indexes)
unfolding key_index normal_statement
normal_index mode schema table i =
    if not (text_eq i.table_name []) && equal_fold i.uniqueness (codes "NONUNIQUE")
    then if text_eq i.index_type (codes "NORMAL")
      then ok (add_index (key_index mode i))
      else statement_or (normal_type_unsupported i.index_name)
          (normal_statement mode schema table i)
    else err (not_normal i.index_name)

unfoldable pub gen_table_normal_index :
    Text → Text → Text → List NormalIndex → Result KeyError Indexes
unfolding normal_index index_loop
gen_table_normal_index mode schema table is = index_loop (normal_index mode schema table) is
