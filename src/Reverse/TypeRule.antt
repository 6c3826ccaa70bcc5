-- ===== src/Reverse/TypeRule.antt =====
-- module/reverse/oracle/public/rule_load.go: the custom data type rules of a column, of a table and
-- of a schema. The first rule of a list that fits the original type gives the type.
pub mod FirstHit
use transferdb.Prelude.{Bool, true, false, ◌&&◌, not, List, [], ◌∷◌, if◌then◌else◌}
use transferdb.Text.{Text, codes, text_eq, to_upper, equal_fold, contains, replace_all}

-- `meta.TableDatatypeRule`
pub record TableDatatypeRule : Type 0 where
  pub db_type_s : Text
  pub db_type_t : Text
  pub schema_name_s : Text
  pub table_name_s : Text
  pub column_type_s : Text
  pub column_type_t : Text

-- `meta.SchemaDatatypeRule`
pub record SchemaDatatypeRule : Type 0 where
  pub db_type_s : Text
  pub db_type_t : Text
  pub schema_name_s : Text
  pub column_type_s : Text
  pub column_type_t : Text

-- `meta.ColumnDatatypeRule`
pub record ColumnDatatypeRule : Type 0 where
  pub db_type_s : Text
  pub db_type_t : Text
  pub schema_name_s : Text
  pub table_name_s : Text
  pub column_name_s : Text
  pub column_type_s : Text
  pub column_type_t : Text

abbrev pub is_empty : Text → Bool
is_empty [] = true
is_empty (_ ∷ _) = false

-- The test that the three loops share: does a rule from type `s` to type `t` fit `origin`?
unfoldable pub fits : Text → Text → Text → Bool
unfolding contains to_upper equal_fold replace_all
fits s t origin =
    if contains (to_upper s) (codes "NUMBER")
    then if contains (to_upper s) (codes "*") && contains (to_upper s) (codes ",")
      then equal_fold (replace_all s (codes "*") (codes "38")) origin && not (is_empty t)
      else if contains (to_upper s) (codes "*") && not (contains (to_upper s) (codes ","))
      then equal_fold (codes "NUMBER(38,127)") origin && not (is_empty t)
      else if not (contains (to_upper s) (codes "(")) && not (contains (to_upper s) (codes ")"))
      then equal_fold (codes "NUMBER(38,127)") origin && not (is_empty t)
      else equal_fold s origin && not (is_empty t)
    else equal_fold s origin && not (is_empty t)

-- the loop of `loadColumnTypeRuleOnlyUsingTable`, with what stands behind it
unfoldable pub table_loop : Text → Text → List TableDatatypeRule → Text
table_loop origin buildin [] = to_upper buildin
table_loop origin buildin (r ∷ rs) =
    if fits r.column_type_s r.column_type_t origin
    then to_upper r.column_type_t
    else table_loop origin buildin rs

unfoldable pub load_column_type_rule_only_using_table : Text → Text → List TableDatatypeRule → Text
unfolding table_loop
load_column_type_rule_only_using_table origin buildin [] = buildin
load_column_type_rule_only_using_table origin buildin (r ∷ rs) = table_loop origin buildin (r ∷ rs)

unfoldable pub schema_loop : Text → Text → List SchemaDatatypeRule → Text
schema_loop origin buildin [] = to_upper buildin
schema_loop origin buildin (r ∷ rs) =
    if fits r.column_type_s r.column_type_t origin
    then to_upper r.column_type_t
    else schema_loop origin buildin rs

unfoldable pub load_column_type_rule_only_using_schema :
    Text → Text → List SchemaDatatypeRule → Text
unfolding schema_loop
load_column_type_rule_only_using_schema origin buildin [] = buildin
load_column_type_rule_only_using_schema origin buildin (r ∷ rs) =
    schema_loop origin buildin (r ∷ rs)

unfoldable pub column_loop : Text → Text → Text → List ColumnDatatypeRule → Text
column_loop name origin buildin [] = to_upper buildin
column_loop name origin buildin (r ∷ rs) =
    if equal_fold r.column_name_s name && fits r.column_type_s r.column_type_t origin
    then to_upper r.column_type_t
    else column_loop name origin buildin rs

unfoldable pub load_column_type_rule_only_using_column :
    Text → Text → Text → List ColumnDatatypeRule → Text
unfolding column_loop
load_column_type_rule_only_using_column name origin buildin [] = buildin
load_column_type_rule_only_using_column name origin buildin (r ∷ rs) =
    column_loop name origin buildin (r ∷ rs)

-- `loadDataTypeRuleUsingTableAndSchema`
unfoldable pub load_data_type_rule_using_table_and_schema :
    Text → Text → List TableDatatypeRule → List SchemaDatatypeRule → Text
load_data_type_rule_using_table_and_schema origin buildin tables schemas =
    let by_table = load_column_type_rule_only_using_table origin buildin tables in
    let by_schema = load_column_type_rule_only_using_schema origin buildin schemas in
    if text_eq by_table buildin && not (text_eq by_schema buildin)
    then by_schema
    else if not (text_eq by_table buildin) && text_eq by_schema buildin
    then by_table
    else if not (text_eq by_table buildin) && not (text_eq by_schema buildin)
    then by_table
    else to_upper buildin

-- `LoadDataTypeRuleUsingTableOrSchema`. The panic of its `default` cannot be reached.
unfoldable pub load_data_type_rule_using_table_or_schema :
    Text → Text → List TableDatatypeRule → List SchemaDatatypeRule → Text
unfolding load_data_type_rule_using_table_and_schema
load_data_type_rule_using_table_or_schema origin buildin (t ∷ ts) [] =
    load_column_type_rule_only_using_table origin buildin (t ∷ ts)
load_data_type_rule_using_table_or_schema origin buildin (t ∷ ts) (s ∷ ss) =
    load_data_type_rule_using_table_and_schema origin buildin (t ∷ ts) (s ∷ ss)
load_data_type_rule_using_table_or_schema origin buildin [] (s ∷ ss) =
    load_column_type_rule_only_using_schema origin buildin (s ∷ ss)
load_data_type_rule_using_table_or_schema origin buildin [] [] = to_upper buildin
