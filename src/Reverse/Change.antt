-- ===== src/Reverse/Change.antt =====
-- module/reverse/oracle/public/change.go: the tables of names, types and default values that the
-- reverse task prepares. The rule tables of the meta database are lists of rows; the columns of a
-- source table come from Oracle, so the query is a parameter.
pub mod Priority
use transferdb.Prelude.{
  Bool, true, false, ◌&&◌, not, List, [], ◌∷◌, filter, if◌then◌else◌, Result, ok, err, panic, ◌>>=◌,
}
use transferdb.Text.{Text, text_eq, to_upper}
use transferdb.Dict.{Dict, set}
use transferdb.Reverse.TypeMap.{DatatypeRule, ColumnInfo, Column, MapError}
use transferdb.Reverse.TypeMap.Cases.{oracle_table_column_map_my_sql_rule}
use transferdb.Reverse.TypeRule.{
  TableDatatypeRule, SchemaDatatypeRule, ColumnDatatypeRule,
  load_column_type_rule_only_using_column, load_data_type_rule_using_table_or_schema,
}

-- UPPER(a) = UPPER(b) of a where clause
unfoldable pub same_upper : Text → Text → Bool
same_upper a b = text_eq (to_upper a) (to_upper b)

-- `DetailTableRule`
unfoldable pub detail_table_rule :
    TableDatatypeRule → List TableDatatypeRule → List TableDatatypeRule
detail_table_rule d = filter λ r.
    same_upper r.db_type_s d.db_type_s
    && same_upper r.db_type_t d.db_type_t
    && same_upper r.schema_name_s d.schema_name_s
    && same_upper r.table_name_s d.table_name_s

-- `DetailColumnRule`
unfoldable pub detail_column_rule :
    ColumnDatatypeRule → List ColumnDatatypeRule → List ColumnDatatypeRule
detail_column_rule d = filter λ r.
    same_upper r.db_type_s d.db_type_s
    && same_upper r.db_type_t d.db_type_t
    && same_upper r.schema_name_s d.schema_name_s
    && same_upper r.table_name_s d.table_name_s
    && same_upper r.column_name_s d.column_name_s

-- `DetailSchemaRule`
unfoldable pub detail_schema_rule :
    SchemaDatatypeRule → List SchemaDatatypeRule → List SchemaDatatypeRule
detail_schema_rule d = filter λ r.
    same_upper r.db_type_s d.db_type_s
    && same_upper r.db_type_t d.db_type_t
    && same_upper r.schema_name_s d.schema_name_s

-- The switch of the loop over the columns: the rule of a column, then the other rules.
unfoldable pub choose_type :
    Text
    → Text
    → Text
    → List ColumnDatatypeRule
    → List TableDatatypeRule
    → List SchemaDatatypeRule
    → Text
choose_type name origin buildin columns tables schemas =
    let from_column = load_column_type_rule_only_using_column name origin buildin columns in
    let from_other = load_data_type_rule_using_table_or_schema origin buildin tables schemas in
    if not (text_eq from_column buildin) && text_eq from_other buildin
    then to_upper from_column
    else if not (text_eq from_column buildin) && not (text_eq from_other buildin)
    then to_upper from_column
    else if text_eq from_column buildin && not (text_eq from_other buildin)
    then to_upper from_other
    else to_upper buildin

-- A row of Oracle's column dictionary, and the `Column` that is made of it.
pub record ColumnRow : Type 0 where
  pub column_name : Text
  pub data_type : Text
  pub char_used : Text
  pub char_length : Text
  pub data_length : Text
  pub data_precision : Text
  pub data_scale : Text
  pub nullable : Text
  pub data_default : Text
  pub comments : Text

unfoldable pub to_column : ColumnRow → Column
to_column r = record {
  data_type = r.data_type;
  char_length = r.char_length;
  char_used = r.char_used;
  character_set = [];
  collation = [];
  oracle_origin_data_default = [];
  my_sql_origin_data_default = [];
  column_info = record {
    data_length = r.data_length;
    data_precision = r.data_precision;
    data_scale = r.data_scale;
    datetime_precision = [];
    nullable = r.nullable;
    data_default = r.data_default;
    comment = r.comments;
  };
}

-- The fields of `Change` that are read, and the rule tables of the meta database.
pub record Change : Type 0 where
  pub db_type_s : Text
  pub db_type_t : Text
  pub source_schema_name : Text
  pub target_schema_name : Text
  pub source_tables : List Text
  pub buildin_rules : List DatatypeRule
  pub schema_rules : List SchemaDatatypeRule
  pub table_rules : List TableDatatypeRule
  pub column_rules : List ColumnDatatypeRule

-- The three queries. They set the database types and the schema, and leave the other fields empty.
unfoldable pub loaded_table_rules : Change → List TableDatatypeRule
loaded_table_rules r =
    detail_table_rule
      (record {
        db_type_s = r.db_type_s;
        db_type_t = r.db_type_t;
        schema_name_s = r.source_schema_name;
        table_name_s = [];
        column_type_s = [];
        column_type_t = [];
      })
      r.table_rules

unfoldable pub loaded_column_rules : Change → List ColumnDatatypeRule
loaded_column_rules r =
    detail_column_rule
      (record {
        db_type_s = r.db_type_s;
        db_type_t = r.db_type_t;
        schema_name_s = r.source_schema_name;
        table_name_s = [];
        column_name_s = [];
        column_type_s = [];
        column_type_t = [];
      })
      r.column_rules

unfoldable pub loaded_schema_rules : Change → List SchemaDatatypeRule
loaded_schema_rules r =
    detail_schema_rule
      (record {
        db_type_s = r.db_type_s;
        db_type_t = r.db_type_t;
        schema_name_s = r.source_schema_name;
        column_type_s = [];
        column_type_t = [];
      })
      r.schema_rules

-- the loop over the columns of one table
unfoldable pub column_datatypes : Change → List ColumnRow → Dict Text → Result MapError (Dict Text)
column_datatypes r [] types = ok types
column_datatypes r (row ∷ rows) types = do
  (origin, buildin) ← oracle_table_column_map_my_sql_rule (to_column row) r.buildin_rules
  let chosen =
      choose_type row.column_name origin buildin (loaded_column_rules r) (loaded_table_rules r)
        (loaded_schema_rules r)
  column_datatypes r rows (set row.column_name chosen types)

module _ (columns_of : Text → Result MapError (List ColumnRow)) where
  -- The tables in the order in which their workers report. An error of one worker ends the task.
  unfoldable pub change_table_column_datatype :
      Change → List Text → Dict (Dict Text) → Result MapError (Dict (Dict Text))
  change_table_column_datatype r [] done = ok done
  change_table_column_datatype r (table ∷ tables) done = do
    rows ← columns_of table
    types ← column_datatypes r rows []
    change_table_column_datatype r tables (set table types done)
