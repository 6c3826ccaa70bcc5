-- ===== src/Tests/Types.antt =====
-- Tests of the data types of columns, and their theorems at concrete columns.
use transferdb.Prelude.{
  ◌-◌, ◌^◌, ◌≤◌, min, List, [], ◌∷◌, some, Result, ok, pos, ◌≡◌, refl, inl, arith,
}
use transferdb.Text.{
  Text, codes, text_eq, to_upper, equal_fold, contains, replace_all, has_prefix, atoi,
}
use transferdb.Reverse.TypeMap.{Column, MapError, lookup}
use transferdb.Reverse.TypeMap.Cases.{oracle_table_column_map_my_sql_rule}
use transferdb.Reverse.TypeMap.Number.{Target, Chosen, bound, fraction, IsLegal}
use transferdb.Reverse.TypeMap.Number.Capacity.{number_capacity, number-IsLegal}
use transferdb.Reverse.TypeMap.Builtin.{init_o2m_buildin_datatype_rule as builtin}
use transferdb.Reverse.TypeMap.Total.{IsReturned, IsNamed, builtin-HasTargets, builtin_total}
use transferdb.Reverse.TypeRule.{TableDatatypeRule, SchemaDatatypeRule, ColumnDatatypeRule, fits}
use transferdb.Reverse.TypeRule.FirstHit.{or_else, table_hit, schema_hit, column_hit}
use transferdb.Reverse.Change.{Change, ColumnRow, to_column, choose_type}
use transferdb.Reverse.Change.Priority.{NamesTables, choose_type_priority}

number_capacity_example :
    (t : Target) × Chosen builtin 10 2 t × (10 ^ (10 - 2) ≤ bound t) × (min 2 30 ≤ fraction t)
number_capacity_example =
    number_capacity builtin builtin-HasTargets 10 2 (omega arith) (omega arith) (omega arith)

number-IsLegal_example : (t : Target) × Chosen builtin 10 2 t × IsLegal t
number-IsLegal_example =
    number-IsLegal builtin builtin-HasTargets 10 2 (omega arith) (omega arith) (omega arith)

abbrev name_row : ColumnRow
name_row = record {
  column_name = codes "NAME";
  data_type = codes "VARCHAR2";
  char_used = codes "C";
  char_length = codes "20";
  data_length = codes "80";
  data_precision = codes "0";
  data_scale = codes "0";
  nullable = codes "Y";
  data_default = [];
  comments = [];
}

abbrev name_column : Column
unfolding to_column
name_column = to_column name_row

name_column-IsNamed : IsNamed name_column
unfolding lookup builtin to_upper to_column text_eq
name_column-IsNamed = inl cc

length_read : atoi name_column.data_length ≡ some (pos 80)
unfolding to_column atoi
length_read = unfold transferdb.Text.scan_digits transferdb.Text.atoi_unsigned in refl

zero_read : atoi (codes "0") ≡ some (pos 0)
unfolding atoi
zero_read = unfold transferdb.Text.scan_digits transferdb.Text.atoi_unsigned in refl

precision_read : atoi name_column.data_precision ≡ some (pos 0)
unfolding to_column
precision_read = zero_read

scale_read : atoi name_column.data_scale ≡ some (pos 0)
unfolding to_column
scale_read = zero_read

builtin_total_example : IsReturned (oracle_table_column_map_my_sql_rule name_column builtin)
builtin_total_example =
    builtin_total name_column (pos 80) (pos 0) (pos 0) length_read precision_read scale_read
      name_column-IsNamed

abbrev table_rule : Text → Text → TableDatatypeRule
table_rule s t = record {
  db_type_s = codes "ORACLE";
  db_type_t = codes "MYSQL";
  schema_name_s = codes "HR";
  table_name_s = codes "EMP";
  column_type_s = s;
  column_type_t = t;
}

abbrev column_rule : Text → Text → ColumnDatatypeRule
column_rule s t = record {
  db_type_s = codes "ORACLE";
  db_type_t = codes "MYSQL";
  schema_name_s = codes "HR";
  table_name_s = codes "EMP";
  column_name_s = codes "NAME";
  column_type_s = s;
  column_type_t = t;
}

abbrev origin : Text
origin = codes "VARCHAR2(20)"

abbrev buildin : Text
buildin = codes "VARCHAR(20)"

buildin-upper : to_upper buildin ≡ buildin
unfolding to_upper
buildin-upper = refl

abbrev schema_rule : SchemaDatatypeRule
schema_rule = record {
  db_type_s = codes "ORACLE";
  db_type_t = codes "MYSQL";
  schema_name_s = codes "HR";
  column_type_s = origin;
  column_type_t = codes "LONGTEXT";
}

text_hit :
    column_hit (codes "NAME") origin (column_rule origin (codes "text") ∷ []) ≡ some (codes "TEXT")
unfolding fits equal_fold to_upper contains has_prefix text_eq
text_hit = refl

same_hit : column_hit (codes "NAME") origin (column_rule origin buildin ∷ []) ≡ some buildin
unfolding fits equal_fold to_upper contains has_prefix text_eq
same_hit = refl

blob_hit : table_hit origin (table_rule origin (codes "blob") ∷ []) ≡ some (codes "BLOB")
unfolding fits equal_fold to_upper contains has_prefix text_eq
blob_hit = refl

choose_type_priority_example :
    choose_type
      (codes "NAME")
      origin
      buildin
      (column_rule origin (codes "text") ∷ [])
      (table_rule origin (codes "blob") ∷ [])
      (schema_rule ∷ [])
    ≡ or_else (column_hit (codes "NAME") origin (column_rule origin (codes "text") ∷ [])) (
        or_else
          (table_hit origin (table_rule origin (codes "blob") ∷ []))
          (or_else (schema_hit origin (schema_rule ∷ [])) buildin))
choose_type_priority_example =
    choose_type_priority buildin buildin-upper (codes "NAME") origin
      (column_rule origin (codes "text") ∷ []) (table_rule origin (codes "blob") ∷ [])
      (schema_rule ∷ []) (λ e. cc text_hit) (λ e. cc blob_hit)

abbrev hr_change : Change
hr_change = record {
  db_type_s = codes "ORACLE";
  db_type_t = codes "MYSQL";
  source_schema_name = codes "HR";
  target_schema_name = codes "HR";
  source_tables = codes "EMP" ∷ [];
  buildin_rules = builtin;
  schema_rules = [];
  table_rules = table_rule origin (codes "blob") ∷ [];
  column_rules = column_rule origin (codes "text") ∷ [];
}

hr_change-NamesTables : NamesTables hr_change
hr_change-NamesTables = record { tables_named = ((λ e. cc), tt); columns_named = ((λ e. cc), tt) }

abbrev emp_columns : Text → Result MapError (List ColumnRow)
emp_columns _ = ok (name_row ∷ [])
