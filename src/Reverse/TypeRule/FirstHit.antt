-- ===== src/Reverse/TypeRule/FirstHit.antt =====
-- The loops of rule_load.go against an independent description: the target of the first rule that
-- fits, in upper case, and the built-in type where none does.
use transferdb.Prelude.{
  ◌&&◌, List, [], ◌∷◌, if◌then◌else◌, Option, none, some, find_map, ◌≡◌, refl, arith,
}
use transferdb.Text.{Text, text_eq, to_upper, equal_fold}
use transferdb.Text.Laws.{text_eq_iff}
use transferdb.Reverse.TypeRule.{
  TableDatatypeRule, SchemaDatatypeRule, ColumnDatatypeRule, fits, table_loop, schema_loop,
  column_loop, load_column_type_rule_only_using_table, load_column_type_rule_only_using_schema,
  load_column_type_rule_only_using_column, load_data_type_rule_using_table_or_schema,
}

abbrev pub or_else : Option Text → Text → Text
or_else none t = t
or_else (some x) t = x

abbrev pub table_hit : Text → List TableDatatypeRule → Option Text
table_hit origin = find_map λ r.
    if fits r.column_type_s r.column_type_t origin then some (to_upper r.column_type_t) else none

abbrev pub schema_hit : Text → List SchemaDatatypeRule → Option Text
schema_hit origin = find_map λ r.
    if fits r.column_type_s r.column_type_t origin then some (to_upper r.column_type_t) else none

abbrev pub column_hit : Text → Text → List ColumnDatatypeRule → Option Text
column_hit name origin = find_map λ r.
    if equal_fold r.column_name_s name && fits r.column_type_s r.column_type_t origin
    then some (to_upper r.column_type_t)
    else none

table_loop-hit :
    (origin buildin : Text) (rs : List TableDatatypeRule)
    → table_loop origin buildin rs ≡ or_else (table_hit origin rs) (to_upper buildin)
unfolding table_loop
table_loop-hit origin buildin [] = refl
table_loop-hit origin buildin (r ∷ rs) = ground (arith, table_loop-hit origin buildin rs)

schema_loop-hit :
    (origin buildin : Text) (rs : List SchemaDatatypeRule)
    → schema_loop origin buildin rs ≡ or_else (schema_hit origin rs) (to_upper buildin)
unfolding schema_loop
schema_loop-hit origin buildin [] = refl
schema_loop-hit origin buildin (r ∷ rs) = ground (arith, schema_loop-hit origin buildin rs)

column_loop-hit :
    (name origin buildin : Text) (rs : List ColumnDatatypeRule)
    → column_loop name origin buildin rs ≡ or_else (column_hit name origin rs) (to_upper buildin)
unfolding column_loop
column_loop-hit name origin buildin [] = refl
column_loop-hit name origin buildin (r ∷ rs) =
    ground (arith, column_loop-hit name origin buildin rs)

-- The built-in type is written in upper case.
module _ (buildin : Text) (is_upper : to_upper buildin ≡ buildin) where
  pub load_table-hit :
      (origin : Text) (rs : List TableDatatypeRule)
      → load_column_type_rule_only_using_table origin buildin rs
        ≡ or_else (table_hit origin rs) buildin
  unfolding load_column_type_rule_only_using_table
  load_table-hit origin [] = refl
  load_table-hit origin (r ∷ rs) = ground (arith, table_loop-hit origin buildin (r ∷ rs))

  pub load_schema-hit :
      (origin : Text) (rs : List SchemaDatatypeRule)
      → load_column_type_rule_only_using_schema origin buildin rs
        ≡ or_else (schema_hit origin rs) buildin
  unfolding load_column_type_rule_only_using_schema
  load_schema-hit origin [] = refl
  load_schema-hit origin (r ∷ rs) = ground (arith, schema_loop-hit origin buildin (r ∷ rs))

  pub load_column-hit :
      (name origin : Text) (rs : List ColumnDatatypeRule)
      → load_column_type_rule_only_using_column name origin buildin rs
        ≡ or_else (column_hit name origin rs) buildin
  unfolding load_column_type_rule_only_using_column
  load_column-hit name origin [] = refl
  load_column-hit name origin (r ∷ rs) =
      ground (arith, column_loop-hit name origin buildin (r ∷ rs))

  -- What the rules of the tables and of the schemas give together. A table rule that gives the
  -- built-in type counts as none.
  pub load_other-hit :
      (origin : Text) (ts : List TableDatatypeRule) (ss : List SchemaDatatypeRule)
      → load_data_type_rule_using_table_or_schema origin buildin ts ss ≡ (
          if text_eq (or_else (table_hit origin ts) buildin) buildin
          then or_else (schema_hit origin ss) buildin
          else or_else (table_hit origin ts) buildin)
  unfolding load_data_type_rule_using_table_or_schema
  load_other-hit origin [] [] = ground (arith, text_eq_iff buildin buildin)
  load_other-hit origin [] (s ∷ ss) =
      ground (arith, load_schema-hit origin (s ∷ ss), text_eq_iff buildin buildin)
  load_other-hit origin (t ∷ ts) [] = ground (
    arith,
    load_table-hit origin (t ∷ ts),
    text_eq_iff (or_else (table_hit origin (t ∷ ts)) buildin) buildin,
  )
  load_other-hit origin (t ∷ ts) (s ∷ ss) = ground (
    arith,
    load_table-hit origin (t ∷ ts),
    load_schema-hit origin (s ∷ ss),
    text_eq_iff (or_else (table_hit origin (t ∷ ts)) buildin) buildin,
    text_eq_iff (or_else (schema_hit origin (s ∷ ss)) buildin) buildin,
  )
