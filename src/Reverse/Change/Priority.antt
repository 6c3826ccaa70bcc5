-- ===== src/Reverse/Change/Priority.antt =====
-- Which rule decides the type of a column in change.go: the documented order of priority is
-- column, table, schema, built-in.
use transferdb.Prelude.{
  Bool, false, ◌&&◌, List, [], ◌∷◌, if◌then◌else◌, Option, some, All, Result, ◌≡◌, ◌≢◌, refl, arith,
  >>=-congr,
}
use transferdb.Text.{Text, text_eq, to_upper}
use transferdb.Text.Laws.{text_eq_iff, to_upper_idem}
use transferdb.Reverse.TypeMap.{MapError}
use transferdb.Reverse.TypeMap.Cases.{oracle_table_column_map_my_sql_rule}
use transferdb.Reverse.TypeRule.{TableDatatypeRule, SchemaDatatypeRule, ColumnDatatypeRule}
use transferdb.Reverse.TypeRule.FirstHit.{
  or_else, table_hit, schema_hit, column_hit, load_column-hit, load_other-hit,
}
use transferdb.Reverse.Change.{
  Change, ColumnRow, to_column, choose_type, same_upper, detail_table_rule, detail_column_rule,
  loaded_table_rules, loaded_column_rules, loaded_schema_rules, column_datatypes,
  change_table_column_datatype,
}
use transferdb.Dict.{Dict, set}

-- What a rule gives, or `rest` if there is no rule or it gives the built-in type.
abbrev pick : Option Text → Text → Text → Text
pick o buildin rest = if text_eq (or_else o buildin) buildin then rest else or_else o buildin

module _ (buildin : Text) (is_upper : to_upper buildin ≡ buildin) where
  column_hit-upper :
      (name origin : Text) (rs : List ColumnDatatypeRule)
      → to_upper (or_else (column_hit name origin rs) buildin)
        ≡ or_else (column_hit name origin rs) buildin
  column_hit-upper name origin [] = is_upper
  column_hit-upper name origin (r ∷ rs) =
      ground (arith, column_hit-upper name origin rs, to_upper_idem r.column_type_t)

  table_hit-upper :
      (origin : Text) (rs : List TableDatatypeRule)
      → to_upper (or_else (table_hit origin rs) buildin) ≡ or_else (table_hit origin rs) buildin
  table_hit-upper origin [] = is_upper
  table_hit-upper origin (r ∷ rs) =
      ground (arith, table_hit-upper origin rs, to_upper_idem r.column_type_t)

  schema_hit-upper :
      (origin : Text) (rs : List SchemaDatatypeRule)
      → to_upper (or_else (schema_hit origin rs) buildin) ≡ or_else (schema_hit origin rs) buildin
  schema_hit-upper origin [] = is_upper
  schema_hit-upper origin (r ∷ rs) =
      ground (arith, schema_hit-upper origin rs, to_upper_idem r.column_type_t)

  choose_type-pick :
      (name origin : Text) (cs : List ColumnDatatypeRule) (ts : List TableDatatypeRule)
      (ss : List SchemaDatatypeRule)
      → choose_type name origin buildin cs ts ss
        ≡ pick
            (column_hit name origin cs)
            buildin
            (pick (table_hit origin ts) buildin (or_else (schema_hit origin ss) buildin))
  unfolding choose_type
  choose_type-pick name origin cs ts ss =
      let c = or_else (column_hit name origin cs) buildin in
      let t = or_else (table_hit origin ts) buildin in
      let s = or_else (schema_hit origin ss) buildin in
      ground (
        arith,
        load_column-hit buildin is_upper name origin cs,
        load_other-hit buildin is_upper origin ts ss,
        text_eq_iff c buildin,
        text_eq_iff t buildin,
        text_eq_iff s buildin,
        column_hit-upper name origin cs,
        table_hit-upper origin ts,
        schema_hit-upper origin ss,
      )

  -- With a built-in type in upper case, the type of a column is what its own rules give, else what
  -- the table rules give, else what the schema rules give, else the built-in type, if neither the
  -- column's rules nor the table's rules give the built-in type itself.
  pub choose_type_priority :
      (name origin : Text) (cs : List ColumnDatatypeRule) (ts : List TableDatatypeRule)
      (ss : List SchemaDatatypeRule)
      → column_hit name origin cs ≢ some buildin
      → table_hit origin ts ≢ some buildin
      → choose_type name origin buildin cs ts ss
        ≡ or_else
            (column_hit name origin cs)
            (or_else (table_hit origin ts) (or_else (schema_hit origin ss) buildin))
  choose_type_priority name origin cs ts ss hc ht = ground (
    arith,
    choose_type-pick name origin cs ts ss,
    text_eq_iff (or_else (column_hit name origin cs) buildin) buildin,
    text_eq_iff (or_else (table_hit origin ts) buildin) buildin,
  )

  -- A rule of the column that gives the built-in type loses to every table rule that gives another
  -- type: the column gets the table's type.
  choose_type_overridden :
      (name origin : Text) (cs : List ColumnDatatypeRule) (ts : List TableDatatypeRule)
      (ss : List SchemaDatatypeRule) (x : Text)
      → column_hit name origin cs ≡ some buildin
      → table_hit origin ts ≡ some x
      → x ≢ buildin
      → choose_type name origin buildin cs ts ss ≡ x
  choose_type_overridden name origin cs ts ss x hc ht n = ground (
    arith,
    choose_type-pick name origin cs ts ss,
    text_eq_iff (or_else (column_hit name origin cs) buildin) buildin,
    text_eq_iff (or_else (table_hit origin ts) buildin) buildin,
    text_eq_iff x buildin,
  )

-- Every stored table rule names a table, and every stored column rule names a table.
pub record NamesTables (r : Change) : Type 0 where
  pub tables_named : All (λ t. t.table_name_s ≢ []) r.table_rules
  pub columns_named : All (λ c. c.table_name_s ≢ []) r.column_rules

same_upper_nil : (s : Text) → s ≢ [] → same_upper s [] ≡ false
unfolding same_upper text_eq to_upper
same_upper_nil [] h = absurd (h refl)
same_upper_nil (c ∷ s) h = refl

and_false : (a b c d : Bool) → d ≡ false → (a && b && c && d) ≡ false
and_false a b c d h = ground arith

detail_table_rule-nil :
    (d : TableDatatypeRule) (rs : List TableDatatypeRule)
    → d.table_name_s ≡ []
    → All (λ t. t.table_name_s ≢ []) rs
    → detail_table_rule d rs ≡ []
unfolding detail_table_rule
detail_table_rule-nil d [] h hs = refl
detail_table_rule-nil d (r ∷ rs) h (n, ns) =
    ground (arith, same_upper_nil r.table_name_s n, detail_table_rule-nil d rs h ns)

detail_column_rule-nil :
    (d : ColumnDatatypeRule) (rs : List ColumnDatatypeRule)
    → d.table_name_s ≡ []
    → All (λ t. t.table_name_s ≢ []) rs
    → detail_column_rule d rs ≡ []
unfolding detail_column_rule
detail_column_rule-nil d [] h hs = refl
detail_column_rule-nil d (r ∷ rs) h (n, ns) =
    ground (arith, same_upper_nil r.table_name_s n, detail_column_rule-nil d rs h ns)

module _ (r : Change) (named : NamesTables r) where
  loaded_table_rules-nil : loaded_table_rules r ≡ []
  unfolding loaded_table_rules
  loaded_table_rules-nil = detail_table_rule-nil _ r.table_rules refl named.tables_named

  loaded_column_rules-nil : loaded_column_rules r ≡ []
  unfolding loaded_column_rules
  loaded_column_rules-nil = detail_column_rule-nil _ r.column_rules refl named.columns_named

  abbrev without_custom : Change
  without_custom = record r { table_rules = []; column_rules = [] }

  chosen_unused :
      (name origin buildin : Text)
      → choose_type name origin buildin
          (loaded_column_rules r)
          (loaded_table_rules r)
          (loaded_schema_rules r)
        ≡ choose_type name origin buildin
            (loaded_column_rules without_custom)
            (loaded_table_rules without_custom)
            (loaded_schema_rules without_custom)
  unfolding loaded_schema_rules
  chosen_unused name origin buildin =
      rw (loaded_table_rules-nil, loaded_column_rules-nil) refl_unused
    where
      refl_unused :
          choose_type name origin buildin [] [] (loaded_schema_rules r)
          ≡ choose_type name origin buildin
              (loaded_column_rules without_custom)
              (loaded_table_rules without_custom)
              (loaded_schema_rules without_custom)
      refl_unused =
          unfold loaded_column_rules loaded_table_rules detail_column_rule detail_table_rule in refl

  column_datatypes_unused :
      (rows : List ColumnRow) (types : Dict Text)
      → column_datatypes r rows types ≡ column_datatypes without_custom rows types
  unfolding column_datatypes
  column_datatypes_unused [] types = refl
  column_datatypes_unused (row ∷ rows) types =
      >>=-congr (oracle_table_column_map_my_sql_rule (to_column row) r.buildin_rules) _ _
        λ (origin, buildin).
          rw (chosen_unused row.column_name origin buildin) (column_datatypes_unused rows _)

  -- Where every stored table rule and column rule names a table, the types that the reverse task
  -- prepares, and its errors, are those of the same task with no table rule and no column rule.
  change_without_custom :
      (columns_of : Text → Result MapError (List ColumnRow)) (tables : List Text)
      (done : Dict (Dict Text))
      → change_table_column_datatype columns_of r tables done
        ≡ change_table_column_datatype columns_of without_custom tables done
  unfolding change_table_column_datatype
  change_without_custom columns_of [] done = refl
  change_without_custom columns_of (t ∷ ts) done = >>=-congr (columns_of t) _ _ λ rows.
      rw (column_datatypes_unused rows []) (
        >>=-congr (column_datatypes without_custom rows []) _ _
          λ types. change_without_custom columns_of ts (set t types done))
