-- ===== src/Tests/Applying.antt =====
-- Tests of the queue of tasks and their application, and its theorems at a table of employees.
use transferdb.Prelude.{
  ℕ, String, Bool, true, false, List, [], ◌∷◌, Option, none, some, ok, err, ◌≡◌, ◌⊎◌, refl,
}
use transferdb.Text.{Text, codes, text_eq, to_upper, join, split, replace_all, strings_builder}
use transferdb.Migrate.Logminer.{Logminer}
use transferdb.Migrate.Stmt.{
  Expr, logic_and, eq, other_expr, Node, update_stmt, insert_stmt, drop_table_stmt, IncrError,
  no_redo, insert_column, insert_names, before_data, where_before, where_text,
}
use transferdb.Migrate.Translate.{
  IncrTask, TaskQueue, remove_quotes, undo_text, translate_record, replace_sql, delete_sql,
  translate_oracle_to_my_sql_sql, translate_and_add_oracle_incr_record,
}
use transferdb.Migrate.Translate.Queue.{translated_queue}
use transferdb.Migrate.Apply.{MetaAction, meta_action, incr_apply}
use transferdb.Migrate.Apply.Atomic.{IsCut, incr_apply-atomic}

abbrev record_of : ℕ → String → String → String → Logminer
record_of n table redo op = record {
  scn = n;
  source_schema = codes "HR";
  source_table = codes table;
  target_schema = codes "hr";
  target_table = codes table;
  sql_redo = codes redo;
  sql_undo = [];
  operation = codes op;
}

abbrev restore : Expr → Text
restore _ = []

abbrev as_is : List Text → List Text
as_is ks = ks

abbrev parse_as : Node → Text → Option (List Node)
parse_as n _ = some (n ∷ [])

-- a record of a dropped table, its task, and a record with no statement
abbrev drop_record : Logminer
drop_record = record_of 9 "EMP" "DROP" "DDL"

abbrev empty_record : Logminer
empty_record = record_of 9 "EMP" "" "INSERT"

abbrev drop_task : IncrTask
drop_task = record {
  global_scn = 9;
  source_schema = codes "HR";
  source_table = codes "EMP";
  target_schema = codes "hr";
  target_table = codes "EMP";
  operation = codes "DDL";
  oracle_redo = codes "DROP";
  my_sql_redo = codes "DROP TABLE HR.EMP" ∷ [];
  operation_type = codes "DROP TABLE";
}

translated_drop :
    translate_record (parse_as drop_table_stmt) restore as_is drop_record ≡ ok drop_task
unfolding translate_record translate_oracle_to_my_sql_sql remove_quotes undo_text
translated_drop =
    unfold transferdb.Migrate.Translate.parse_stmt transferdb.Migrate.Translate.translate_stmt
      transferdb.Migrate.Translate.table_sql transferdb.Migrate.Stmt.extract_stmt replace_all split
      join strings_builder to_upper text_eq transferdb.Text.split_loop transferdb.Text.has_prefix in
    refl

untranslated : translate_record (parse_as drop_table_stmt) restore as_is empty_record ≡ err no_redo
unfolding translate_record
untranslated = refl

translated_queue_example :
    translate_and_add_oracle_incr_record (parse_as drop_table_stmt) restore as_is (drop_record ∷ [])
    ≡ record { tasks = drop_task ∷ []; closed = true; error = none }
translated_queue_example =
    translated_queue (parse_as drop_table_stmt) restore as_is (drop_record ∷ []) (drop_task ∷ [])
      (translated_drop, tt)

ddl_record : text_eq (codes "DDL") (codes "DDL") ≡ true
unfolding text_eq
ddl_record = refl

abbrev always : Text → Bool
always _ = true

abbrev commits : List Text → Bool
commits _ = true

abbrev all_carried : MetaAction → Bool
all_carried _ = true

incr_apply-atomic_example :
    let r = incr_apply true always commits all_carried drop_task in
    (r.action ≡ some (meta_action drop_task))
    × ((true ≡ true) × (r.written ≡ drop_task.my_sql_redo)
        ⊎ (true ≡ false) × (false ≡ true) × (r.written ≡ [])
        ⊎ (true ≡ false) × (false ≡ false) × IsCut always r.written drop_task.my_sql_redo)
unfolding text_eq
incr_apply-atomic_example = incr_apply-atomic true always commits all_carried drop_task
