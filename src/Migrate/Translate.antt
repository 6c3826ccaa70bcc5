-- ===== src/Migrate/Translate.antt =====
-- module/migrate/sql/oracle/o2m/translate.go: the redo statements of Oracle become statements for
-- MySQL. `parse` stands for the SQL parser and `restore` for its printer; `range` is the order in
-- which Go ranges over a map, which may be any.
pub mod Queue
pub mod Insert
pub mod Update
use transferdb.Prelude.{
  ℕ, Bool, true, false, List, [], ◌∷◌, ◌++◌, map, Option, none, some, if◌then◌else◌, Result, ok,
  err, panic, ◌>>=◌,
}
use transferdb.Text.{Text, codes, text_eq, to_upper, join, replace_all, strings_builder}
use transferdb.Dict.{Dict, get}
use transferdb.Migrate.Logminer.{Logminer}
use transferdb.Migrate.Stmt.{Expr, Node, Stmt, IncrError, no_redo, parse_error, extract_stmt}

pub record IncrTask : Type 0 where
  pub global_scn : ℕ
  pub source_schema : Text
  pub source_table : Text
  pub target_schema : Text
  pub target_table : Text
  pub operation : Text
  pub oracle_redo : Text
  pub my_sql_redo : List Text
  pub operation_type : Text

-- `stmt.Data[col].(string)`: a missing column is a nil interface, whose assertion panics
abbrev pub string_of : Option Text → Result IncrError Text
string_of none = panic
string_of (some v) = ok v

-- the loop over `stmt.Columns`
unfoldable pub values_of : List Text → Dict Text → Result IncrError (List Text)
values_of [] m = ok []
values_of (c ∷ cs) m = do v ← string_of (get c m); vs ← values_of cs m; ok (v ∷ vs)

unfoldable pub replace_sql : Text → Text → List Text → List Text → Text
replace_sql schema table columns values = strings_builder (
    codes "REPLACE INTO "
    ∷ schema
    ∷ codes "."
    ∷ table
    ∷ codes "("
    ∷ join columns (codes ",")
    ∷ codes ")"
    ∷ codes " VALUES "
    ∷ codes "("
    ∷ join values (codes ",")
    ∷ codes ")"
    ∷ [])

unfoldable pub delete_sql : Text → Text → Text → Text
delete_sql schema table [] =
    strings_builder (codes "DELETE FROM " ∷ schema ∷ codes "." ∷ table ∷ [])
delete_sql schema table (c ∷ w) =
    strings_builder (codes "DELETE FROM " ∷ schema ∷ codes "." ∷ table ∷ codes " " ∷ (c ∷ w) ∷ [])

abbrev pub keys : Dict Text → List Text
keys [] = []
keys ((k, v) ∷ m) = k ∷ keys m

unfoldable pub remove_quotes : Text → Text
remove_quotes s = replace_all (replace_all s (codes "\"") []) (codes ";") []

-- the channel `taskQueue`: what was sent, whether it was closed, and the error that is returned
pub record TaskQueue : Type 0 where
  pub tasks : List IncrTask
  pub closed : Bool
  pub error : Option IncrError

unfoldable pub push : IncrTask → TaskQueue → TaskQueue
push t q = record { tasks = t ∷ q.tasks; closed = q.closed; error = q.error }

module _ (parse : Text → Option (List Node)) (restore : Expr → Text)
    (range : List Text → List Text) where
  -- `ParseSQL`, then `ExtractStmt`
  unfoldable pub parse_stmt : Text → Result IncrError Stmt
  parse_stmt sql = elim (parse sql) [
    | none ↦ err parse_error
    | some [] ↦ panic
    | some (node ∷ _) ↦ extract_stmt restore node
  ]

  -- the case UPDATE: the statement is split into a DELETE and a REPLACE
  unfoldable pub translate_update : Stmt → Text → Text → Text → Result IncrError (List Text)
  translate_update stmt undo schema table = do
    undo_stmt ← parse_stmt undo
    let columns : List Text = map to_upper (range (keys stmt.before))
    values ← values_of columns undo_stmt.before
    ok (delete_sql schema table stmt.where_expr ∷ replace_sql schema table columns values ∷ [])

  unfoldable pub translate_insert : Stmt → Text → Text → Result IncrError (List Text)
  translate_insert stmt schema table = do
    values ← values_of stmt.columns stmt.stmt_data
    ok (replace_sql schema table stmt.columns values ∷ [])

  unfoldable pub table_sql : Text → Text → Text → Text
  table_sql verb schema table = strings_builder (verb ∷ schema ∷ codes "." ∷ table ∷ [])

  -- the switch on the operation: the statements and the type of the operation
  unfoldable pub translate_stmt : Stmt → Text → Text → Text → Result IncrError (List Text × Text)
  unfolding text_eq
  translate_stmt stmt undo schema table = do
    let update = translate_update stmt undo schema table
    let insert = translate_insert stmt schema table
    let op = stmt.operation
    if text_eq op (codes "UPDATE")
        then (do sqls ← update; ok (sqls, codes "UPDATE"))
        else if text_eq op (codes "INSERT")
        then (do sqls ← insert; ok (sqls, codes "INSERT"))
        else if text_eq op (codes "DELETE")
        then ok (delete_sql schema table stmt.where_expr ∷ [], codes "DELETE")
        else if text_eq op (codes "TRUNCATE")
        then ok (table_sql (codes "TRUNCATE TABLE ") schema table ∷ [], codes "TRUNCATE TABLE")
        else if text_eq op (codes "DROP")
        then ok (table_sql (codes "DROP TABLE ") schema table ∷ [], codes "DROP TABLE")
        else ok ([], [])

  -- `translateOracleToMySQLSQL`
  unfoldable pub translate_oracle_to_my_sql_sql :
      Text → Text → Text → Text → Result IncrError (List Text × Text)
  translate_oracle_to_my_sql_sql redo undo schema table = do
    stmt ← parse_stmt redo
    translate_stmt stmt undo schema table

  -- the undo statement: quotes and semicolons removed, the schema replaced
  unfoldable pub undo_text : Logminer → Text
  undo_text r = elim (r.sql_undo) [
    | [] ↦ []
    | _ ∷ _ ↦
        replace_all (remove_quotes r.sql_undo) (strings_builder (r.source_schema ∷ codes "." ∷ []))
          (strings_builder (to_upper r.target_schema ∷ codes "." ∷ []))
  ]

  -- one record of `translateAndAddOracleIncrRecord`
  unfoldable pub translate_record : Logminer → Result IncrError IncrTask
  unfolding remove_quotes undo_text
  translate_record r = elim (r.sql_redo) [
    | [] ↦ err no_redo
    | _ ∷ _ ↦ (do
      (sqls, operation_type) ←
          translate_oracle_to_my_sql_sql (remove_quotes r.sql_redo) (undo_text r)
            (to_upper r.target_schema) (to_upper r.target_table)
      ok (record {
        global_scn = r.scn;
        source_schema = r.source_schema;
        source_table = r.source_table;
        target_schema = r.target_schema;
        target_table = r.target_table;
        operation = r.operation;
        oracle_redo = remove_quotes r.sql_redo;
        my_sql_redo = sqls;
        operation_type = operation_type;
      }))
  ]

  -- `translateAndAddOracleIncrRecord`; a panic ends the process, with neither an error nor a close
  unfoldable pub translate_and_add_oracle_incr_record : List Logminer → TaskQueue
  unfolding push
  translate_and_add_oracle_incr_record [] = record { tasks = []; closed = true; error = none }
  translate_and_add_oracle_incr_record (r ∷ rs) = elim (translate_record r) [
    | ok t ↦ push t (translate_and_add_oracle_incr_record rs)
    | err e ↦ record { tasks = []; closed = false; error = some e }
    | panic ↦ record { tasks = []; closed = false; error = none }
  ]
