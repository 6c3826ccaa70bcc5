-- ===== src/Migrate/Apply.antt =====
-- module/migrate/sql/oracle/o2m/apply.go, `IncrTask.IncrApply`: the statements of a task are executed
-- and the checkpoint of its table is moved. The databases are parameters: whether the target
-- begins a transaction, executes a statement and commits a list of them, and whether the meta database
-- carries out an action, which is one statement or one transaction of it. Of a commit that fails no
-- statement is kept.
pub mod Atomic
pub mod Dropped
use transferdb.Prelude.{
  ℕ, Bool, true, false, ◌&&◌, List, [], ◌∷◌, ◌++◌, Option, none, some, if◌then◌else◌,
}
use transferdb.Text.{Text, codes, text_eq}
use transferdb.Migrate.Translate.{IncrTask}

-- what is done to the rows of the table in the meta database
pub data MetaAction : Type 0 where
  delete_incr_sync_meta : Text → Text → MetaAction
  update_incr_sync_meta : Text → Text → ℕ → MetaAction

-- The statements that the target keeps, those of a transaction that is left open (`IncrApply` returns
-- without a rollback when a statement of it fails), and the action that the meta database carried out.
pub record Applied : Type 0 where
  pub written : List Text
  pub pending : List Text
  pub action : Option MetaAction

-- the last branch of `IncrApply`
unfoldable pub meta_action : IncrTask → MetaAction
meta_action p =
    if text_eq p.operation (codes "DROP TABLE")
    then delete_incr_sync_meta p.source_schema p.source_table
    else update_incr_sync_meta p.source_schema p.source_table p.global_scn

module _ (begins : Bool) (exec : Text → Bool) (commits : List Text → Bool)
    (meta_exec : MetaAction → Bool) where
  unfoldable pub exec_all : List Text → Bool
  exec_all [] = true
  exec_all (s ∷ ss) = if exec s then exec_all ss else false

  -- the statements in front of the first that fails
  unfoldable pub exec_prefix : List Text → List Text
  exec_prefix [] = []
  exec_prefix (s ∷ ss) = if exec s then s ∷ exec_prefix ss else []

  -- the action behind the statements, if the meta database carries it out
  abbrev pub carried : MetaAction → Option MetaAction
  carried a = if meta_exec a then some a else none

  -- an UPDATE is a transaction; other statements are written one by one
  unfoldable pub incr_apply : IncrTask → Applied
  unfolding exec_all exec_prefix
  incr_apply p =
      let redo = p.my_sql_redo in
      let done : Applied = record {
        written = redo;
        pending = [];
        action = carried (meta_action p);
      } in
      let undone : Applied = record { written = []; pending = []; action = none } in
      if text_eq p.operation_type (codes "UPDATE")
      then if begins
        then if exec_all redo
          then if commits redo then done else undone
          else record { written = []; pending = exec_prefix redo; action = none }
        else undone
      else if exec_all redo
      then done
      else record { written = exec_prefix redo; pending = []; action = none }
