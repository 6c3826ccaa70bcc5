-- ===== src/Migrate/Apply/Dropped.antt =====
-- The branch of `IncrApply` for a dropped table.
use transferdb.Prelude.{true, List, Option, ok, ◌≡◌, refl, ◌∙◌, arith}
use transferdb.Text.{Text, codes, text_eq}
use transferdb.Text.Laws.{text_eq→≡}
use transferdb.Migrate.Logminer.{Logminer, is_ddl}
use transferdb.Migrate.Stmt.{Expr, Node}
use transferdb.Migrate.Translate.{IncrTask, translate_record}
use transferdb.Migrate.Apply.{update_incr_sync_meta, meta_action}

module _ (parse : Text → Option (List Node)) (restore : Expr → Text) (range : List Text → List Text)
    (r : Logminer) (t : IncrTask) where
  operation-translate_record :
      translate_record parse restore range r ≡ ok t → t.operation ≡ r.operation
  unfolding translate_record
  operation-translate_record h = ground arith

  -- The task of a DDL record, a dropped table among them, never deletes the checkpoint of its table:
  -- it moves it to the SCN of the task.
  dropped_table :
      translate_record parse restore range r ≡ ok t
      → is_ddl r ≡ true
      → meta_action t ≡ update_incr_sync_meta t.source_schema t.source_table t.global_scn
  unfolding meta_action text_eq
  dropped_table h ddl =
      let op : t.operation ≡ codes "DDL" =
        operation-translate_record h ∙ text_eq→≡ r.operation (codes "DDL") ddl in
      rw op refl
