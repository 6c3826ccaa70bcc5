-- ===== src/Migrate/Full/Start/Refused.antt =====
-- What a refused task leaves alone.
use transferdb.Prelude.{
  ℕ, Bool, true, false, List, [], ◌∷◌, map, Option, none, some, ltb, ◌≡◌, refl, ap, sym, ◌∙◌, inl,
  inr, Bool-cases,
}
use mathlib.Core.Bool.{false≢true}
use transferdb.Text.{Text}
use transferdb.Dict.{Dict}
use transferdb.Meta.{WaitSyncMeta, FullSyncMeta, MetaDb, failed}
use transferdb.Meta.Wait.{counts_err_wait_sync_meta_by_schema}
use transferdb.Migrate.Full.{Config, ChunkStep}
use transferdb.Migrate.Full.Columns.{RowColumn}
use transferdb.Migrate.Full.Init.{MigrateConfig, InitError, Statements}
use transferdb.Migrate.Full.Start.{
  FullError, truncate_failed, failed_tables, inconsistent_checkpoint, init_failed, FullResult,
  is_empty, schema_key, ensure_all, clear_success, wait_sync_tables, part_sync_details,
  panic_tables, init_error, migrate_tables, resume_task, prepare, full_after, full,
}

-- the task was refused for the state of the meta database
abbrev pub is_refusal : Option FullError → Bool
is_refusal none = false
is_refusal (some truncate_failed) = false
is_refusal (some failed_tables) = true
is_refusal (some (inconsistent_checkpoint ts)) = true
is_refusal (some (init_failed e)) = false

-- no chunk was run, made or deleted, and no table emptied
abbrev pub IsUntouched : MetaDb → List Text → FullResult → Type 0
IsUntouched db truncated r =
    (r.db.full_sync_meta ≡ db.full_sync_meta)
    × (r.db.chunk_error_detail ≡ db.chunk_error_detail)
    × (r.truncated ≡ truncated)

init_error-is_refusal : (o : Option InitError) → is_refusal (init_error o) ≡ false
init_error-is_refusal none = refl
init_error-is_refusal (some e) = refl

module _ (same : Text → Text → Bool) (cfg : Config) (names : Dict Text) (rules : Dict MigrateConfig)
    (global_scn : ℕ) (partition_tables : List Text) (names_of : Text → Option (List Text))
    (copy : List Text → FullSyncMeta → Option Text) (order : List FullSyncMeta → List ChunkStep)
    (columns : Text → Option (List RowColumn)) (statistics_rows : Text → Option ℕ)
    (chunk_cmds : Text → Option (List Text)) (succeeds : Statements) where
  migrated-is_refusal :
      (truncated part wait : List Text) (db : MetaDb)
      → is_refusal
          (migrate_tables same cfg names rules global_scn partition_tables names_of copy order
            columns statistics_rows chunk_cmds succeeds truncated part wait db).error
        ≡ false
  unfolding migrate_tables
  migrated-is_refusal truncated part [] db = refl
  migrated-is_refusal truncated part (t ∷ ts) db = init_error-is_refusal _

  resumed-IsUntouched :
      (truncated exporters : List Text) (db : MetaDb)
      → let r =
          resume_task same cfg names rules global_scn partition_tables names_of copy order columns
            statistics_rows chunk_cmds succeeds truncated exporters db in
        is_refusal r.error ≡ true → IsUntouched db truncated r
  unfolding resume_task
  resumed-IsUntouched truncated exporters db h =
      let known = record db { wait_sync_meta = ensure_all same cfg exporters db.wait_sync_meta } in
      let part = part_sync_details same cfg known.wait_sync_meta in
      let bad = panic_tables same cfg known part in
      elim (Bool-cases (
        ltb 0 (
          counts_err_wait_sync_meta_by_schema same
            (record (schema_key same cfg) { task_status = failed }) db.wait_sync_meta))) [
              | inl e ↦ rw (resume_task, e) (refl, refl, refl)
              | inr e ↦ elim (Bool-cases (is_empty bad)) [
                | inl c ↦
                    let goes_on : is_refusal
                          (resume_task same cfg names rules global_scn partition_tables names_of
                            copy order columns statistics_rows chunk_cmds succeeds truncated
                            exporters db).error
                        ≡ false =
                      rw (resume_task, e, c)
                        (migrated-is_refusal truncated
                          (map (λ (w : WaitSyncMeta). w.table_name_s) part)
                          (wait_sync_tables same cfg known.wait_sync_meta) known) in
                    absurd (false≢true (sym goes_on ∙ h))
                | inr c ↦ rw (resume_task, e, c) (refl, refl, refl)
              ]
            ]

  pub full-checkpoint :
      (difference : List Text → List Text → List Text) (truncates : Text → Bool)
      (exporters : List Text) (db : MetaDb)
      → cfg.enable_checkpoint ≡ true
      → full same cfg names rules global_scn partition_tables names_of copy order columns
          statistics_rows chunk_cmds succeeds difference truncates exporters db
        ≡ resume_task same cfg names rules global_scn partition_tables names_of copy order columns
            statistics_rows chunk_cmds succeeds [] exporters
            (record db {
              wait_sync_meta = clear_success same cfg difference exporters db.wait_sync_meta;
            })
  unfolding full full_after prepare
  full-checkpoint difference truncates exporters db h =
      ap
        (λ b.
          full_after same cfg names rules global_scn partition_tables names_of copy order columns
            statistics_rows chunk_cmds succeeds difference truncates exporters
            (prepare same cfg names rules global_scn partition_tables names_of copy order columns
              statistics_rows chunk_cmds succeeds difference truncates b exporters db))
        h

  -- With checkpoints, a task that is refused, because a table failed before or because the chunks of a
  -- table are not the number of its row, runs, makes and deletes no chunk, and empties no table.
  pub refused-IsUntouched :
      (difference : List Text → List Text → List Text) (truncates : Text → Bool)
      (exporters : List Text) (db : MetaDb)
      → cfg.enable_checkpoint ≡ true
      → is_refusal
          (full same cfg names rules global_scn partition_tables names_of copy order columns
            statistics_rows chunk_cmds succeeds difference truncates exporters db).error
        ≡ true
      → IsUntouched db [] (
          full same cfg names rules global_scn partition_tables names_of copy order columns
            statistics_rows chunk_cmds succeeds difference truncates exporters db)
  refused-IsUntouched difference truncates exporters db h r =
      let e = full-checkpoint difference truncates exporters db h in
      let cleared = record db {
        wait_sync_meta = clear_success same cfg difference exporters db.wait_sync_meta;
      } in
      rw e (
        resumed-IsUntouched [] exporters cleared
          (ap (λ (x : FullResult). is_refusal x.error) (sym e) ∙ r))
