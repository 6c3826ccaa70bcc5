-- ===== src/Migrate/Full/Start.antt =====
-- module/migrate/sql/oracle/o2m/full.go, `Full` behind its checks of the version and the character sets:
-- which tables are started, which are resumed, and when the task is refused.
pub mod Refused
pub mod Skipped
use transferdb.Prelude.{
  ℕ, Bool, true, false, ◌&&◌, ◌++◌, List, [], ◌∷◌, map, Option, none, some, ltb, if◌then◌else◌, ℤ,
  pos, negsuc, eqb_ℤ,
}
use transferdb.Text.{Text, to_upper}
use transferdb.Dict.{Dict}
use transferdb.Common.Sets.{filter_difference_string_items}
use transferdb.Meta.{
  WaitSyncMeta, FullSyncMeta, MetaDb, no_wait_sync_meta, no_full_sync_meta, waiting, running,
  success, failed,
}
use transferdb.Meta.Wait.{
  create_wait_sync_meta, detail_wait_sync_meta, detail_wait_sync_meta_success_tables,
  query_wait_sync_meta_by_part_task, delete_wait_sync_meta, delete_wait_sync_meta_success_tables,
  counts_err_wait_sync_meta_by_schema,
}
use transferdb.Meta.Full.{
  delete_full_sync_meta_by_schema_sync_mode, counts_full_sync_meta_by_task_table,
  delete_chunk_error_detail_by_schema_task_mode,
}
use transferdb.Migrate.Full.{Config, ChunkStep, full_part_sync_table}
use transferdb.Migrate.Full.Columns.{RowColumn}
use transferdb.Migrate.Full.Init.{
  MigrateConfig, InitError, Statements, Done, init_wait_sync_table_chunk,
}

pub data FullError : Type 0 where
  truncate_failed : FullError
  failed_tables : FullError
  inconsistent_checkpoint : List Text → FullError
  init_failed : InitError → FullError

-- the meta database, the tables of the target that were emptied, and the error
pub record FullResult : Type 0 where
  pub db : MetaDb
  pub truncated : List Text
  pub error : Option FullError

abbrev pub is_empty : {A : Type 0} → List A → Bool
is_empty [] = true
is_empty (x ∷ xs) = false

abbrev pub init_error : Option InitError → Option FullError
init_error none = none
init_error (some e) = some (init_failed e)

module _ (same : Text → Text → Bool) (cfg : Config) where
  abbrev pub schema_key : WaitSyncMeta
  schema_key = record no_wait_sync_meta {
    db_type_s = cfg.db_type_s;
    db_type_t = cfg.db_type_t;
    schema_name_s = to_upper cfg.source_schema;
    task_mode = cfg.task_mode;
  }

  -- a table that the meta database does not know waits
  unfoldable pub ensure_waiting : Text → List WaitSyncMeta → List WaitSyncMeta
  ensure_waiting t rows =
      if is_empty (detail_wait_sync_meta same (record schema_key { table_name_s = t }) rows)
      then create_wait_sync_meta same
          (record schema_key {
            table_name_s = to_upper t;
            task_status = waiting;
            global_scn_s = 0;
            chunk_total_nums = negsuc 0;
          })
          rows
      else rows

  unfoldable pub ensure_all : List Text → List WaitSyncMeta → List WaitSyncMeta
  unfolding ensure_waiting
  ensure_all [] rows = rows
  ensure_all (t ∷ ts) rows = ensure_all ts (ensure_waiting t rows)

  -- without checkpoints: the loop over the tables, which ends when one cannot be emptied
  unfoldable pub clear_tables : (Text → Bool) → List Text → FullResult → FullResult
  unfolding ensure_waiting
  clear_tables truncates [] r = r
  clear_tables truncates (t ∷ ts) r =
      let deleted =
        delete_wait_sync_meta same
          (record schema_key { schema_name_s = cfg.source_schema; table_name_s = t })
          r.db.wait_sync_meta in
      let rest = clear_tables truncates ts (record {
        db = record (r.db) { wait_sync_meta = ensure_waiting t deleted };
        truncated = r.truncated ++ t ∷ [];
        error = none;
      }) in
      if truncates t then rest else record {
        db = record (r.db) { wait_sync_meta = deleted };
        truncated = r.truncated;
        error = some truncate_failed;
      }

  unfoldable pub clear_task : (Text → Bool) → List Text → MetaDb → FullResult
  unfolding clear_tables
  clear_task truncates exporters db =
      let q : FullSyncMeta = record no_full_sync_meta {
        db_type_s = cfg.db_type_s;
        db_type_t = cfg.db_type_t;
        schema_name_s = cfg.source_schema;
      } in
      clear_tables truncates exporters (record {
        db = record db {
          full_sync_meta =
              delete_full_sync_meta_by_schema_sync_mode same
                (record q { task_mode = to_upper cfg.task_mode }) db.full_sync_meta;
          chunk_error_detail =
              delete_chunk_error_detail_by_schema_task_mode same
                (record q { task_mode = cfg.task_mode }) db.chunk_error_detail;
        };
        truncated = [];
        error = none;
      })

  -- the rows of tables that are done and no longer asked for
  unfoldable pub clear_success :
      (List Text → List Text → List Text) → List Text → List WaitSyncMeta → List WaitSyncMeta
  clear_success difference exporters rows =
      let q : WaitSyncMeta = record schema_key { task_status = success } in
      let clear_tables =
        filter_difference_string_items difference (detail_wait_sync_meta_success_tables same q rows)
          exporters in
      if is_empty clear_tables
      then rows
      else delete_wait_sync_meta_success_tables same q clear_tables rows

  unfoldable pub wait_sync_tables : List WaitSyncMeta → List Text
  wait_sync_tables rows =
      map (λ (r : WaitSyncMeta). to_upper r.table_name_s)
        (detail_wait_sync_meta same
          (record schema_key {
            task_status = waiting;
            global_scn_s = 0;
            chunk_total_nums = negsuc 0;
          })
          rows)

  unfoldable pub part_sync_details : List WaitSyncMeta → List WaitSyncMeta
  part_sync_details rows =
      query_wait_sync_meta_by_part_task same (record schema_key { task_status = running }) rows

  -- as many chunks as the row of the table says
  unfoldable pub is_consistent : MetaDb → WaitSyncMeta → Bool
  is_consistent db t =
      eqb_ℤ
        (pos (
          counts_full_sync_meta_by_task_table same
            (record no_full_sync_meta {
              db_type_s = t.db_type_s;
              db_type_t = t.db_type_t;
              schema_name_s = to_upper t.schema_name_s;
              table_name_s = t.table_name_s;
              task_mode = t.task_mode;
            })
            db.full_sync_meta))
        t.chunk_total_nums

  -- the tables whose chunks are not the number of their row
  unfoldable pub panic_tables : MetaDb → List WaitSyncMeta → List Text
  unfolding is_consistent
  panic_tables db [] = []
  panic_tables db (t ∷ ts) =
      if is_consistent db t then panic_tables db ts else t.table_name_s ∷ panic_tables db ts

  module _ (names : Dict Text) (rules : Dict MigrateConfig) (global_scn : ℕ)
      (partition_tables : List Text) (names_of : Text → Option (List Text))
      (copy : List Text → FullSyncMeta → Option Text) (order : List FullSyncMeta → List ChunkStep)
      (columns : Text → Option (List RowColumn)) (statistics_rows : Text → Option ℕ)
      (chunk_cmds : Text → Option (List Text)) (succeeds : Statements) where
    -- `FullWaitSyncTable`
    unfoldable pub full_wait_sync_table : List Text → MetaDb → Done
    full_wait_sync_table tables db =
        let made =
          init_wait_sync_table_chunk same cfg names rules global_scn partition_tables columns
            statistics_rows chunk_cmds succeeds tables db in
        elim made.error [
          | some e ↦ made
          | none ↦ record {
            db = full_part_sync_table same cfg names_of copy order tables made.db;
            error = none;
          }
        ]

    -- the tables that are resumed, and then those that are started
    unfoldable pub migrate_tables : List Text → List Text → List Text → MetaDb → FullResult
    unfolding full_wait_sync_table
    migrate_tables truncated part [] db = record {
      db = full_part_sync_table same cfg names_of copy order part db;
      truncated = truncated;
      error = none;
    }
    migrate_tables truncated part (t ∷ ts) db =
        let done =
          full_wait_sync_table (t ∷ ts)
            (full_part_sync_table same cfg names_of copy order part db) in
        record { db = done.db; truncated = truncated; error = init_error done.error }

    -- behind the clearing of the rows of other tasks
    unfoldable pub resume_task : List Text → List Text → MetaDb → FullResult
    unfolding ensure_all wait_sync_tables part_sync_details panic_tables migrate_tables
    resume_task truncated exporters db =
        let known = record db { wait_sync_meta = ensure_all exporters db.wait_sync_meta } in
        let part = part_sync_details known.wait_sync_meta in
        let bad = panic_tables known part in
        if ltb 0 (
          counts_err_wait_sync_meta_by_schema same (record schema_key { task_status = failed })
            db.wait_sync_meta)
        then record { db = db; truncated = truncated; error = some failed_tables }
        else if is_empty bad
        then migrate_tables truncated (map (λ (w : WaitSyncMeta). w.table_name_s) part)
            (wait_sync_tables known.wait_sync_meta) known
        else record {
          db = known;
          truncated = truncated;
          error = some (inconsistent_checkpoint bad);
        }

    module _ (difference : List Text → List Text → List Text) (truncates : Text → Bool) where
      -- the clearing, when checkpoints are not enabled
      unfoldable pub prepare : Bool → List Text → MetaDb → FullResult
      unfolding clear_task
      prepare true exporters db = record { db = db; truncated = []; error = none }
      prepare false exporters db = clear_task truncates exporters db

      unfoldable pub full_after : List Text → FullResult → FullResult
      unfolding clear_success resume_task
      full_after exporters cleared = elim cleared.error [
        | some e ↦ cleared
        | none ↦ resume_task cleared.truncated exporters (record (cleared.db) {
          wait_sync_meta = clear_success difference exporters cleared.db.wait_sync_meta;
        })
      ]

      unfoldable pub full : List Text → MetaDb → FullResult
      unfolding prepare full_after
      full exporters db = full_after exporters (prepare cfg.enable_checkpoint exporters db)
