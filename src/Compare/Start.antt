-- ===== src/Compare/Start.antt =====
-- module/compare/oracle/o2m/compare.go, `NewCompare` from its tables on: which tables are compared, which
-- are resumed, and when the comparison is refused. Parameters: `same`, the collation of the meta database,
-- and `difference`, that of package scylladb/go-set. TruncateDataCompareMeta changes nothing: `Raw` of gorm
-- only prepares a statement, which nothing executes.
pub mod Kept
pub mod Resumed
pub mod Again
use transferdb.Prelude.{
  ℕ, Bool, true, false, ◌&&◌, not, List, [], ◌∷◌, ◌++◌, map, filter, any, length, Option, none,
  some, ltb, if◌then◌else◌, Result, ok, err, panic, ◌>>=◌, ℤ, pos, negsuc, eqb_ℤ,
}
use transferdb.Text.{Text, to_upper}
use transferdb.Common.Sets.{filter_difference_string_items}
use transferdb.Meta.{WaitSyncMeta, no_wait_sync_meta, waiting, running, success, failed}
use transferdb.Meta.Wait.{
  create_wait_sync_meta, detail_wait_sync_meta, detail_wait_sync_meta_success_tables,
  query_wait_sync_meta_by_part_task, delete_wait_sync_meta, delete_wait_sync_meta_success_tables,
  counts_err_wait_sync_meta_by_schema,
}
use transferdb.Meta.Compare.{
  DataCompareMeta, CompareDb, no_data_compare_meta, counts_data_compare_meta_by_task_table,
}
use transferdb.Compare.Chunk.{Config}

pub data StartError : Type 0 where
  duplicate_row : Text → StartError
  failed_tables : StartError
  inconsistent_checkpoint : List Text → StartError

-- the tables whose chunks are resumed, and those that have to be cut into chunks
pub record Tasks : Type 0 where
  pub part_tables : List Text
  pub wait_tables : List Text

pub record Started : Type 0 where
  pub rows : List WaitSyncMeta
  pub tasks : Result StartError Tasks

-- the rows of tables after some statements, and the error of the last one
pub record Made : Type 0 where
  pub rows : List WaitSyncMeta
  pub error : Option StartError

-- the next statements, unless there was an error
abbrev pub and_then : Option StartError → List WaitSyncMeta → (List WaitSyncMeta → Made) → Made
and_then none rows next = next rows
and_then (some e) rows next = record { rows = rows; error = some e }

abbrev pub is_none : {A : Type 0} → List A → Bool
is_none [] = true
is_none (x ∷ xs) = false

module _ (same : Text → Text → Bool) (cfg : Config) where
  abbrev pub schema_key : WaitSyncMeta
  schema_key = record no_wait_sync_meta {
    db_type_s = cfg.db_type_s;
    db_type_t = cfg.db_type_t;
    schema_name_s = to_upper cfg.source_schema;
    task_mode = cfg.task_mode;
  }

  -- a row that waits
  abbrev pub waiting_row : Text → Text → WaitSyncMeta
  waiting_row mode t = record schema_key {
    table_name_s = to_upper t;
    task_mode = mode;
    task_status = waiting;
    global_scn_s = 0;
    chunk_total_nums = negsuc 0;
  }

  -- the columns of the unique index of `wait_sync_meta`
  abbrev pub has_key : WaitSyncMeta → WaitSyncMeta → Bool
  has_key q r =
      same r.db_type_s q.db_type_s
      && same r.db_type_t q.db_type_t
      && same r.schema_name_s q.schema_name_s
      && same r.table_name_s q.table_name_s
      && same r.task_mode q.task_mode

  -- `CreateWaitSyncMeta`, which fails for a row whose key is taken
  unfoldable pub create_unique : WaitSyncMeta → List WaitSyncMeta → Made
  unfolding create_wait_sync_meta
  create_unique w rows =
      if any (has_key w) rows
      then record { rows = rows; error = some (duplicate_row w.table_name_s) }
      else record { rows = create_wait_sync_meta same w rows; error = none }

  -- a table that the meta database does not know under the mode of the task gets a row with the given mode
  unfoldable pub ensure_row : Text → Text → List WaitSyncMeta → Made
  unfolding create_unique detail_wait_sync_meta
  ensure_row mode t rows =
      if is_none (detail_wait_sync_meta same (record schema_key { table_name_s = t }) rows)
      then create_unique (waiting_row mode t) rows
      else record { rows = rows; error = none }

  -- Without checkpoints: the row of the table is made anew. Its mode is not given.
  unfoldable pub reset_table : Text → List WaitSyncMeta → Made
  unfolding ensure_row delete_wait_sync_meta
  reset_table t rows = ensure_row [] t (
      delete_wait_sync_meta same
        (record schema_key { schema_name_s = cfg.source_schema; table_name_s = t }) rows)

  unfoldable pub reset_tables : List Text → List WaitSyncMeta → Made
  unfolding reset_table
  reset_tables [] rows = record { rows = rows; error = none }
  reset_tables (t ∷ ts) rows =
      let made = reset_table t rows in and_then made.error made.rows (reset_tables ts)

  -- the rows of tables that are done and no longer asked for
  unfoldable pub clear_success :
      (List Text → List Text → List Text) → List Text → List WaitSyncMeta → List WaitSyncMeta
  unfolding delete_wait_sync_meta_success_tables detail_wait_sync_meta_success_tables
  clear_success difference exporters rows =
      let q : WaitSyncMeta = record schema_key { task_status = success } in
      let clear_tables =
        filter_difference_string_items difference (detail_wait_sync_meta_success_tables same q rows)
          exporters in
      if is_none clear_tables
      then rows
      else delete_wait_sync_meta_success_tables same q clear_tables rows

  unfoldable pub ensure_rows : List Text → List WaitSyncMeta → Made
  unfolding ensure_row
  ensure_rows [] rows = record { rows = rows; error = none }
  ensure_rows (t ∷ ts) rows =
      let made = ensure_row cfg.task_mode t rows in and_then made.error made.rows (ensure_rows ts)

  -- `waitSyncTables`
  unfoldable pub wait_tables : List WaitSyncMeta → List Text
  unfolding detail_wait_sync_meta
  wait_tables rows =
      map (λ (r : WaitSyncMeta). to_upper r.table_name_s)
        (detail_wait_sync_meta same
          (record schema_key {
            task_status = waiting;
            global_scn_s = 0;
            chunk_total_nums = negsuc 0;
          })
          rows)

  -- the tables that are not done
  unfoldable pub part_rows : List WaitSyncMeta → List WaitSyncMeta
  unfolding query_wait_sync_meta_by_part_task
  part_rows = query_wait_sync_meta_by_part_task same (record schema_key { task_status = running })

  -- Whether a table has as many chunks as its row says. The query gives no name of a table.
  unfoldable pub is_consistent : List DataCompareMeta → WaitSyncMeta → Bool
  unfolding counts_data_compare_meta_by_task_table
  is_consistent chunks t =
      eqb_ℤ
        (pos (
          counts_data_compare_meta_by_task_table same
            (record no_data_compare_meta {
              db_type_s = t.db_type_s;
              db_type_t = t.db_type_t;
              schema_name_s = t.schema_name_s;
              task_mode = t.task_mode;
              task_status = t.task_status;
            })
            chunks))
        t.chunk_total_nums

  -- `panicTblFullSlice`
  unfoldable pub panic_tables : List DataCompareMeta → List WaitSyncMeta → List Text
  unfolding part_rows is_consistent
  panic_tables chunks rows =
      map (λ (r : WaitSyncMeta). r.table_name_s)
        (filter (λ t. not (is_consistent chunks t)) (part_rows rows))

  abbrev pub tasks_of : List DataCompareMeta → List WaitSyncMeta → Result StartError Tasks
  tasks_of chunks rows =
      if is_none (panic_tables chunks rows)
      then ok (record {
        part_tables = map (λ (r : WaitSyncMeta). r.table_name_s) (part_rows rows);
        wait_tables = wait_tables rows;
      })
      else err (inconsistent_checkpoint (panic_tables chunks rows))

  -- the tasks, unless there was an error
  abbrev pub with_rows : List DataCompareMeta → List WaitSyncMeta → Option StartError → Started
  with_rows chunks rows none = record { rows = rows; tasks = tasks_of chunks rows }
  with_rows chunks rows (some e) = record { rows = rows; tasks = err e }

  unfoldable pub start_tables :
      (List Text → List Text → List Text)
      → List Text
      → List DataCompareMeta
      → List WaitSyncMeta
      → Started
  unfolding clear_success ensure_rows counts_err_wait_sync_meta_by_schema panic_tables wait_tables
  start_tables difference exporters chunks rows =
      let cleared = clear_success difference exporters rows in
      if ltb 0 (
        counts_err_wait_sync_meta_by_schema same (record schema_key { task_status = failed })
          cleared)
      then record { rows = cleared; tasks = err failed_tables }
      else with_rows chunks (ensure_rows exporters cleared).rows
          (ensure_rows exporters cleared).error

  abbrev pub after_reset :
      (List Text → List Text → List Text)
      → List Text
      → List DataCompareMeta
      → List WaitSyncMeta
      → Option StartError
      → Started
  after_reset difference exporters chunks rows none = start_tables difference exporters chunks rows
  after_reset difference exporters chunks rows (some e) = record { rows = rows; tasks = err e }

  unfoldable pub start : (List Text → List Text → List Text) → List Text → CompareDb → Started
  unfolding reset_tables start_tables
  start difference [] db = record {
    rows = db.wait_sync_meta;
    tasks = ok (record { part_tables = []; wait_tables = [] });
  }
  start difference (t ∷ ts) db =
      if cfg.enable_checkpoint
      then start_tables difference (t ∷ ts) db.data_compare_meta db.wait_sync_meta
      else after_reset difference (t ∷ ts) db.data_compare_meta
          (reset_tables (t ∷ ts) db.wait_sync_meta).rows
          (reset_tables (t ∷ ts) db.wait_sync_meta).error
