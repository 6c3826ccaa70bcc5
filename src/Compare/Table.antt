-- ===== src/Compare/Table.antt =====
-- module/compare/oracle/o2m/compare.go, `comparePartTableTasks` and `compareWaitTableTasks`: the comparison
-- of tables whose chunks are known, and the chunks of the others. Parameters: `same`, the collation of the
-- meta database, and `report`, the report of a chunk. The goroutines of a table run one after the other.
pub mod Run
pub mod Settled
use transferdb.Prelude.{
  ℕ, suc, Bool, true, false, List, [], ◌∷◌, ◌++◌, map, Option, none, some, ◌==◌, if◌then◌else◌,
  Result, ok, err, panic, ◌>>=◌, ℤ, pos,
}
use transferdb.Text.{Text, codes, equal_fold}
use transferdb.Meta.{WaitSyncMeta, no_wait_sync_meta, waiting, running, success, failed}
use transferdb.Meta.Wait.{update_wait_sync_meta}
use transferdb.Meta.Compare.{
  DataCompareMeta, CompareDb, no_data_compare_meta, detail_data_compare_meta,
  update_data_compare_meta, counts_error_data_compare_meta,
  delete_table_data_compare_meta_and_update_wait_sync_meta,
}
use transferdb.Compare.Rows.{DbSummary, RowError}
use transferdb.Compare.Report.{ReportError, report_check_crc32, report_check_rows}
use transferdb.Compare.Column.{
  ColumnError, Dictionary, adjust_db_select_column, filter_db_where_column,
}
use transferdb.Compare.Chunk.{Config, Chunk, Databases, ChunkError, Split, split}

-- the status that a chunk gets; no report panics
abbrev pub outcome : Result ReportError Text → Text
outcome (ok report) = if equal_fold report [] then success else failed
outcome (err e) = failed
outcome panic = failed

module _ (same : Text → Text → Bool) (cfg : Config) where
  abbrev pub compare_key : Text → DataCompareMeta
  compare_key t = record no_data_compare_meta {
    db_type_s = cfg.db_type_s;
    db_type_t = cfg.db_type_t;
    schema_name_s = cfg.source_schema;
    table_name_s = t;
    task_mode = cfg.task_mode;
  }

  abbrev pub wait_key : Text → WaitSyncMeta
  wait_key t = record no_wait_sync_meta {
    db_type_s = cfg.db_type_s;
    db_type_t = cfg.db_type_t;
    schema_name_s = cfg.source_schema;
    table_name_s = t;
    task_mode = cfg.task_mode;
  }

  -- `waitCompareMetas`, with the failed ones behind
  unfoldable pub chunks_to_compare : Text → List DataCompareMeta → List DataCompareMeta
  unfolding detail_data_compare_meta
  chunks_to_compare t rows =
      detail_data_compare_meta same (record (compare_key t) { task_status = waiting }) rows
      ++ detail_data_compare_meta same (record (compare_key t) { task_status = failed }) rows

  -- the statements after the last goroutine of a table
  unfoldable pub settle_table : Text → CompareDb → CompareDb
  unfolding counts_error_data_compare_meta delete_table_data_compare_meta_and_update_wait_sync_meta
      update_wait_sync_meta
  settle_table t db =
      let bad =
        counts_error_data_compare_meta same (record (compare_key t) { task_status = failed })
          db.data_compare_meta in
      let good =
        counts_error_data_compare_meta same (record (compare_key t) { task_status = success })
          db.data_compare_meta in
      if bad == 0
      then delete_table_data_compare_meta_and_update_wait_sync_meta same (compare_key t)
          (record (wait_key t) {
            task_status = success;
            chunk_success_nums = pos good;
            chunk_failed_nums = pos 0;
          })
          db
      else record db {
        wait_sync_meta =
            update_wait_sync_meta same (wait_key t)
              (λ r. record r {
                task_status = failed;
                chunk_success_nums = pos good;
                chunk_failed_nums = pos bad;
              })
              db.wait_sync_meta;
      }

  module _ (report : DataCompareMeta → Result ReportError Text) where
    -- the goroutines of some chunks
    unfoldable pub compare_chunks :
        List DataCompareMeta → List DataCompareMeta → List DataCompareMeta
    unfolding update_data_compare_meta
    compare_chunks [] rows = rows
    compare_chunks (m ∷ ms) rows =
        compare_chunks ms (update_data_compare_meta same m (outcome (report m)) rows)

    unfoldable pub compare_table : Text → CompareDb → CompareDb
    unfolding update_wait_sync_meta chunks_to_compare compare_chunks settle_table
    compare_table t db = settle_table t (record {
      wait_sync_meta =
          update_wait_sync_meta same (wait_key t) (λ r. record r { task_status = running })
            db.wait_sync_meta;
      data_compare_meta =
          compare_chunks (chunks_to_compare t db.data_compare_meta) db.data_compare_meta;
    })

    unfoldable pub compare_part_table_tasks : List Text → CompareDb → CompareDb
    unfolding compare_table
    compare_part_table_tasks [] db = db
    compare_part_table_tasks (t ∷ ts) db = compare_part_table_tasks ts (compare_table t db)

-- what the two databases answer to the queries of a report
pub record Answers : Type 0 where
  pub oracle_rows : Text → Result RowError DbSummary
  pub my_sql_rows : Text → Result RowError DbSummary
  pub oracle_count : Text → Option ℤ
  pub my_sql_count : Text → Option ℤ

-- `Report.Report`
unfoldable pub report_of :
    (List Text → List Text → List Text)
    → (List (List Text) → Text)
    → Bool
    → Answers
    → DataCompareMeta
    → Result ReportError Text
unfolding report_check_crc32 report_check_rows
report_of difference render only_check_rows a m =
    if only_check_rows
    then report_check_rows difference render a.oracle_count a.my_sql_count m
    else report_check_crc32 difference render a.oracle_rows a.my_sql_rows m

pub record Task : Type 0 where
  pub source_table_name : Text
  pub target_table_name : Text

pub data TableError : Type 0 where
  no_scn : TableError
  column_failed : ColumnError → TableError
  partition_failed : Text → TableError
  split_failed : ChunkError → TableError

-- how the tables that wait end
pub record Compared : Type 0 where
  pub db : CompareDb
  pub failure : Option TableError

abbrev pub column_answer : {A : Type 0} → Result ColumnError A → Result TableError A
column_answer (ok a) = ok a
column_answer (err e) = err (column_failed e)
column_answer panic = panic

abbrev pub answer_or : {A : Type 0} → TableError → Option A → Result TableError A
answer_or e none = err e
answer_or e (some a) = ok a

abbrev pub yes_or_no : Bool → Text
yes_or_no true = codes "YES"
yes_or_no false = codes "NO"

-- Parameters: the dictionary of each table, and whether Oracle says that it is partitioned
module _ (same : Text → Text → Bool) (dictionary : Text → Dictionary)
    (partitioned : Text → Option Bool) (o : Databases) (cfg : Config) where
  -- `NewChunk` of the tasks from an index on
  unfoldable pub new_chunks : ℕ → ℕ → List Task → Result TableError (List Chunk)
  unfolding adjust_db_select_column filter_db_where_column
  new_chunks cid scn [] = ok []
  new_chunks cid scn (t ∷ ts) = do
    infos ← column_answer (adjust_db_select_column (dictionary t.source_table_name))
    column ← column_answer (filter_db_where_column (dictionary t.source_table_name))
    is_partition ←
        answer_or (partition_failed t.source_table_name) (partitioned t.source_table_name)
    rest ← new_chunks (suc cid) scn ts
    ok (
        record {
          chunk_id = cid;
          source_global_scn = scn;
          source_table = t.source_table_name;
          target_table = t.target_table_name;
          is_partition = yes_or_no is_partition;
          source_column_info = infos.0;
          target_column_info = infos.1;
          where_column = column;
        }
        ∷ rest)

  -- every split is run, and the first error is kept
  abbrev pub first_error : Option ChunkError → Option ChunkError → Option ChunkError
  first_error (some e) next = some e
  first_error none next = next

  unfoldable pub run_splits : List Chunk → CompareDb → Split
  unfolding split
  run_splits [] db = record { db = db; failure = none }
  run_splits (c ∷ cs) db =
      let s = split same o cfg c db in
      let rest = run_splits cs s.db in
      record { db = rest.db; failure = first_error s.failure rest.failure }

  module _ (report : DataCompareMeta → Result ReportError Text) where
    abbrev pub after_splits : List Text → CompareDb → Option ChunkError → Compared
    after_splits tables db none = record {
      db = compare_part_table_tasks same cfg report tables db;
      failure = none;
    }
    after_splits tables db (some e) = record { db = db; failure = some (split_failed e) }

    abbrev pub with_chunk_list :
        List Text → CompareDb → Result TableError (List Chunk) → Result TableError Compared
    with_chunk_list tables db (ok chunks) =
        ok (after_splits tables (run_splits chunks db).db (run_splits chunks db).failure)
    with_chunk_list tables db (err e) = ok (record { db = db; failure = some e })
    with_chunk_list tables db panic = panic

    unfoldable pub compare_wait_table_tasks :
        Option ℕ → List Task → CompareDb → Result TableError Compared
    unfolding new_chunks run_splits compare_part_table_tasks
    compare_wait_table_tasks none tasks db = ok (record { db = db; failure = some no_scn })
    compare_wait_table_tasks (some scn) tasks db =
        with_chunk_list (map (λ (t : Task). t.source_table_name) tasks) db (new_chunks 0 scn tasks)
