-- ===== src/Meta/Compare.antt =====
-- database/meta/data_compare_meta.go: the chunks of a comparison, and the statements of transaction.go on
-- them and on the rows of tables.
use transferdb.Prelude.{ℕ, Bool, ◌&&◌, not, List, [], ◌∷◌, ◌++◌, length, filter}
use transferdb.Text.{Text, to_upper}
use transferdb.Meta.{WaitSyncMeta, update_where}
use transferdb.Meta.Full.{given}
use transferdb.Meta.Wait.{of_wait_table}

pub record DataCompareMeta : Type 0 where
  pub db_type_s : Text
  pub db_type_t : Text
  pub schema_name_s : Text
  pub table_name_s : Text
  pub column_detail_s : Text
  pub schema_name_t : Text
  pub table_name_t : Text
  pub column_detail_t : Text
  pub where_column : Text
  pub where_range : Text
  pub task_mode : Text
  pub task_status : Text
  pub is_partition : Text

-- the two tables that a comparison changes
pub record CompareDb : Type 0 where
  pub wait_sync_meta : List WaitSyncMeta
  pub data_compare_meta : List DataCompareMeta

abbrev pub no_data_compare_meta : DataCompareMeta
no_data_compare_meta = record {
  db_type_s = [];
  db_type_t = [];
  schema_name_s = [];
  table_name_s = [];
  column_detail_s = [];
  schema_name_t = [];
  table_name_t = [];
  column_detail_t = [];
  where_column = [];
  where_range = [];
  task_mode = [];
  task_status = [];
  is_partition = [];
}

-- the columns of a table whose chunks have been made
abbrev pub with_chunks : WaitSyncMeta → WaitSyncMeta → WaitSyncMeta
with_chunks w r = record r {
  global_scn_s = w.global_scn_s;
  chunk_total_nums = w.chunk_total_nums;
  chunk_success_nums = w.chunk_success_nums;
  chunk_failed_nums = w.chunk_failed_nums;
  is_partition = w.is_partition;
}

module _ (same : Text → Text → Bool) where
  abbrev pub of_compare_table : DataCompareMeta → DataCompareMeta → Bool
  of_compare_table q r =
      same r.db_type_s (to_upper q.db_type_s)
      && same r.db_type_t (to_upper q.db_type_t)
      && same r.schema_name_s (to_upper q.schema_name_s)
      && same r.table_name_s (to_upper q.table_name_s)
      && same r.task_mode (to_upper q.task_mode)

  unfoldable pub detail_data_compare_meta :
      DataCompareMeta → List DataCompareMeta → List DataCompareMeta
  detail_data_compare_meta q = filter λ r.
      given same q.db_type_s r.db_type_s
      && given same q.db_type_t r.db_type_t
      && given same q.schema_name_s r.schema_name_s
      && given same q.table_name_s r.table_name_s
      && given same q.column_detail_s r.column_detail_s
      && given same q.schema_name_t r.schema_name_t
      && given same q.table_name_t r.table_name_t
      && given same q.column_detail_t r.column_detail_t
      && given same q.where_column r.where_column
      && given same q.where_range r.where_range
      && given same q.task_mode r.task_mode
      && given same q.task_status r.task_status
      && given same q.is_partition r.is_partition

  -- with the only update that matters here, of the status
  unfoldable pub update_data_compare_meta :
      DataCompareMeta → Text → List DataCompareMeta → List DataCompareMeta
  update_data_compare_meta q status =
      update_where (λ r. of_compare_table q r && same r.where_range q.where_range)
        (λ r. record r { task_status = status })

  unfoldable pub counts_error_data_compare_meta : DataCompareMeta → List DataCompareMeta → ℕ
  counts_error_data_compare_meta q rows =
      length (filter (λ r. of_compare_table q r && same r.task_status q.task_status) rows)

  unfoldable pub counts_data_compare_meta_by_task_table : DataCompareMeta → List DataCompareMeta → ℕ
  counts_data_compare_meta_by_task_table q rows = length (filter (of_compare_table q) rows)

  abbrev pub of_compare_table_mode : DataCompareMeta → DataCompareMeta → Bool
  of_compare_table_mode q r =
      same r.db_type_s (to_upper q.db_type_s)
      && same r.db_type_t (to_upper q.db_type_t)
      && same r.schema_name_s (to_upper q.schema_name_s)
      && same r.table_name_s (to_upper q.table_name_s)
      && same r.task_mode q.task_mode

  unfoldable pub delete_table_data_compare_meta_and_update_wait_sync_meta :
      DataCompareMeta → WaitSyncMeta → CompareDb → CompareDb
  delete_table_data_compare_meta_and_update_wait_sync_meta delete_s update_s db = record db {
    data_compare_meta = filter (λ r. not (of_compare_table_mode delete_s r)) db.data_compare_meta;
    wait_sync_meta =
        update_where (of_wait_table same update_s)
          (λ r. record r {
            task_status = update_s.task_status;
            chunk_success_nums = update_s.chunk_success_nums;
            chunk_failed_nums = update_s.chunk_failed_nums;
          })
          db.wait_sync_meta;
  }

  unfoldable pub create_data_compare_meta_and_update_wait_sync_meta :
      DataCompareMeta → WaitSyncMeta → CompareDb → CompareDb
  create_data_compare_meta_and_update_wait_sync_meta m w db = record db {
    data_compare_meta = db.data_compare_meta ++ m ∷ [];
    wait_sync_meta = update_where (of_wait_table same w) (with_chunks w) db.wait_sync_meta;
  }
