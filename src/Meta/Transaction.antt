-- ===== src/Meta/Transaction.antt =====
-- database/meta/transaction.go: the statements that change two tables of the meta database at once.
use transferdb.Prelude.{Bool, ◌&&◌, not, [], ◌∷◌, ◌++◌, filter}
use transferdb.Text.{Text, to_upper}
use transferdb.Meta.{
  WaitSyncMeta, FullSyncMeta, IncrSyncMeta, ChunkErrorDetail, MetaDb, update_where,
}
use transferdb.Meta.Wait.{of_wait_table}
use transferdb.Meta.Full.{update_full_sync_meta_chunk}

module _ (same : Text → Text → Bool) where
  -- the columns of a table of a task, where the mode is taken as it is
  abbrev pub of_full_table_mode : FullSyncMeta → FullSyncMeta → Bool
  of_full_table_mode q r =
      same r.db_type_s (to_upper q.db_type_s)
      && same r.db_type_t (to_upper q.db_type_t)
      && same r.schema_name_s (to_upper q.schema_name_s)
      && same r.table_name_s (to_upper q.table_name_s)
      && same r.task_mode q.task_mode

  unfoldable pub delete_table_full_sync_meta_and_update_wait_sync_meta :
      FullSyncMeta → WaitSyncMeta → MetaDb → MetaDb
  delete_table_full_sync_meta_and_update_wait_sync_meta delete_s update_s db = record db {
    full_sync_meta = filter (λ r. not (of_full_table_mode delete_s r)) db.full_sync_meta;
    wait_sync_meta =
        update_where (of_wait_table same update_s)
          (λ r. record r {
            task_status = update_s.task_status;
            chunk_success_nums = update_s.chunk_success_nums;
            chunk_failed_nums = update_s.chunk_failed_nums;
          })
          db.wait_sync_meta;
  }

  -- no column of `chunk_error_detail` is unique, so the row is never ignored
  unfoldable pub update_full_sync_meta_chunk_and_create_chunk_error_detail :
      FullSyncMeta → Text → ChunkErrorDetail → MetaDb → MetaDb
  unfolding update_full_sync_meta_chunk
  update_full_sync_meta_chunk_and_create_chunk_error_detail detail_s status chunk_error_s db =
      record db {
        chunk_error_detail = db.chunk_error_detail ++ chunk_error_s ∷ [];
        full_sync_meta = update_full_sync_meta_chunk same detail_s status db.full_sync_meta;
      }

  -- the columns of a table whose chunks have been made
  abbrev pub chunked : WaitSyncMeta → WaitSyncMeta → WaitSyncMeta
  chunked w r = record r {
    table_num_rows = w.table_num_rows;
    global_scn_s = w.global_scn_s;
    consistent_read = w.consistent_read;
    chunk_total_nums = w.chunk_total_nums;
    chunk_success_nums = w.chunk_success_nums;
    chunk_failed_nums = w.chunk_failed_nums;
    is_partition = w.is_partition;
  }

  unfoldable pub create_full_sync_meta_and_update_wait_sync_meta :
      FullSyncMeta → WaitSyncMeta → MetaDb → MetaDb
  create_full_sync_meta_and_update_wait_sync_meta full_sync_meta wait_sync_meta db = record db {
    full_sync_meta = db.full_sync_meta ++ full_sync_meta ∷ [];
    wait_sync_meta =
        update_where (of_wait_table same wait_sync_meta) (chunked wait_sync_meta) db.wait_sync_meta;
  }

  unfoldable pub delete_incr_sync_meta_and_wait_sync_meta :
      IncrSyncMeta → WaitSyncMeta → MetaDb → MetaDb
  delete_incr_sync_meta_and_wait_sync_meta i w db = record db {
    incr_sync_meta =
        filter
          (λ r. not (
            same r.db_type_s (to_upper i.db_type_s)
            && same r.db_type_t (to_upper i.db_type_t)
            && same r.schema_name_s (to_upper i.schema_name_s)
            && same r.table_name_s (to_upper i.table_name_s)))
          db.incr_sync_meta;
    wait_sync_meta = filter (λ r. not (of_wait_table same w r)) db.wait_sync_meta;
  }
