-- ===== src/Meta/Full.antt =====
-- database/meta/sync_meta_full.go: the queries on the rows of chunks, and the one of
-- chunk_error_detail.go on the errors of a schema.
use transferdb.Prelude.{
  ℕ, Bool, true, ◌&&◌, not, List, [], ◌∷◌, ◌++◌, length, filter, ◌==◌, if◌then◌else◌,
}
use transferdb.Text.{Text, to_upper}
use transferdb.Meta.{FullSyncMeta, ChunkErrorDetail, update_where}

module _ (same : Text → Text → Bool) where
  -- a zero field of the struct of a query is no condition
  abbrev pub given : Text → Text → Bool
  given [] x = true
  given (c ∷ v) x = same x (c ∷ v)

  abbrev pub given_ℕ : ℕ → ℕ → Bool
  given_ℕ v x = if v == 0 then true else x == v

  -- the columns of a table of a task
  abbrev pub of_full_table : FullSyncMeta → FullSyncMeta → Bool
  of_full_table q r =
      same r.db_type_s (to_upper q.db_type_s)
      && same r.db_type_t (to_upper q.db_type_t)
      && same r.schema_name_s (to_upper q.schema_name_s)
      && same r.table_name_s (to_upper q.table_name_s)
      && same r.task_mode (to_upper q.task_mode)

  unfoldable pub delete_full_sync_meta_by_schema_sync_mode :
      FullSyncMeta → List FullSyncMeta → List FullSyncMeta
  delete_full_sync_meta_by_schema_sync_mode q = filter λ r. not (
      same r.db_type_s (to_upper q.db_type_s)
      && same r.db_type_t (to_upper q.db_type_t)
      && same r.schema_name_s (to_upper q.schema_name_s)
      && same r.task_mode q.task_mode)

  -- the condition of a query by a struct
  abbrev pub full_matches : FullSyncMeta → FullSyncMeta → Bool
  full_matches q r =
      given q.db_type_s r.db_type_s
      && given q.db_type_t r.db_type_t
      && given q.schema_name_s r.schema_name_s
      && given q.table_name_s r.table_name_s
      && given q.schema_name_t r.schema_name_t
      && given q.table_name_t r.table_name_t
      && given_ℕ q.global_scn_s r.global_scn_s
      && given q.consistent_read r.consistent_read
      && given q.sql_hint r.sql_hint
      && given q.column_detail_s r.column_detail_s
      && given q.chunk_detail_s r.chunk_detail_s
      && given q.task_mode r.task_mode
      && given q.task_status r.task_status
      && given q.csv_file r.csv_file

  unfoldable pub detail_full_sync_meta : FullSyncMeta → List FullSyncMeta → List FullSyncMeta
  detail_full_sync_meta q = filter (full_matches q)

  unfoldable pub batch_create_full_sync_meta :
      List FullSyncMeta → List FullSyncMeta → List FullSyncMeta
  batch_create_full_sync_meta create_s rows = rows ++ create_s

  -- the condition of the statements on one chunk
  unfoldable pub is_chunk : FullSyncMeta → FullSyncMeta → Bool
  is_chunk q r = of_full_table q r && same r.chunk_detail_s q.chunk_detail_s

  -- with the only update that is asked for, of the status
  unfoldable pub update_full_sync_meta_chunk :
      FullSyncMeta → Text → List FullSyncMeta → List FullSyncMeta
  update_full_sync_meta_chunk q status =
      update_where (is_chunk q) (λ r. record r { task_status = status })

  unfoldable pub counts_error_full_sync_meta : FullSyncMeta → List FullSyncMeta → ℕ
  counts_error_full_sync_meta q rows =
      length (filter (λ r. of_full_table q r && same r.task_status q.task_status) rows)

  unfoldable pub counts_full_sync_meta_by_task_table : FullSyncMeta → List FullSyncMeta → ℕ
  counts_full_sync_meta_by_task_table q rows = length (filter (of_full_table q) rows)

  -- the struct of the query has the columns of these four names
  unfoldable pub delete_chunk_error_detail_by_schema_task_mode :
      FullSyncMeta → List ChunkErrorDetail → List ChunkErrorDetail
  delete_chunk_error_detail_by_schema_task_mode q = filter λ r. not (
      same r.db_type_s (to_upper q.db_type_s)
      && same r.db_type_t (to_upper q.db_type_t)
      && same r.schema_name_s (to_upper q.schema_name_s)
      && same r.task_mode q.task_mode)
