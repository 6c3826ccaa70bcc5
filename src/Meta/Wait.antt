-- ===== src/Meta/Wait.antt =====
-- database/meta/sync_meta_wait.go: the queries on the rows of tables.
use transferdb.Prelude.{
  ℕ, Bool, true, false, ◌&&◌, not, List, [], ◌∷◌, ◌++◌, map, length, filter, ltb, if◌then◌else◌, ℤ,
  pos, eqb_ℤ,
}
use transferdb.Text.{Text, to_upper}
use transferdb.Meta.{WaitSyncMeta, update_where}
use transferdb.Meta.Full.{given, given_ℕ}

-- a zero field of the struct of a query is no condition
abbrev pub given_ℤ : ℤ → ℤ → Bool
given_ℤ v x = if eqb_ℤ v (pos 0) then true else eqb_ℤ x v

module _ (same : Text → Text → Bool) where
  abbrev pub of_wait_table : WaitSyncMeta → WaitSyncMeta → Bool
  of_wait_table q r =
      same r.db_type_s (to_upper q.db_type_s)
      && same r.db_type_t (to_upper q.db_type_t)
      && same r.schema_name_s (to_upper q.schema_name_s)
      && same r.table_name_s (to_upper q.table_name_s)
      && same r.task_mode q.task_mode

  unfoldable pub create_wait_sync_meta : WaitSyncMeta → List WaitSyncMeta → List WaitSyncMeta
  create_wait_sync_meta create_s rows = rows ++ create_s ∷ []

  unfoldable pub detail_wait_sync_meta : WaitSyncMeta → List WaitSyncMeta → List WaitSyncMeta
  detail_wait_sync_meta q = filter λ r.
      given same q.db_type_s r.db_type_s
      && given same q.db_type_t r.db_type_t
      && given same q.schema_name_s r.schema_name_s
      && given same q.table_name_s r.table_name_s
      && given same q.task_mode r.task_mode
      && given same q.task_status r.task_status
      && given_ℕ same q.global_scn_s r.global_scn_s
      && given same q.consistent_read r.consistent_read
      && given_ℕ same q.table_num_rows r.table_num_rows
      && given_ℤ q.chunk_total_nums r.chunk_total_nums
      && given_ℤ q.chunk_success_nums r.chunk_success_nums
      && given_ℤ q.chunk_failed_nums r.chunk_failed_nums
      && given same q.is_partition r.is_partition

  unfoldable pub detail_wait_sync_meta_success_tables : WaitSyncMeta → List WaitSyncMeta → List Text
  detail_wait_sync_meta_success_tables q rows =
      map (λ (r : WaitSyncMeta). r.table_name_s)
        (filter
          (λ r.
            same r.db_type_s q.db_type_s
            && same r.db_type_t q.db_type_t
            && same r.schema_name_s q.schema_name_s
            && same r.task_mode q.task_mode
            && same r.task_status q.task_status)
          rows)

  unfoldable pub query_wait_sync_meta_by_part_task :
      WaitSyncMeta → List WaitSyncMeta → List WaitSyncMeta
  query_wait_sync_meta_by_part_task q = filter λ r.
      same r.db_type_s (to_upper q.db_type_s)
      && same r.db_type_t (to_upper q.db_type_t)
      && same r.schema_name_s (to_upper q.schema_name_s)
      && ltb 0 r.global_scn_s
      && same r.task_mode q.task_mode
      && same r.task_status q.task_status

  unfoldable pub delete_wait_sync_meta : WaitSyncMeta → List WaitSyncMeta → List WaitSyncMeta
  delete_wait_sync_meta q = filter λ r. not (of_wait_table q r)

  -- `table_name_s IN (?)`
  unfoldable pub is_one_of : List Text → Text → Bool
  is_one_of [] x = false
  is_one_of (t ∷ ts) x = if same x t then true else is_one_of ts x

  unfoldable pub delete_wait_sync_meta_success_tables :
      WaitSyncMeta → List Text → List WaitSyncMeta → List WaitSyncMeta
  unfolding is_one_of
  delete_wait_sync_meta_success_tables q tables = filter λ r. not (
      same r.db_type_s (to_upper q.db_type_s)
      && same r.db_type_t (to_upper q.db_type_t)
      && same r.schema_name_s (to_upper q.schema_name_s)
      && same r.task_mode q.task_mode
      && same r.task_status q.task_status
      && is_one_of tables r.table_name_s)

  -- the columns to set are given by the function
  unfoldable pub update_wait_sync_meta :
      WaitSyncMeta → (WaitSyncMeta → WaitSyncMeta) → List WaitSyncMeta → List WaitSyncMeta
  update_wait_sync_meta q updates = update_where (of_wait_table q) updates

  unfoldable pub counts_err_wait_sync_meta_by_schema : WaitSyncMeta → List WaitSyncMeta → ℕ
  counts_err_wait_sync_meta_by_schema q rows = length (
      filter
        (λ r.
          same r.db_type_s (to_upper q.db_type_s)
          && same r.db_type_t (to_upper q.db_type_t)
          && same r.schema_name_s (to_upper q.schema_name_s)
          && same r.task_mode (to_upper q.task_mode)
          && same r.task_status (to_upper q.task_status))
        rows)
