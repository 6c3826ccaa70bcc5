-- ===== src/Meta/Incr.antt =====
-- database/meta/sync_meta_incr.go: the queries on the checkpoints of tables, and those of
-- transaction.go that move them when a log file is done. `Updates` with a struct leaves out the
-- fields that are zero.
pub mod Moves
pub mod Archived
use transferdb.Prelude.{
  ℕ, Bool, true, false, ◌&&◌, not, List, [], ◌∷◌, ◌++◌, map, length, filter, ltb, leb, ◌==◌, min,
  if◌then◌else◌,
}
use transferdb.Text.{Text, to_upper}
use transferdb.Meta.{IncrSyncMeta, update_where}

-- a zero is no new value
abbrev pub new_scn : ℕ → ℕ → ℕ
new_scn v old = if v == 0 then old else v

-- the SCN that a redo log file is done up to
unfoldable pub log_file_scn : ℕ → ℕ → ℕ → ℕ
log_file_scn last_redo_log_max_scn log_file_start_scn log_file_end_scn =
    if leb last_redo_log_max_scn log_file_end_scn then log_file_start_scn else log_file_end_scn

-- the least of some numbers, 0 if there are none
unfoldable pub least : List ℕ → ℕ
least [] = 0
least (n ∷ []) = n
least (n ∷ m ∷ ns) = min n (least (m ∷ ns))

module _ (same : Text → Text → Bool) (db_type_s db_type_t source_schema_name : Text) where
  abbrev pub of_incr_schema : IncrSyncMeta → Bool
  of_incr_schema r =
      same r.db_type_s (to_upper db_type_s)
      && same r.db_type_t (to_upper db_type_t)
      && same r.schema_name_s (to_upper source_schema_name)

  unfoldable pub of_incr_table : Text → IncrSyncMeta → Bool
  of_incr_table table r = of_incr_schema r && same r.table_name_s (to_upper table)

  unfoldable pub counts_incr_sync_meta_by_schema_table : Text → List IncrSyncMeta → ℕ
  unfolding of_incr_table
  counts_incr_sync_meta_by_schema_table table rows = length (filter (of_incr_table table) rows)

  unfoldable pub get_incr_sync_meta_min_global_scn_s_by_schema : List IncrSyncMeta → ℕ
  unfolding least
  get_incr_sync_meta_min_global_scn_s_by_schema rows =
      least (map (λ (r : IncrSyncMeta). r.global_scn_s) (filter of_incr_schema rows))

  unfoldable pub get_incr_sync_meta_min_table_scn_s_by_schema : List IncrSyncMeta → ℕ
  unfolding least
  get_incr_sync_meta_min_table_scn_s_by_schema rows =
      least (map (λ (r : IncrSyncMeta). r.table_scn_s) (filter of_incr_schema rows))

  unfoldable pub detail_incr_sync_meta_by_schema : List IncrSyncMeta → List IncrSyncMeta
  detail_incr_sync_meta_by_schema rows = filter of_incr_schema rows

  -- `Updates` with the struct of the two SCNs
  abbrev pub set_scns : ℕ → ℕ → IncrSyncMeta → IncrSyncMeta
  set_scns g t r = record r {
    global_scn_s = new_scn g r.global_scn_s;
    table_scn_s = new_scn t r.table_scn_s;
  }

  unfoldable pub update_tables : ℕ → ℕ → List Text → List IncrSyncMeta → List IncrSyncMeta
  unfolding of_incr_table
  update_tables g t [] rows = rows
  update_tables g t (table ∷ tables) rows =
      update_tables g t tables (update_where (of_incr_table table) (set_scns g t) rows)

  -- the loop over the rows that the query found
  unfoldable pub raise_tables : ℕ → List IncrSyncMeta → List IncrSyncMeta → List IncrSyncMeta
  unfolding of_incr_table
  raise_tables scn [] rows = rows
  raise_tables scn (table ∷ tables) rows = raise_tables scn tables (
      if ltb table.global_scn_s scn
      then update_where (of_incr_table table.table_name_s) (set_scns scn 0) rows
      else rows)

  unfoldable pub update_incr_sync_meta_scn_by_current_redo :
      ℕ → ℕ → ℕ → List IncrSyncMeta → List IncrSyncMeta
  unfolding log_file_scn raise_tables
  update_incr_sync_meta_scn_by_current_redo last_max start end rows =
      raise_tables (log_file_scn last_max start end) (filter of_incr_schema rows) rows

  unfoldable pub update_incr_sync_meta_scn_by_non_current_redo :
      ℕ → ℕ → ℕ → List Text → List IncrSyncMeta → List IncrSyncMeta
  unfolding log_file_scn update_tables
  update_incr_sync_meta_scn_by_non_current_redo last_max start end tables rows =
      update_tables (log_file_scn last_max start end) 0 tables rows

  unfoldable pub update_incr_sync_meta_scn_by_archived_log :
      ℕ → List Text → List IncrSyncMeta → List IncrSyncMeta
  unfolding update_tables
  update_incr_sync_meta_scn_by_archived_log end tables rows = update_tables end end tables rows
