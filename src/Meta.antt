-- ===== src/Meta.antt =====
-- database/meta: the tables of the meta database that a copy keeps its progress in, from
-- sync_meta_wait.go, sync_meta_full.go, sync_meta_incr.go and chunk_error_detail.go. A table is the
-- list of its rows; a condition of a query is a test on a row, an update a map over the rows. The
-- number of a row, its comment and its times are left out. A statement on the meta database does not
-- fail. How it compares texts is a parameter, `same`: the collation of its columns.
pub mod Wait
pub mod Full
pub mod Incr
pub mod Transaction
pub mod Collation
pub mod Groups
pub mod Compare
use transferdb.Prelude.{ℕ, Bool, true, false, List, [], ◌∷◌, map, if◌then◌else◌, ℤ, pos}
use transferdb.Text.{Text, codes}

pub record WaitSyncMeta : Type 0 where
  pub db_type_s : Text
  pub db_type_t : Text
  pub schema_name_s : Text
  pub table_name_s : Text
  pub task_mode : Text
  pub task_status : Text
  pub global_scn_s : ℕ
  pub consistent_read : Text
  pub table_num_rows : ℕ
  pub chunk_total_nums : ℤ
  pub chunk_success_nums : ℤ
  pub chunk_failed_nums : ℤ
  pub is_partition : Text

pub record FullSyncMeta : Type 0 where
  pub db_type_s : Text
  pub db_type_t : Text
  pub schema_name_s : Text
  pub table_name_s : Text
  pub schema_name_t : Text
  pub table_name_t : Text
  pub global_scn_s : ℕ
  pub consistent_read : Text
  pub sql_hint : Text
  pub column_detail_s : Text
  pub chunk_detail_s : Text
  pub task_mode : Text
  pub task_status : Text
  pub csv_file : Text

pub record IncrSyncMeta : Type 0 where
  pub db_type_s : Text
  pub db_type_t : Text
  pub schema_name_s : Text
  pub table_name_s : Text
  pub schema_name_t : Text
  pub table_name_t : Text
  pub global_scn_s : ℕ
  pub table_scn_s : ℕ
  pub is_partition : Text

-- the message stands for the statement and the error that are cut out of it
pub record ChunkErrorDetail : Type 0 where
  pub db_type_s : Text
  pub db_type_t : Text
  pub schema_name_s : Text
  pub table_name_s : Text
  pub schema_name_t : Text
  pub table_name_t : Text
  pub task_mode : Text
  pub chunk_detail_s : Text
  pub error_detail : Text

pub record MetaDb : Type 0 where
  pub wait_sync_meta : List WaitSyncMeta
  pub full_sync_meta : List FullSyncMeta
  pub incr_sync_meta : List IncrSyncMeta
  pub chunk_error_detail : List ChunkErrorDetail

-- a struct whose fields are all zero
abbrev pub no_wait_sync_meta : WaitSyncMeta
no_wait_sync_meta = record {
  db_type_s = [];
  db_type_t = [];
  schema_name_s = [];
  table_name_s = [];
  task_mode = [];
  task_status = [];
  global_scn_s = 0;
  consistent_read = [];
  table_num_rows = 0;
  chunk_total_nums = pos 0;
  chunk_success_nums = pos 0;
  chunk_failed_nums = pos 0;
  is_partition = [];
}

abbrev pub no_full_sync_meta : FullSyncMeta
no_full_sync_meta = record {
  db_type_s = [];
  db_type_t = [];
  schema_name_s = [];
  table_name_s = [];
  schema_name_t = [];
  table_name_t = [];
  global_scn_s = 0;
  consistent_read = [];
  sql_hint = [];
  column_detail_s = [];
  chunk_detail_s = [];
  task_mode = [];
  task_status = [];
  csv_file = [];
}

abbrev pub waiting : Text
waiting = codes "WAITING"

abbrev pub running : Text
running = codes "RUNNING"

abbrev pub success : Text
success = codes "SUCCESS"

abbrev pub failed : Text
failed = codes "FAILED"

-- UPDATE of the rows that a condition holds for
abbrev pub update_where : {A : Type 0} → (A → Bool) → (A → A) → List A → List A
update_where p f rows = map (λ r. if p r then f r else r) rows
