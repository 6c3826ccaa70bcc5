-- ===== src/Migrate/Incr.antt =====
-- module/migrate/sql/oracle/o2m/incr.go, `syncTableIncrRecord`: the log files are mined one after the
-- other, their records are filtered and applied, and the checkpoints are moved. Parameters: strconv,
-- the answers of Oracle (the records of a log file behind an SCN, the list of the redo logs, the current
-- one), the order in which records come out of the channel of `FilterOracleIncrRecord`, and
-- `applyOracleIncrRecord`, which ends the program when a task fails. An error of a log file is returned
-- by the loop and by `Incr`; the checkpoints stay as they are then.
pub mod Flag
use transferdb.Prelude.{
  ℕ, zero, suc, Bool, true, false, ◌&&◌, List, [], ◌∷◌, map, Option, none, some, ◌==◌,
  if◌then◌else◌, Result, ok, err, panic, ◌>>=◌,
}
use transferdb.Text.{Text, text_eq, to_upper}
use transferdb.Dict.{Dict, set}
use transferdb.Common.Sets.{is_contain_string}
use transferdb.Meta.{IncrSyncMeta}
use transferdb.Meta.Incr.{
  detail_incr_sync_meta_by_schema, get_incr_sync_meta_min_table_scn_s_by_schema,
  get_incr_sync_meta_min_global_scn_s_by_schema, update_incr_sync_meta_scn_by_current_redo,
  update_incr_sync_meta_scn_by_non_current_redo, update_incr_sync_meta_scn_by_archived_log,
}
use transferdb.Migrate.Logminer.{Logminer, IncrError, filter_oracle_incr_record}

pub record LogFile : Type 0 where
  pub log_file : Text
  pub first_change : Text
  pub next_change : Text

pub record CurrentRedo : Type 0 where
  pub first_change : ℕ
  pub max_scn : ℕ
  pub file_name : Text

-- the table of checkpoints, and the variable `MigrateCurrentResetFlag`
pub record IncrState : Type 0 where
  pub metas : List IncrSyncMeta
  pub reset_flag : ℕ

pub data SyncError : Type 0 where
  illegal_scn : Text → SyncError
  no_metas : SyncError
  oracle_error : SyncError
  apply_error : SyncError
  filter_error : IncrError → SyncError

abbrev pub or_sync : {A : Type 0} → SyncError → Option A → Result SyncError A
or_sync e none = err e
or_sync e (some a) = ok a

abbrev pub or_filter : {A : Type 0} → Result IncrError A → Result SyncError A
or_filter (ok a) = ok a
or_filter (err e) = err (filter_error e)
or_filter panic = panic

abbrev pub not_null : List IncrSyncMeta → Result SyncError (List IncrSyncMeta)
not_null [] = err no_metas
not_null (r ∷ rs) = ok (r ∷ rs)

-- the loop that fills `transferTableMetaMap`
unfoldable pub table_scns : List IncrSyncMeta → Dict ℕ → Dict ℕ
table_scns [] m = m
table_scns (r ∷ rs) m = table_scns rs (set (to_upper r.table_name_s) r.table_scn_s m)

-- which of the three kinds of log file is mined
pub data LogKind : Type 0 where
  current_redo non_current_redo archived_log : LogKind

unfoldable pub log_kind : List Text → CurrentRedo → LogFile → ℕ → LogKind
log_kind redo_logs current log start =
    if is_contain_string redo_logs log.log_file
    then if start == current.first_change && text_eq log.log_file current.file_name
      then current_redo
      else non_current_redo
    else archived_log

-- the flag that the records are filtered by, and its value behind them
abbrev pub filter_flag : LogKind → ℕ → ℕ
filter_flag current_redo flag = flag
filter_flag non_current_redo flag = 0
filter_flag archived_log flag = 0

abbrev pub next_flag : LogKind → ℕ → ℕ
next_flag current_redo flag = 1
next_flag non_current_redo flag = flag
next_flag archived_log flag = flag

module _ (same : Text → Text → Bool) (db_type_s db_type_t source_schema : Text)
    (parse_uint : Text → Option ℕ) (get_oracle_incr_record : LogFile → ℕ → Option (List Logminer))
    (all_redo_logs : LogFile → Option (List Text)) (current_of : LogFile → Option CurrentRedo)
    (arrive : List Logminer → List Logminer)
    (apply_oracle_incr_record : Dict (List Logminer)
      → List IncrSyncMeta
      → Option (List IncrSyncMeta)) where
  unfoldable pub move_checkpoints :
      LogKind → ℕ → ℕ → ℕ → List Text → List IncrSyncMeta → List IncrSyncMeta
  move_checkpoints current_redo max_scn start end tables metas =
      update_incr_sync_meta_scn_by_current_redo same db_type_s db_type_t source_schema max_scn start
        end metas
  move_checkpoints non_current_redo max_scn start end tables metas =
      update_incr_sync_meta_scn_by_non_current_redo same db_type_s db_type_t source_schema max_scn
        start end tables metas
  move_checkpoints archived_log max_scn start end tables metas =
      update_incr_sync_meta_scn_by_archived_log same db_type_s db_type_t source_schema end tables
        metas

  -- the records of a log file that are left; without a table the checkpoints stay
  unfoldable pub apply_content :
      LogKind
      → ℕ
      → ℕ
      → ℕ
      → List Text
      → Dict (List Logminer)
      → IncrState
      → Result SyncError IncrState
  unfolding move_checkpoints
  apply_content kind max_scn start end tables [] st = ok st
  apply_content kind max_scn start end tables (c ∷ content) st = do
    metas ← or_sync apply_error (apply_oracle_incr_record (c ∷ content) st.metas)
    ok (record st { metas = move_checkpoints kind max_scn start end tables metas })

  unfoldable pub process_rows :
      LogKind
      → ℕ
      → ℕ
      → ℕ
      → List Text
      → Dict ℕ
      → List Logminer
      → IncrState
      → Result SyncError IncrState
  unfolding apply_content move_checkpoints
  process_rows kind max_scn start end tables scns [] st =
      ok (record st { metas = move_checkpoints kind max_scn start end tables st.metas })
  process_rows kind max_scn start end tables scns (r ∷ rows) st = do
    content ←
        or_filter
          (filter_oracle_incr_record arrive (r ∷ rows) tables scns (filter_flag kind st.reset_flag))
    apply_content kind max_scn start end tables content
        (record st { reset_flag = next_flag kind st.reset_flag })

  unfoldable pub process_log : LogFile → IncrState → Result SyncError IncrState
  unfolding process_rows
  process_log log st = do
    start ← or_sync (illegal_scn log.first_change) (parse_uint log.first_change)
    end ← or_sync (illegal_scn log.next_change) (parse_uint log.next_change)
    metas ←
        not_null (detail_incr_sync_meta_by_schema same db_type_s db_type_t source_schema st.metas)
    rows ← or_sync oracle_error (
        get_oracle_incr_record log (
          get_incr_sync_meta_min_table_scn_s_by_schema same db_type_s db_type_t source_schema
            st.metas))
    redo_logs ← or_sync oracle_error (all_redo_logs log)
    current ← or_sync oracle_error (current_of log)
    process_rows (log_kind redo_logs current log start) current.max_scn start end
        (map (λ (r : IncrSyncMeta). to_upper r.table_name_s) metas) (table_scns metas []) rows st

  -- the loop over the log files
  unfoldable pub sync_table_incr_record : List LogFile → IncrState → Result SyncError IncrState
  unfolding process_log
  sync_table_incr_record [] st = ok st
  sync_table_incr_record (l ∷ logs) st = do st₁ ← process_log l st; sync_table_incr_record logs st₁

  -- `getTableIncrRecordLogfile`: the SCN of a redo log, 0 if there is none, or of an archived log, and
  -- the files from it on
  unfoldable pub get_table_incr_record_logfile :
      (ℕ → Option ℕ)
      → (ℕ → Option ℕ)
      → (ℕ → Option (List LogFile))
      → (ℕ → Option (List LogFile))
      → List IncrSyncMeta
      → Result SyncError (List LogFile)
  get_table_incr_record_logfile redo_scn archived_scn redo_files archived_files metas = do
    redo ← or_sync oracle_error (
        redo_scn (
          get_incr_sync_meta_min_global_scn_s_by_schema same db_type_s db_type_t source_schema
            metas))
    archived ← or_sync oracle_error (
        archived_scn (
          get_incr_sync_meta_min_global_scn_s_by_schema same db_type_s db_type_t source_schema
            metas))
    or_sync oracle_error (if redo == 0 then archived_files archived else redo_files redo)
