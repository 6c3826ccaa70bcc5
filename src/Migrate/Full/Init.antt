-- ===== src/Migrate/Full/Init.antt =====
-- module/migrate/sql/oracle/o2m/full.go, `InitWaitSyncTableChunk`: the chunks of the tables that were not
-- started. What Oracle answers for a table is a parameter: its columns, its rows by the statistics, the
-- conditions of its chunks; and whether the statements on it succeed. No answer is an error.
pub mod Consistent
use transferdb.Prelude.{
  ℕ, Bool, true, false, ◌&&◌, not, List, [], ◌∷◌, map, length, Option, none, some, ◌==◌,
  if◌then◌else◌, Result, ok, err, panic, pos,
}
use transferdb.Text.{Text, codes, to_upper, equal_fold, strings_builder}
use transferdb.Dict.{Dict, get, set}
use transferdb.Common.Sets.{is_contain_string}
use transferdb.Reverse.TableName.{TableNameRule, or_name}
use transferdb.Meta.{WaitSyncMeta, FullSyncMeta, MetaDb, waiting}
use transferdb.Meta.Wait.{update_wait_sync_meta}
use transferdb.Meta.Full.{batch_create_full_sync_meta}
use transferdb.Meta.Transaction.{chunked, create_full_sync_meta_and_update_wait_sync_meta}
use transferdb.Migrate.Full.{Config, wait_key, full_key}
use transferdb.Migrate.Full.Columns.{RowColumn, adjust_table_select_column}

pub record MigrateConfig : Type 0 where
  pub source_table : Text
  pub sql_hint : Text
  pub range : Text
  pub enable_split : Bool

pub data InitError : Type 0 where
  oracle_error : InitError
  column_error : Text → InitError
  meta_error : InitError

-- Whether the statements on a table succeed: the transaction of one chunk, the insert of all chunks, which
-- gorm makes one transaction, the update of the row of the table, and the closing of Oracle's task.
pub record Statements : Type 0 where
  pub transacts : MetaDb → FullSyncMeta → Bool
  pub creates : MetaDb → List FullSyncMeta → Bool
  pub updates : MetaDb → Text → Bool
  pub closes : Text → Bool

-- the meta database after a goroutine, and its error
pub record Done : Type 0 where
  pub db : MetaDb
  pub error : Option InitError

unfoldable pub get_custom_migrate_config :
    List MigrateConfig → Dict MigrateConfig → Dict MigrateConfig
get_custom_migrate_config [] m = m
get_custom_migrate_config (t ∷ ts) m =
    get_custom_migrate_config ts (set (to_upper t.source_table) t m)

unfoldable pub get_table_name_rule : List TableNameRule → Dict Text → Dict Text
get_table_name_rule [] m = m
get_table_name_rule (r ∷ rs) m =
    get_table_name_rule rs (set (to_upper r.table_name_s) (to_upper r.table_name_t) m)

-- the custom range behind the condition of a chunk
unfoldable pub where_range : Bool → Text → Text → Text
where_range enable_split where_prefix cmd =
    if enable_split && not (equal_fold where_prefix [])
    then strings_builder (cmd ∷ codes " AND " ∷ where_prefix ∷ [])
    else cmd

abbrev pub no_config : Config → MigrateConfig
no_config cfg = record {
  source_table = [];
  sql_hint = cfg.sql_hint;
  range = [];
  enable_split = false;
}

abbrev pub or_config : Option MigrateConfig → MigrateConfig → MigrateConfig
or_config none d = d
or_config (some t) d = t

module _ (same : Text → Text → Bool) (cfg : Config) (names : Dict Text) (rules : Dict MigrateConfig)
    (global_scn : ℕ) (partition_tables : List Text) where
  abbrev pub rule_of : Text → MigrateConfig
  rule_of t = or_config (get (to_upper t) rules) (no_config cfg)

  -- the row of a chunk with a condition
  unfoldable pub chunk_row : Text → Text → Text → FullSyncMeta
  unfolding where_range
  chunk_row t column_detail cmd = record (full_key same cfg t) {
    schema_name_t = to_upper cfg.target_schema;
    table_name_t = to_upper (or_name (get (to_upper t) names) (to_upper t));
    global_scn_s = global_scn;
    consistent_read = if cfg.consistent_read then codes "YES" else codes "NO";
    sql_hint = (rule_of t).sql_hint;
    column_detail_s = column_detail;
    chunk_detail_s = where_range (rule_of t).enable_split (rule_of t).range cmd;
    task_status = waiting;
  }

  -- the columns of a table with n chunks
  unfoldable pub table_row : Text → ℕ → ℕ → WaitSyncMeta
  table_row t rows n = record (wait_key same cfg t) {
    table_num_rows = rows;
    global_scn_s = global_scn;
    consistent_read = if cfg.consistent_read then codes "YES" else codes "NO";
    chunk_total_nums = pos n;
    chunk_success_nums = pos 0;
    chunk_failed_nums = pos 0;
    is_partition =
        if is_contain_string partition_tables (to_upper t) then codes "YES" else codes "NO";
  }

  -- no rows by the statistics, or no chunks: the whole table is one chunk
  unfoldable pub create_one : Text → Text → ℕ → MetaDb → MetaDb
  unfolding chunk_row table_row
  create_one t column_detail rows db =
      create_full_sync_meta_and_update_wait_sync_meta same
        (chunk_row t column_detail (codes "1 = 1")) (table_row t rows 1) db

  module _ (columns : Text → Option (List RowColumn)) (statistics_rows : Text → Option ℕ)
      (chunk_cmds : Text → Option (List Text)) (succeeds : Statements) where
    abbrev pub failed_in_meta : MetaDb → Done
    failed_in_meta db = record { db = db; error = some meta_error }

    unfoldable pub one_chunk : Text → Text → ℕ → MetaDb → Done
    unfolding create_one chunk_row
    one_chunk t column_detail rows db =
        if succeeds.transacts db (chunk_row t column_detail (codes "1 = 1"))
        then record { db = create_one t column_detail rows db; error = none }
        else failed_in_meta db

    -- the insert of the chunks, the update of the table and the closing of the task, one behind the other
    unfoldable pub create_many : Text → Text → ℕ → List Text → MetaDb → Done
    unfolding chunk_row table_row
    create_many t column_detail rows cmds db =
        let metas = map (chunk_row t column_detail) cmds in
        let added : MetaDb = record db {
          full_sync_meta = batch_create_full_sync_meta same metas db.full_sync_meta;
        } in
        let counted : MetaDb = record added {
          wait_sync_meta =
              update_wait_sync_meta same (wait_key same cfg t)
                (chunked same (table_row t rows (length cmds))) db.wait_sync_meta;
        } in
        if succeeds.creates db metas
        then if succeeds.updates added t
          then record {
            db = counted;
            error = if succeeds.closes t then none else some oracle_error;
          }
          else failed_in_meta added
        else failed_in_meta db

    -- the chunks of a table with rows
    unfoldable pub create_chunks : Text → Text → ℕ → Option (List Text) → MetaDb → Done
    unfolding one_chunk create_many
    create_chunks t column_detail rows none db = record { db = db; error = some oracle_error }
    create_chunks t column_detail rows (some []) db = one_chunk t column_detail rows db
    create_chunks t column_detail rows (some (c ∷ cmds)) db =
        create_many t column_detail rows (c ∷ cmds) db

    -- the goroutine of a table whose columns are known
    unfoldable pub create_table : Text → Text → Option ℕ → MetaDb → Done
    unfolding one_chunk create_chunks
    create_table t column_detail none db = record { db = db; error = some oracle_error }
    create_table t column_detail (some rows) db =
        if rows == 0
        then one_chunk t column_detail rows db
        else create_chunks t column_detail rows (chunk_cmds t) db

    unfoldable pub init_known : Text → Result Text Text → MetaDb → Done
    unfolding create_table
    init_known t (ok column_detail) db = create_table t column_detail (statistics_rows t) db
    init_known t (err e) db = record { db = db; error = some (column_error e) }
    init_known t panic db = record { db = db; error = some oracle_error }

    unfoldable pub init_table : Text → MetaDb → Done
    unfolding init_known
    init_table t db = elim (columns t) [
      | none ↦ record { db = db; error = some oracle_error }
      | some cs ↦ init_known t (adjust_table_select_column cs) db
    ]

    -- the group waits for every table and has the first error
    unfoldable pub init_wait_sync_table_chunk : List Text → MetaDb → Done
    unfolding init_table
    init_wait_sync_table_chunk [] db = record { db = db; error = none }
    init_wait_sync_table_chunk (t ∷ ts) db =
        let first = init_table t db in
        let rest = init_wait_sync_table_chunk ts first.db in
        record { db = rest.db; error = elim first.error [ some e ↦ some e | none ↦ rest.error ] }
