-- ===== src/Migrate/Full.antt =====
-- module/migrate/sql/oracle/o2m/full.go, `FullPartSyncTable`: the chunks of a table are copied and
-- their outcomes recorded. Parameters: the columns of a table that Oracle gives, the copy of a chunk
-- with its error (`IMigrate`), and the order in which the goroutines of the chunks take their steps.
-- A goroutine has two: the copy, whose error it assigns to the variable `err` of the goroutine of the
-- table, and the record, which reads that variable. `errorSQL` is not told apart from the message.
pub mod Chunks
pub mod Table
pub mod Race
pub mod Orders
pub mod Start
pub mod Init
pub mod Columns
use transferdb.Prelude.{
  ℕ, Bool, true, false, List, [], ◌∷◌, ◌++◌, length, Option, none, some, ◌==◌, if◌then◌else◌, pos,
}
use transferdb.Text.{Text, to_upper}
use transferdb.Meta.{
  WaitSyncMeta, FullSyncMeta, ChunkErrorDetail, MetaDb, no_wait_sync_meta, no_full_sync_meta,
  waiting, running, success, failed,
}
use transferdb.Meta.Wait.{update_wait_sync_meta}
use transferdb.Meta.Full.{
  detail_full_sync_meta, update_full_sync_meta_chunk, counts_error_full_sync_meta,
}
use transferdb.Meta.Transaction.{
  delete_table_full_sync_meta_and_update_wait_sync_meta,
  update_full_sync_meta_chunk_and_create_chunk_error_detail,
}

-- the fields of the configuration that a full copy reads
pub record Config : Type 0 where
  pub db_type_s : Text
  pub db_type_t : Text
  pub task_mode : Text
  pub source_schema : Text
  pub target_schema : Text
  pub enable_checkpoint : Bool
  pub consistent_read : Bool
  pub sql_hint : Text

pub data ChunkStep : Type 0 where
  copied : FullSyncMeta → ChunkStep
  recorded : FullSyncMeta → ChunkStep

-- the shared variable `err`, and the meta database
pub record Progress : Type 0 where
  pub err : Option Text
  pub db : MetaDb

-- each goroutine ends before the next one starts
abbrev pub one_by_one : List FullSyncMeta → List ChunkStep
one_by_one [] = []
one_by_one (m ∷ ms) = copied m ∷ recorded m ∷ one_by_one ms

abbrev pub error_of : FullSyncMeta → Text → ChunkErrorDetail
error_of m message = record {
  db_type_s = m.db_type_s;
  db_type_t = m.db_type_t;
  schema_name_s = m.schema_name_s;
  table_name_s = m.table_name_s;
  schema_name_t = m.schema_name_t;
  table_name_t = m.table_name_t;
  task_mode = m.task_mode;
  chunk_detail_s = m.chunk_detail_s;
  error_detail = message;
}

module _ (same : Text → Text → Bool) where
  unfoldable pub record_chunk : Option Text → FullSyncMeta → MetaDb → MetaDb
  record_chunk none m db = record db {
    full_sync_meta = update_full_sync_meta_chunk same m success db.full_sync_meta;
  }
  record_chunk (some message) m db =
      update_full_sync_meta_chunk_and_create_chunk_error_detail same m failed (error_of m message)
        db

  module _ (copy : FullSyncMeta → Option Text) where
    unfoldable pub run_step : ChunkStep → Progress → Progress
    run_step (copied m) p = record p { err = copy m }
    run_step (recorded m) p = record p { db = record_chunk p.err m p.db }

    unfoldable pub run_steps : List ChunkStep → Progress → Progress
    run_steps [] p = p
    run_steps (s ∷ ss) p = run_steps ss (run_step s p)

  module _ (cfg : Config) where
    abbrev pub wait_key : Text → WaitSyncMeta
    wait_key t = record no_wait_sync_meta {
      db_type_s = cfg.db_type_s;
      db_type_t = cfg.db_type_t;
      schema_name_s = to_upper cfg.source_schema;
      table_name_s = to_upper t;
      task_mode = cfg.task_mode;
    }

    abbrev pub full_key : Text → FullSyncMeta
    full_key t = record no_full_sync_meta {
      db_type_s = cfg.db_type_s;
      db_type_t = cfg.db_type_t;
      schema_name_s = to_upper cfg.source_schema;
      table_name_s = to_upper t;
      task_mode = cfg.task_mode;
    }

    -- the chunks that wait, and then those that failed
    unfoldable pub chunks_to_run : Text → List FullSyncMeta → List FullSyncMeta
    chunks_to_run t rows =
        detail_full_sync_meta same (record (full_key t) { task_status = waiting }) rows
        ++ detail_full_sync_meta same (record (full_key t) { task_status = failed }) rows

    -- the record of the table when its chunks are done
    unfoldable pub finish_table : Text → MetaDb → MetaDb
    finish_table t db =
        let failed_chunk_total_errs =
          counts_error_full_sync_meta same (record (full_key t) { task_status = failed })
            db.full_sync_meta in
        let success_chunks : ℕ = length (
          detail_full_sync_meta same (record (full_key t) { task_status = success })
            db.full_sync_meta) in
        if failed_chunk_total_errs == 0
        then delete_table_full_sync_meta_and_update_wait_sync_meta same (full_key t)
            (record (wait_key t) {
              task_status = success;
              chunk_success_nums = pos success_chunks;
              chunk_failed_nums = pos 0;
            })
            db
        else record db {
          wait_sync_meta =
              update_wait_sync_meta same (wait_key t)
                (λ r. record r {
                  task_status = failed;
                  chunk_success_nums = pos success_chunks;
                  chunk_failed_nums = pos failed_chunk_total_errs;
                })
                db.wait_sync_meta;
        }

    module _ (columns : Text → Option (List Text)) (copy : List Text → FullSyncMeta → Option Text)
        (order : List FullSyncMeta → List ChunkStep) where
      -- the goroutine of a table; an error of its columns is returned as nil
      unfoldable pub sync_part_table : Text → MetaDb → MetaDb
      unfolding run_steps chunks_to_run finish_table
      sync_part_table t db =
          let started : MetaDb = record db {
            wait_sync_meta =
                update_wait_sync_meta same (wait_key t) (λ r. record r { task_status = running })
                  db.wait_sync_meta;
          } in
          elim (columns t) [
            | none ↦ started
            | some names ↦
                finish_table t
                  (run_steps (copy names) (order (chunks_to_run t started.full_sync_meta))
                    (record { err = none; db = started })).db
          ]

      -- the tables do not share rows, so they are taken one after the other
      unfoldable pub full_part_sync_table : List Text → MetaDb → MetaDb
      unfolding sync_part_table
      full_part_sync_table [] db = db
      full_part_sync_table (t ∷ ts) db = full_part_sync_table ts (sync_part_table t db)
