-- ===== src/Migrate/Full/Init/Consistent.antt =====
-- The chunks that are made for a table and the number of them that its row has.
use transferdb.Prelude.{pos, ℕ, ◌+◌, ◌<◌, Bool, List, Option, none, ◌≡◌, ◌≢◌, ◌⊎◌}
use transferdb.Text.{Text, equal_fold}
use transferdb.Dict.{Dict}
use transferdb.Meta.{MetaDb, update_where}
use transferdb.Meta.Wait.{of_wait_table}
use transferdb.Meta.Full.{counts_full_sync_meta_by_task_table}
use transferdb.Meta.Transaction.{chunked}
use transferdb.Migrate.Full.{Config, wait_key, full_key}
use transferdb.Migrate.Full.Columns.{RowColumn}
use transferdb.Migrate.Full.Init.{MigrateConfig, Statements, Done, table_row}

module _ (same : Text → Text → Bool) (collation : (a b : Text) → same a b ≡ equal_fold a b)
    (cfg : Config) (names : Dict Text) (rules : Dict MigrateConfig) (global_scn : ℕ)
    (partition_tables : List Text) where
  abbrev count_of : Text → MetaDb → ℕ
  count_of t db = counts_full_sync_meta_by_task_table same (full_key same cfg t) db.full_sync_meta

  -- n chunks were made, and the row of the table has their number
  abbrev pub IsChunked : Text → ℕ → ℕ → MetaDb → MetaDb → Type 0
  IsChunked t rows n db after =
      (0 < n)
      × (counts_full_sync_meta_by_task_table same (full_key same cfg t) after.full_sync_meta
          ≡ counts_full_sync_meta_by_task_table same (full_key same cfg t) db.full_sync_meta + n)
      × (after.wait_sync_meta
          ≡ update_where (of_wait_table same (wait_key same cfg t))
              (λ w.
                record (chunked same
                  (table_row same cfg names rules global_scn partition_tables t rows n) w) {
                    chunk_total_nums = pos n;
                    global_scn_s = global_scn;
                  })
              db.wait_sync_meta)

  module _ (columns : Text → Option (List RowColumn)) (statistics_rows : Text → Option ℕ)
      (chunk_cmds : Text → Option (List Text)) (succeeds : Statements) where
    -- the chunks of a table were made, but its row has no number, and there is an error
    abbrev pub IsUncounted : Text → MetaDb → Done → Type 0
    IsUncounted t db done =
        (n : ℕ) × (0 < n)
        × (counts_full_sync_meta_by_task_table same (full_key same cfg t) done.db.full_sync_meta
            ≡ counts_full_sync_meta_by_task_table same (full_key same cfg t) db.full_sync_meta + n)
        × (done.db.wait_sync_meta ≡ db.wait_sync_meta)
        × (done.error ≢ none)

    abbrev pub Outcome : Text → MetaDb → Done → Type 0
    Outcome t db done =
        ((done.db ≡ db) × (done.error ≢ none))
        ⊎ IsUncounted t db done
        ⊎ ((rows : ℕ) × (n : ℕ) × IsChunked t rows n db done.db)
