-- ===== src/Migrate/Full/Start/Skipped.antt =====
-- The tables whose chunks were made when the program ended.
use transferdb.Prelude.{
  ℕ, Bool, true, false, List, [], ◌∷◌, map, filter, length, Option, none, All, ◌≡◌, refl, ap, ◌∙◌,
  arith, pos, negsuc,
}
use transferdb.Text.{Text, to_upper, equal_fold}
use transferdb.Dict.{Dict}
use transferdb.Common.Sets.{filter_difference_string_items}
use transferdb.Meta.{WaitSyncMeta, FullSyncMeta, MetaDb, waiting, success, failed}
use transferdb.Meta.Wait.{
  given_ℤ, detail_wait_sync_meta, detail_wait_sync_meta_success_tables,
  query_wait_sync_meta_by_part_task, counts_err_wait_sync_meta_by_schema,
}
use transferdb.Meta.Collation.{waiting_is, waiting_is_not_running, same-to_upper}
use transferdb.Migrate.Full.{Config, ChunkStep, full_part_sync_table}
use transferdb.Migrate.Full.Columns.{RowColumn}
use transferdb.Migrate.Full.Init.{MigrateConfig, Statements}
use transferdb.Migrate.Full.Start.Refused.{full-checkpoint}
use transferdb.Migrate.Full.Start.{
  is_empty, schema_key, ensure_waiting, ensure_all, clear_success, wait_sync_tables,
  part_sync_details, panic_tables, migrate_tables, resume_task, full,
}

-- the chunks of the table have been made, but no run of them has begun
abbrev pub IsStarted : WaitSyncMeta → Type 0
IsStarted r = (r.task_status ≡ waiting) × ((n : ℕ) × (r.chunk_total_nums ≡ pos n))

filter-none :
    (p : WaitSyncMeta → Bool) (rows : List WaitSyncMeta)
    → ((r : WaitSyncMeta) → IsStarted r → p r ≡ false)
    → All IsStarted rows
    → filter p rows ≡ []
filter-none p [] h _ = refl
filter-none p (r ∷ rows) h (s, ss) = rw (h r s) (filter-none p rows h ss)

no_split : (n : ℕ) → given_ℤ (negsuc 0) (pos n) ≡ false
no_split n = ground arith

module _ (same : Text → Text → Bool) (collation : (a b : Text) → same a b ≡ equal_fold a b)
    (cfg : Config) where
  no_success :
      (q : WaitSyncMeta) (rows : List WaitSyncMeta)
      → q.task_status ≡ success
      → All IsStarted rows
      → detail_wait_sync_meta_success_tables same q rows ≡ []
  unfolding detail_wait_sync_meta_success_tables
  no_success q rows e h =
      ap (map (λ (r : WaitSyncMeta). r.table_name_s))
        (filter-none _ rows (λ r s. rw (s.0, e, (waiting_is same collation).2) (ground arith)) h)

  no_failed :
      (q : WaitSyncMeta) (rows : List WaitSyncMeta)
      → q.task_status ≡ failed
      → All IsStarted rows
      → counts_err_wait_sync_meta_by_schema same q rows ≡ 0
  unfolding counts_err_wait_sync_meta_by_schema
  no_failed q rows e h = ap length (
      filter-none _ rows
        (λ r s.
          rw (s.0, e, same-to_upper same collation waiting failed, (waiting_is same collation).1)
            (ground arith))
        h)

  no_part : (rows : List WaitSyncMeta) → All IsStarted rows → part_sync_details same cfg rows ≡ []
  unfolding part_sync_details query_wait_sync_meta_by_part_task
  no_part rows h =
      filter-none _ rows (λ r s. rw (s.0, waiting_is_not_running same collation) (ground arith)) h

  no_wait : (rows : List WaitSyncMeta) → All IsStarted rows → wait_sync_tables same cfg rows ≡ []
  unfolding wait_sync_tables detail_wait_sync_meta
  no_wait rows h =
      ap (map (λ (r : WaitSyncMeta). to_upper r.table_name_s))
        (filter-none _ rows (λ r s. let (n, e) = s.1 in rw (e, no_split n) (ground arith)) h)

  -- the exporters have rows
  abbrev pub IsKnown : List WaitSyncMeta → Text → Type 0
  IsKnown rows t =
      is_empty (detail_wait_sync_meta same (record (schema_key same cfg) { table_name_s = t }) rows)
      ≡ false

  none_added :
      (ts : List Text) (rows : List WaitSyncMeta)
      → All (IsKnown rows) ts
      → ensure_all same cfg ts rows ≡ rows
  unfolding ensure_all ensure_waiting
  none_added [] rows _ = refl
  none_added (t ∷ ts) rows (h, hs) = rw (ensure_all, ensure_waiting, h) (none_added ts rows hs)

  none_cleared :
      (difference : List Text → List Text → List Text) (exporters : List Text)
      (rows : List WaitSyncMeta)
      → ((xs : List Text) → difference [] xs ≡ [])
      → All IsStarted rows
      → clear_success same cfg difference exporters rows ≡ rows
  unfolding clear_success filter_difference_string_items
  none_cleared difference exporters rows nothing h =
      rw
        (
          no_success (record (schema_key same cfg) { task_status = success }) rows refl h,
          nothing (map to_upper exporters),
        )
        refl

  module _ (names : Dict Text) (rules : Dict MigrateConfig) (global_scn : ℕ)
      (partition_tables : List Text) (names_of : Text → Option (List Text))
      (copy : List Text → FullSyncMeta → Option Text) (order : List FullSyncMeta → List ChunkStep)
      (columns : Text → Option (List RowColumn)) (statistics_rows : Text → Option ℕ)
      (chunk_cmds : Text → Option (List Text)) (succeeds : Statements) where
    nothing_to_do :
        (exporters : List Text) (db : MetaDb)
        → All (IsKnown db.wait_sync_meta) exporters
        → All IsStarted db.wait_sync_meta
        → resume_task same cfg names rules global_scn partition_tables names_of copy order columns
            statistics_rows chunk_cmds succeeds [] exporters db
          ≡ record { db = db; truncated = []; error = none }
    unfolding resume_task migrate_tables full_part_sync_table panic_tables
    nothing_to_do exporters db known h =
        rw
          (
            none_added exporters db.wait_sync_meta known,
            no_part db.wait_sync_meta h,
            no_wait db.wait_sync_meta h,
            no_failed (record (schema_key same cfg) { task_status = failed }) db.wait_sync_meta refl
                h,
          )
          refl

    -- With checkpoints, and texts compared without their case: when the program ended after the chunks
    -- of the tables were made and before any of them ran, so that every table waits and has its number
    -- of chunks, the next run changes nothing, copies nothing and ends without an error.
    pub started_tables_skipped :
        (difference : List Text → List Text → List Text) (truncates : Text → Bool)
        (exporters : List Text) (db : MetaDb)
        → cfg.enable_checkpoint ≡ true
        → ((xs : List Text) → difference [] xs ≡ [])
        → All (IsKnown db.wait_sync_meta) exporters
        → All IsStarted db.wait_sync_meta
        → full same cfg names rules global_scn partition_tables names_of copy order columns
            statistics_rows chunk_cmds succeeds difference truncates exporters db
          ≡ record { db = db; truncated = []; error = none }
    started_tables_skipped difference truncates exporters db c nothing known h =
        full-checkpoint same cfg names rules global_scn partition_tables names_of copy order columns
          statistics_rows chunk_cmds succeeds difference truncates exporters db c
        ∙ rw (none_cleared difference exporters db.wait_sync_meta nothing h)
            (nothing_to_do exporters db known h)
