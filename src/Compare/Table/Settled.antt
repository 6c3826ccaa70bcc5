-- ===== src/Compare/Table/Settled.antt =====
-- What the comparison of a table leaves in the meta database.
use transferdb.Prelude.{
  ℕ, ◌-◌, Bool, true, false, ◌&&◌, ◌||◌, not, List, [], ◌∷◌, map, filter, length, ◌==◌, ==_iff,
  if◌then◌else◌, Result, ◌≡◌, refl, ◌∙◌, inl, inr, Bool-cases, filter-congr, length-filter-map,
  length-filter-split, pos,
}
use mathlib.Core.List.{Memᴰ}
use transferdb.Text.{Text, equal_fold}
use transferdb.Meta.{WaitSyncMeta, update_where, waiting, running, success, failed}
use transferdb.Meta.Collation.{HasText, same-to_upper}
use transferdb.Meta.Wait.{of_wait_table, update_wait_sync_meta}
use transferdb.Meta.Compare.{
  DataCompareMeta, CompareDb, of_compare_table, of_compare_table_mode,
  counts_error_data_compare_meta, delete_table_data_compare_meta_and_update_wait_sync_meta,
}
use transferdb.Migrate.Full.Chunks.{status_of}
use transferdb.Migrate.Full.Table.{HasStatus, is_error, status-after, update-update}
use transferdb.Compare.Report.{ReportError}
use transferdb.Compare.Chunk.{Config}
use transferdb.Compare.Table.{compare_key, wait_key, settle_table, compare_table}
use transferdb.Compare.Table.Run.{
  failure_of, outcome-failure, of_task, differs, with_report, compared, IsConfigured, AreUnique,
  chunks_run,
}

module _ (same : Text → Text → Bool) (collation : (a b : Text) → same a b ≡ equal_fold a b)
    (cfg : Config) (report : DataCompareMeta → Result ReportError Text) where
  compared_parts :
      (b : Bool) (r q : DataCompareMeta)
      → let r' = if b then with_report report r else r in
        (of_compare_table same q r' ≡ of_compare_table same q r)
        × (r'.task_status ≡ (if b then status_of (failure_of (report r)) else r.task_status))
  compared_parts true r q = (refl, outcome-failure (report r))
  compared_parts false r q = (refl, refl)

  -- the tests of the counts on a row after the run
  compared_tests :
      (t : Text) (r : DataCompareMeta)
      → HasStatus r.task_status
      → (of_task same cfg t (compared same cfg report t r)
            && same (compared same cfg report t r).task_status failed
          ≡ differs same cfg report t r)
        × (of_task same cfg t (compared same cfg report t r)
              && same (compared same cfg report t r).task_status success
            ≡ of_task same cfg t r
              && not (not (same r.task_status success) && is_error (failure_of (report r))))
  compared_tests t r h =
      let chosen =
        (of_task same cfg t r && same r.task_status waiting)
        || (of_task same cfg t r && same r.task_status failed) in
      let (e, e') = compared_parts chosen r (compare_key same cfg t) in
      rw (e, e')
        (status-after same collation (of_task same cfg t r) r.task_status (failure_of (report r)) h)

  outside_compared :
      (t : Text) (rows : List DataCompareMeta)
      → filter (λ r. not (of_task same cfg t r)) (map (compared same cfg report t) rows)
        ≡ filter (λ r. not (of_task same cfg t r)) rows
  outside_compared t [] = refl
  outside_compared t (r ∷ rows) =
      let chosen =
        (of_task same cfg t r && same r.task_status waiting)
        || (of_task same cfg t r && same r.task_status failed) in
      let (e, e') = compared_parts chosen r (compare_key same cfg t) in
      elim (Bool-cases (of_task same cfg t r)) [
        | inl i ↦ rw (e, i, outside_compared t rows) refl
        | inr o ↦ rw (e, o, outside_compared t rows) refl
      ]

  outside_mode :
      (t : Text) (r : DataCompareMeta)
      → not (of_compare_table_mode same (compare_key same cfg t) r) ≡ not (of_task same cfg t r)
  outside_mode t r = rw (same-to_upper same collation r.task_mode cfg.task_mode) refl

  AreStates : List DataCompareMeta → Type 0
  AreStates rows = (r : DataCompareMeta) → Memᴰ r rows → HasStatus r.task_status

  bad_count_lem :
      (t : Text) (rows : List DataCompareMeta)
      → AreStates rows
      → counts_error_data_compare_meta same
          (record (compare_key same cfg t) { task_status = failed })
          (map (compared same cfg report t) rows)
        ≡ length (filter (differs same cfg report t) rows)
  unfolding counts_error_data_compare_meta AreStates
  bad_count_lem t rows valid =
      length-filter-map _ (differs same cfg report t) (compared same cfg report t) rows
        (λ r m. (compared_tests t r (valid r m)).0)

  good_count_lem :
      (t : Text) (rows : List DataCompareMeta)
      → AreStates rows
      → counts_error_data_compare_meta same
          (record (compare_key same cfg t) { task_status = success })
          (map (compared same cfg report t) rows)
        ≡ length (filter (of_task same cfg t) rows)
          - length (filter (differs same cfg report t) rows)
  unfolding counts_error_data_compare_meta AreStates
  good_count_lem t rows valid =
      length-filter-map _
        (λ r.
          of_task same cfg t r
          && not (not (same r.task_status success) && is_error (failure_of (report r))))
        (compared same cfg report t) rows (λ r m. (compared_tests t r (valid r m)).1)
      ∙ length-filter-split (of_task same cfg t)
          (λ r. not (same r.task_status success) && is_error (failure_of (report r))) rows

  -- the row of a table whose chunks are compared
  abbrev pub finished : ℕ → ℕ → WaitSyncMeta → WaitSyncMeta
  finished total bad w = record w {
    task_status = if bad == 0 then success else failed;
    chunk_success_nums = pos (total - bad);
    chunk_failed_nums = pos bad;
  }

  settle_compared :
      (t : Text) (rows : List DataCompareMeta) (db : CompareDb)
      → AreStates rows
      → db.data_compare_meta ≡ map (compared same cfg report t) rows
      → let total = length (filter (of_task same cfg t) rows) in
        let bad = length (filter (differs same cfg report t) rows) in
        ((settle_table same cfg t db).wait_sync_meta
          ≡ update_where
              (of_wait_table same (wait_key same cfg t))
              (finished total bad)
              db.wait_sync_meta)
        × ((settle_table same cfg t db).data_compare_meta ≡ (
            if bad == 0
            then filter (λ r. not (of_task same cfg t r)) rows
            else map (compared same cfg report t) rows))
  unfolding settle_table update_wait_sync_meta
      delete_table_data_compare_meta_and_update_wait_sync_meta
  settle_compared t rows db valid e =
      let bad_count = bad_count_lem t rows valid in
      let good_count = good_count_lem t rows valid in
      elim (Bool-cases (length (filter (differs same cfg report t) rows) == 0)) [
        | inl k ↦
            let none_bad = (==_iff (length (filter (differs same cfg report t) rows)) 0).0 k in
            rw (e, bad_count, good_count, none_bad)
              (
                refl,
                filter-congr _ _ (map (compared same cfg report t) rows) (outside_mode t)
                    ∙ outside_compared t rows,
              )
        | inr k ↦ rw (e, bad_count, good_count, k) (refl, refl)
      ]

  -- The comparison of a table, for a meta database that compares texts without their case, chunks that differ
  -- in the columns of the unique index, and that wait, are done or failed. A chunk of the table that is not
  -- done is SUCCESS if its report is empty and FAILED otherwise. If none failed the table is SUCCESS and its
  -- chunks are deleted, otherwise it is FAILED and they stay. The successful and the failed chunks of its
  -- row are those of the table together, and the rows of other tables do not change.
  pub table_compared :
      (t : Text) (db : CompareDb)
      → IsConfigured cfg
      → HasText t
      → AreUnique same db.data_compare_meta
      → ((r : DataCompareMeta) → Memᴰ r db.data_compare_meta → HasStatus r.task_status)
      → let total = length (filter (of_task same cfg t) db.data_compare_meta) in
        let bad = length (filter (differs same cfg report t) db.data_compare_meta) in
        let result = compare_table same cfg report t db in
        (result.wait_sync_meta
          ≡ update_where
              (of_wait_table same (wait_key same cfg t))
              (finished total bad)
              db.wait_sync_meta)
        × (result.data_compare_meta ≡ (
            if bad == 0
            then filter (λ r. not (of_task same cfg t r)) db.data_compare_meta
            else map (compared same cfg report t) db.data_compare_meta))
  unfolding compare_table update_wait_sync_meta AreStates
  table_compared t db hc hm unique valid =
      let total = length (filter (of_task same cfg t) db.data_compare_meta) in
      let bad = length (filter (differs same cfg report t) db.data_compare_meta) in
      let (w, d) =
        settle_compared t db.data_compare_meta _ valid
          (chunks_run same collation cfg report t db.data_compare_meta hc hm unique) in
      (
        w
            ∙ update-update (of_wait_table same (wait_key same cfg t)) (finished total bad)
                (λ r. record r { task_status = running }) db.wait_sync_meta (λ r. refl),
        d,
      )
