-- ===== src/Compare/Start/Resumed.antt =====
-- A comparison that was interrupted.
use transferdb.Prelude.{
  Bool, true, false, ◌&&◌, not, List, [], ◌∷◌, map, All, filter, any, Option, none, some, ltb, err,
  ◌≡◌, refl, sym, ap, ◌∙◌, inl, inr, Bool-cases, arith, pos, eqb_ℤ,
}
use mathlib.Core.Bool.{false≢true}
use transferdb.Text.{Text, to_upper, equal_fold, text_eq}
use transferdb.Meta.{WaitSyncMeta, running, success, failed}
use transferdb.Meta.Collation.{HasText}
use transferdb.Text.Laws.{text_eq→≡}
use transferdb.Meta.Wait.{
  is_one_of, counts_err_wait_sync_meta_by_schema, delete_wait_sync_meta_success_tables,
  query_wait_sync_meta_by_part_task,
}
use transferdb.Meta.Compare.{
  no_data_compare_meta, DataCompareMeta, CompareDb, counts_data_compare_meta_by_task_table,
}
use transferdb.Compare.Chunk.{Config}
use transferdb.Compare.Start.Kept.{any-filter_implied, if_kept, rows_kept}
use transferdb.Compare.Start.{
  StartError, failed_tables, inconsistent_checkpoint, is_none, schema_key, clear_success, part_rows,
  is_consistent, panic_tables, with_rows, start_tables, start,
}

chosen-some :
    {A B : Type 0} (f : A → B) (n m p : A → Bool) (rows : List A)
    → ((r : A) → n r ≡ m r)
    → any (λ r. p r && m r) rows ≡ true
    → is_none (map f (filter n (filter p rows))) ≡ false
chosen-some f n m p [] h e = absurd (false≢true e)
chosen-some f n m p (r ∷ rows) h e = elim (Bool-cases (p r)) [
  | inl k ↦ elim (Bool-cases (m r)) [
    | inl k' ↦ rw (k, h r, k') refl
    | inr k' ↦ rw (k, h r, k') (chosen-some f n m p rows h (ground arith))
  ]
  | inr k ↦ rw k (chosen-some f n m p rows h (ground arith))
]

module _ (same : Text → Text → Bool) (collation : (a b : Text) → same a b ≡ equal_fold a b)
    (cfg : Config) where
  -- a table of the task that is RUNNING, whose chunks were made: the comparison of its chunks began and
  -- did not end
  abbrev pub is_unfinished : WaitSyncMeta → Bool
  is_unfinished r =
      (same r.db_type_s (to_upper cfg.db_type_s)
        && same r.db_type_t (to_upper cfg.db_type_t)
        && same r.schema_name_s (to_upper (to_upper cfg.source_schema))
        && ltb 0 r.global_scn_s
        && same r.task_mode cfg.task_mode
        && same r.task_status running)
      && not (eqb_ℤ (pos 0) r.chunk_total_nums)

  nameless : (t : Text) → HasText t → same t [] ≡ false
  unfolding equal_fold to_upper text_eq
  nameless [] h = absurd h
  nameless (c ∷ t) h = collation (c ∷ t) []

  no_chunks :
      (q : DataCompareMeta) (chunks : List DataCompareMeta)
      → q.table_name_s ≡ []
      → All (λ (c : DataCompareMeta). HasText c.table_name_s) chunks
      → counts_data_compare_meta_by_task_table same q chunks ≡ 0
  unfolding counts_data_compare_meta_by_task_table to_upper
  no_chunks q [] e _ = refl
  no_chunks q (c ∷ cs) e (h, hs) =
      let n : same c.table_name_s (to_upper q.table_name_s) ≡ false =
        ap (λ t. same c.table_name_s (to_upper t)) e ∙ nameless c.table_name_s h in
      ground (arith, n, no_chunks q cs e hs)

  inconsistent :
      (chunks : List DataCompareMeta) (r : WaitSyncMeta)
      → All (λ (c : DataCompareMeta). HasText c.table_name_s) chunks
      → is_consistent same cfg chunks r ≡ eqb_ℤ (pos 0) r.chunk_total_nums
  unfolding is_consistent
  inconsistent chunks r h =
      let q : DataCompareMeta = record no_data_compare_meta {
        db_type_s = r.db_type_s;
        db_type_t = r.db_type_t;
        schema_name_s = r.schema_name_s;
        task_mode = r.task_mode;
        task_status = r.task_status;
      } in
      rw (no_chunks q chunks refl h) refl

  any_panic :
      (chunks : List DataCompareMeta) (rows : List WaitSyncMeta)
      → All (λ (c : DataCompareMeta). HasText c.table_name_s) chunks
      → any is_unfinished rows ≡ true
      → is_none (panic_tables same cfg chunks rows) ≡ false
  unfolding panic_tables part_rows query_wait_sync_meta_by_part_task
  any_panic chunks rows h e =
      chosen-some (λ (r : WaitSyncMeta). r.table_name_s)
        (λ t. not (is_consistent same cfg chunks t)) (λ r. not (eqb_ℤ (pos 0) r.chunk_total_nums)) _
        rows (λ r. ap not (inconsistent chunks r h)) e

  running_is_not_success : (t : Text) → same t running ≡ true → same t success ≡ false
  unfolding equal_fold to_upper text_eq
  running_is_not_success t h =
      let e : to_upper t ≡ running =
        text_eq→≡ (to_upper t) running (sym (collation t running) ∙ h) in
      collation t success ∙ ap (λ u. text_eq u success) e

  unfinished_stays :
      (tables : List Text) (r : WaitSyncMeta)
      → is_unfinished r ≡ true
      → not (
          same r.db_type_s (to_upper cfg.db_type_s)
          && same r.db_type_t (to_upper cfg.db_type_t)
          && same r.schema_name_s (to_upper (to_upper cfg.source_schema))
          && same r.task_mode cfg.task_mode
          && same r.task_status success
          && is_one_of same tables r.table_name_s)
        ≡ true
  unfinished_stays tables r h = ground (arith, running_is_not_success r.task_status)

  success_kept :
      (difference : List Text → List Text → List Text) (exporters : List Text)
      (rows : List WaitSyncMeta)
      → any is_unfinished rows ≡ true
      → any is_unfinished (clear_success same cfg difference exporters rows) ≡ true
  unfolding clear_success delete_wait_sync_meta_success_tables
  success_kept difference exporters rows e =
      if_kept _ rows _ is_unfinished e
        (any-filter_implied is_unfinished _ rows (unfinished_stays _) e)

  refused_by :
      (chunks : List DataCompareMeta) (rows : List WaitSyncMeta) (error : Option StartError)
      → All (λ (c : DataCompareMeta). HasText c.table_name_s) chunks
      → any is_unfinished rows ≡ true
      → (e : StartError) × ((with_rows same cfg chunks rows error).tasks ≡ err e)
  refused_by chunks rows none h u = (
    inconsistent_checkpoint (panic_tables same cfg chunks rows),
    rw (any_panic chunks rows h u) refl,
  )
  refused_by chunks rows (some e) h u = (e, refl)

  -- With checkpoints, and texts compared without their case: as long as the meta database has a table of the
  -- task that is RUNNING and whose chunks were made, no comparison starts, whether its chunks are all there
  -- or not: every start ends with an error.
  pub unfinished_refused :
      (difference : List Text → List Text → List Text) (t : Text) (ts : List Text) (db : CompareDb)
      → cfg.enable_checkpoint ≡ true
      → All (λ (c : DataCompareMeta). HasText c.table_name_s) db.data_compare_meta
      → any is_unfinished db.wait_sync_meta ≡ true
      → (e : StartError) × ((start same cfg difference (t ∷ ts) db).tasks ≡ err e)
  unfolding start start_tables
  unfinished_refused difference t ts db c h u =
      let cleared = clear_success same cfg difference (t ∷ ts) db.wait_sync_meta in
      elim (Bool-cases (
        ltb 0 (
          counts_err_wait_sync_meta_by_schema same
            (record (schema_key same cfg) { task_status = failed }) cleared))) [
              | inl f ↦ rw (c, f) (failed_tables, refl)
              | inr f ↦
                  rw (c, f)
                    (refused_by db.data_compare_meta _ _ h (
                      rows_kept same cfg is_unfinished (t ∷ ts) cleared
                        (success_kept difference (t ∷ ts) db.wait_sync_meta u)))
            ]
