-- ===== src/Compare/Start/Again.antt =====
-- A comparison without checkpoints that is started again.
use transferdb.Prelude.{
  Bool, true, false, not, List, [], ◌∷◌, filter, any, any-append, Option, none, some, ltb, err, ◌≡◌,
  refl, sym, ◌∙◌, inl, inr, Bool-cases, arith,
}
use mathlib.Core.Bool.{true≢false, or-true}
use transferdb.Text.{Text, to_upper, equal_fold, text_eq}
use transferdb.Meta.{WaitSyncMeta, failed}
use transferdb.Meta.Collation.{HasText, HasText-to_upper, given-same, same-to_upper, same_self}
use transferdb.Meta.Wait.{
  create_wait_sync_meta, detail_wait_sync_meta, delete_wait_sync_meta,
  delete_wait_sync_meta_success_tables, counts_err_wait_sync_meta_by_schema,
}
use transferdb.Meta.Compare.{CompareDb, DataCompareMeta}
use transferdb.Compare.Chunk.{Config}
use transferdb.Compare.Start.Kept.{any-filter_implied, if_kept, row_kept, next_kept, rows_kept}
use transferdb.Compare.Start.{
  StartError, duplicate_row, is_none, schema_key, waiting_row, has_key, create_unique, ensure_row,
  reset_table, reset_tables, clear_success, ensure_rows, with_rows, start_tables, after_reset,
  start,
}

filter-excluded :
    {A : Type 0} (p d : A → Bool) (rows : List A)
    → ((r : A) → p r ≡ true → d r ≡ true)
    → is_none (filter p (filter (λ r. not (d r)) rows)) ≡ true
filter-excluded p d [] h = refl
filter-excluded p d (r ∷ rows) h = elim (Bool-cases (d r)) [
  | inl k ↦ rw k (filter-excluded p d rows h)
  | inr k ↦ elim (Bool-cases (p r)) [
    | inl k' ↦ absurd (true≢false (sym (h r k') ∙ k))
    | inr k' ↦ rw (k, k') (filter-excluded p d rows h)
  ]
]

module _ (same : Text → Text → Bool) (collation : (a b : Text) → same a b ≡ equal_fold a b)
    (cfg : Config) (has_source : HasText cfg.db_type_s) (has_target : HasText cfg.db_type_t)
    (has_schema : HasText cfg.source_schema) (has_mode : HasText cfg.task_mode) where
  unknown :
      (t : Text) (rows : List WaitSyncMeta)
      → HasText t
      → is_none (
          detail_wait_sync_meta same
            (record (schema_key same cfg) { table_name_s = t })
            (delete_wait_sync_meta same
              (record (schema_key same cfg) { schema_name_s = cfg.source_schema; table_name_s = t })
              rows))
        ≡ true
  unfolding detail_wait_sync_meta delete_wait_sync_meta
  unknown t rows h = filter-excluded _ _ rows (λ r e.
      let a = given-same same collation cfg.db_type_s r.db_type_s has_source in
      let b = given-same same collation cfg.db_type_t r.db_type_t has_target in
      let c =
        given-same same collation (to_upper cfg.source_schema) r.schema_name_s
          (HasText-to_upper cfg.source_schema has_schema) in
      let d = given-same same collation t r.table_name_s h in
      let f = given-same same collation cfg.task_mode r.task_mode has_mode in
      rw
        (
          same-to_upper same collation r.db_type_s cfg.db_type_s,
          same-to_upper same collation r.db_type_t cfg.db_type_t,
          same-to_upper same collation r.table_name_s t,
        )
        (ground (arith, a, b, c, d, f, e)))

  -- a row under no mode
  apart : (m mode : Text) → HasText mode → same m [] ≡ true → same m mode ≡ false
  unfolding equal_fold to_upper text_eq
  apart m [] has h = absurd has
  apart [] (c ∷ mode) has h = collation [] (c ∷ mode)
  apart (x ∷ m) (c ∷ mode) has h = absurd (true≢false (sym h ∙ collation (x ∷ m) []))

  -- the key of the row that a start without checkpoints makes
  abbrev pub is_of : Text → WaitSyncMeta → Bool
  is_of t = has_key same cfg (waiting_row same cfg [] t)

  -- a row under no mode is in no deletion by the mode of the task
  kept_by :
      (t : Text) (d : WaitSyncMeta → Bool) (rows : List WaitSyncMeta)
      → ((r : WaitSyncMeta) → d r ≡ true → same r.task_mode cfg.task_mode ≡ true)
      → any (is_of t) rows ≡ true
      → any (is_of t) (filter (λ r. not (d r)) rows) ≡ true
  kept_by t d rows h = any-filter_implied (is_of t) _ rows (λ r e. elim (Bool-cases (d r)) [
    | inl k ↦
        absurd (true≢false (sym (h r k) ∙ apart r.task_mode cfg.task_mode has_mode (ground arith)))
    | inr k ↦ rw k refl
  ])

  success_kept :
      (t : Text) (difference : List Text → List Text → List Text) (exporters : List Text)
      (rows : List WaitSyncMeta)
      → any (is_of t) rows ≡ true
      → any (is_of t) (clear_success same cfg difference exporters rows) ≡ true
  unfolding clear_success delete_wait_sync_meta_success_tables
  success_kept t difference exporters rows e =
      if_kept _ rows _ (is_of t) e (kept_by t _ rows (λ r k. ground arith) e)

  deleted_kept :
      (t u : Text) (rows : List WaitSyncMeta)
      → any (is_of t) rows ≡ true
      → any (is_of t) (
          delete_wait_sync_meta same
            (record (schema_key same cfg) { schema_name_s = cfg.source_schema; table_name_s = u })
            rows)
        ≡ true
  unfolding delete_wait_sync_meta
  deleted_kept t u rows = kept_by t _ rows (λ r k. ground arith)

  -- the row is there, or made
  made-HasKey :
      (t : Text) (rows : List WaitSyncMeta)
      → any (is_of t) (create_unique same cfg (waiting_row same cfg [] t) rows).rows ≡ true
  unfolding create_unique create_wait_sync_meta
  made-HasKey t rows = elim (Bool-cases (any (is_of t) rows)) [
    | inl k ↦ rw k k
    | inr k ↦
        rw
          (
            k,
            any-append (is_of t) rows (waiting_row same cfg [] t ∷ []),
            same_self same collation cfg.db_type_s,
            same_self same collation cfg.db_type_t,
            same_self same collation (to_upper cfg.source_schema),
            same_self same collation (to_upper t),
            same_self same collation [],
          )
          (or-true (any (is_of t) rows))
  ]

  reset-HasKey :
      (t : Text) (rows : List WaitSyncMeta)
      → HasText t
      → any (is_of t) (reset_table same cfg t rows).rows ≡ true
  unfolding reset_table ensure_row
  reset-HasKey t rows h = rw (unknown t rows h) (made-HasKey t _)

  reset_twice :
      (t : Text) (rows : List WaitSyncMeta)
      → HasText t
      → any (is_of t) rows ≡ true
      → (reset_table same cfg t rows).error ≡ some (duplicate_row (to_upper t))
  unfolding reset_table ensure_row create_unique
  reset_twice t rows h e = rw (unknown t rows h, deleted_kept t t rows e) refl

  reset_kept :
      (t : Text) (us : List Text) (rows : List WaitSyncMeta)
      → any (is_of t) rows ≡ true
      → any (is_of t) (reset_tables same cfg us rows).rows ≡ true
  unfolding reset_tables reset_table
  reset_kept t [] rows e = e
  reset_kept t (u ∷ us) rows e =
      next_kept same cfg (is_of t) (reset_table same cfg u rows).error _ (reset_tables same cfg us)
        (row_kept same cfg (is_of t) [] u _ (deleted_kept t u rows e)) (reset_kept t us)

  resets-HasKey :
      (t : Text) (ts : List Text) (rows : List WaitSyncMeta)
      → HasText t
      → any (is_of t) (reset_tables same cfg (t ∷ ts) rows).rows ≡ true
  unfolding reset_tables
  resets-HasKey t ts rows h =
      next_kept same cfg (is_of t) (reset_table same cfg t rows).error _ (reset_tables same cfg ts)
        (reset-HasKey t rows h) (reset_kept t ts)

  with_rows-rows :
      (chunks : List DataCompareMeta) (rows : List WaitSyncMeta) (e : Option StartError)
      → (with_rows same cfg chunks rows e).rows ≡ rows
  with_rows-rows chunks rows none = refl
  with_rows-rows chunks rows (some e) = refl

  tables-HasKey :
      (t : Text) (difference : List Text → List Text → List Text) (exporters : List Text)
      (chunks : List DataCompareMeta) (rows : List WaitSyncMeta)
      → any (is_of t) rows ≡ true
      → any (is_of t) (start_tables same cfg difference exporters chunks rows).rows ≡ true
  unfolding start_tables
  tables-HasKey t difference exporters chunks rows e =
      let cleared = clear_success same cfg difference exporters rows in
      let k = success_kept t difference exporters rows e in
      elim (Bool-cases (
        ltb 0 (
          counts_err_wait_sync_meta_by_schema same
            (record (schema_key same cfg) { task_status = failed }) cleared))) [
              | inl f ↦ rw f k
              | inr f ↦
                  rw
                    (
                      f,
                      with_rows-rows chunks (ensure_rows same cfg exporters cleared).rows
                          (ensure_rows same cfg exporters cleared).error,
                    )
                    (rows_kept same cfg (is_of t) exporters cleared k)
            ]

  after-HasKey :
      (t : Text) (difference : List Text → List Text → List Text) (exporters : List Text)
      (chunks : List DataCompareMeta) (rows : List WaitSyncMeta) (e : Option StartError)
      → any (is_of t) rows ≡ true
      → any (is_of t) (after_reset same cfg difference exporters chunks rows e).rows ≡ true
  after-HasKey t difference exporters chunks rows none k =
      tables-HasKey t difference exporters chunks rows k
  after-HasKey t difference exporters chunks rows (some e) k = k

  start-HasKey :
      (difference : List Text → List Text → List Text) (t : Text) (ts : List Text) (db : CompareDb)
      → cfg.enable_checkpoint ≡ false
      → HasText t
      → any (is_of t) (start same cfg difference (t ∷ ts) db).rows ≡ true
  unfolding start
  start-HasKey difference t ts db c h = rw c (
      after-HasKey t difference (t ∷ ts) db.data_compare_meta
        (reset_tables same cfg (t ∷ ts) db.wait_sync_meta).rows
        (reset_tables same cfg (t ∷ ts) db.wait_sync_meta).error
        (resets-HasKey t ts db.wait_sync_meta h))

  -- Without checkpoints, and texts compared without their case: once a comparison was started for a table,
  -- whatever else the meta database has, the next start with the table as its first one ends with the error
  -- of the unique index, if only the keys of the rows of tables that the first start left are still there.
  pub second_start_refused :
      (difference : List Text → List Text → List Text) (t : Text) (ts us : List Text)
      (db later : CompareDb)
      → cfg.enable_checkpoint ≡ false
      → HasText t
      → (any (is_of t) (start same cfg difference (t ∷ ts) db).rows ≡ true
          → any (is_of t) later.wait_sync_meta ≡ true)
      → (start same cfg difference (t ∷ us) later).tasks ≡ err (duplicate_row (to_upper t))
  unfolding start reset_tables
  second_start_refused difference t ts us db later c h stay =
      rw (c, reset_twice t later.wait_sync_meta h (stay (start-HasKey difference t ts db c h))) refl
