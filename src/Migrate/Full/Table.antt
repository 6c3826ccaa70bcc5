-- ===== src/Migrate/Full/Table.antt =====
-- What the goroutine of a table leaves in the meta database, when its chunks run one after the other.
use transferdb.Prelude.{
  ℕ, Bool, true, false, ◌&&◌, ◌||◌, not, List, [], ◌∷◌, ◌-◌, map, length, filter, Option, none,
  some, ◌==◌, if◌then◌else◌, ◌≡◌, refl, ap, ◌∙◌, ◌⊎◌, inl, inr, Bool-cases, ==_iff, filter-congr,
  map-congr, length-filter-map, length-filter-split, pos,
}
use mathlib.Core.List.{Memᴰ}
use transferdb.Text.{Text, to_upper, equal_fold}
use transferdb.Meta.{
  WaitSyncMeta, FullSyncMeta, MetaDb, update_where, waiting, running, success, failed,
}
use transferdb.Meta.Wait.{of_wait_table, update_wait_sync_meta}
use transferdb.Meta.Full.{
  of_full_table, full_matches, detail_full_sync_meta, is_chunk, counts_error_full_sync_meta,
}
use transferdb.Meta.Transaction.{
  of_full_table_mode, delete_table_full_sync_meta_and_update_wait_sync_meta,
}
use transferdb.Meta.Collation.{
  HasText, HasText-to_upper, same-to_upper, is_chunk_self, matches-table, waiting_is, failed_is,
  success_is,
}
use transferdb.Migrate.Full.{
  Config, one_by_one, Progress, record_chunk, run_step, run_steps, wait_key, full_key,
  chunks_to_run, finish_table, sync_part_table,
}
use transferdb.Migrate.Full.Chunks.{status_of, with_outcome, record-wait, run-settled}

-- the statuses that a chunk has
abbrev pub HasStatus : Text → Type 0
HasStatus s = (s ≡ waiting) ⊎ (s ≡ success) ⊎ (s ≡ failed)

abbrev pub is_error : Option Text → Bool
is_error none = false
is_error (some e) = true

pub update-update :
    {A : Type 0} (p : A → Bool) (f g : A → A) (rows : List A)
    → ((r : A) → p (g r) ≡ p r)
    → update_where p f (update_where p g rows) ≡ update_where p (λ r. f (g r)) rows
update-update p f g [] h = refl
update-update p f g (r ∷ rows) h = elim (Bool-cases (p r)) [
  | inl e ↦ rw (e, h r, e, update-update p f g rows h) refl
  | inr e ↦ rw (e, e, update-update p f g rows h) refl
]

module _ (same : Text → Text → Bool) (collation : (a b : Text) → same a b ≡ equal_fold a b) where
  outcome_tests :
      (o : Option Text)
      → (same (status_of o) failed ≡ is_error o) × (same (status_of o) success ≡ not (is_error o))
  outcome_tests none = let (sw, sf, ss) = success_is same collation in (sf, ss)
  outcome_tests (some e) = let (fw, ff, fs) = failed_is same collation in (ff, fs)

  -- the test for a failed chunk after the run, and for one that succeeded
  pub status-after :
      (i : Bool) (st : Text) (o : Option Text)
      → HasStatus st
      → let chosen = (i && same st waiting) || (i && same st failed) in
        let after = if chosen then status_of o else st in
        ((i && same after failed) ≡ i && (not (same st success) && is_error o))
        × ((i && same after success) ≡ i && not (not (same st success) && is_error o))
  status-after false st o h = (refl, refl)
  status-after true st o (inl e) =
      let (ww, wf, ws) = waiting_is same collation in rw (e, ww, ws) (outcome_tests o)
  status-after true st o (inr (inl e)) =
      let (sw, sf, ss) = success_is same collation in rw (e, sw, sf, ss) (rw sf (refl, refl))
  status-after true st o (inr (inr e)) =
      let (fw, ff, fs) = failed_is same collation in rw (e, fw, ff, fs) (outcome_tests o)

  module _ (cfg : Config) (columns : Text → Option (List Text))
      (copy : List Text → FullSyncMeta → Option Text) where
    -- the configuration has the texts that a query of the meta database asks for
    abbrev pub IsConfigured : Type 0
    IsConfigured =
        HasText cfg.db_type_s
        × HasText cfg.db_type_t
        × HasText cfg.source_schema
        × HasText cfg.task_mode

    abbrev pub of_table : Text → FullSyncMeta → Bool
    of_table t r = of_full_table same (full_key same cfg t) r

    -- a chunk of a table that is not done, and that cannot be copied
    abbrev pub fails : List Text → Text → FullSyncMeta → Bool
    fails names t r = of_table t r && (not (same r.task_status success) && is_error (copy names r))

    -- a chunk that is not done gets the status of its copy
    abbrev pub settled : List Text → Text → FullSyncMeta → FullSyncMeta
    settled names t r =
        if (of_table t r && same r.task_status waiting)
          || (of_table t r && same r.task_status failed)
        then with_outcome same (copy names) r
        else r

    settled-parts :
        (b : Bool) (names : List Text) (r q : FullSyncMeta)
        → let r' = if b then with_outcome same (copy names) r else r in
          (of_full_table same q r' ≡ of_full_table same q r)
          × (r'.task_status ≡ (if b then status_of (copy names r) else r.task_status))
    settled-parts true names r q = (refl, refl)
    settled-parts false names r q = (refl, refl)

    -- the tests of `finish_table` on a row after the run
    settled-tests :
        (names : List Text) (t : Text) (r : FullSyncMeta)
        → HasStatus r.task_status
        → (of_table t (settled names t r) && same (settled names t r).task_status failed
            ≡ fails names t r)
          × (of_table t (settled names t r) && same (settled names t r).task_status success
              ≡ of_table t r && not (not (same r.task_status success) && is_error (copy names r)))
    settled-tests names t r h =
        let chosen =
          (of_table t r && same r.task_status waiting)
          || (of_table t r && same r.task_status failed) in
        let (e, e') = settled-parts chosen names r (full_key same cfg t) in
        rw (e, e') (status-after (of_table t r) r.task_status (copy names r) h)

    matches-key :
        (t s : Text) (r : FullSyncMeta)
        → IsConfigured
        → HasText t
        → HasText s
        → full_matches same (record (full_key same cfg t) { task_status = s }) r
          ≡ of_table t r && same r.task_status s
    matches-key t s r (hs, ht, hn, ho) hm hu =
        matches-table same collation cfg.db_type_s cfg.db_type_t (to_upper cfg.source_schema)
          (to_upper t) cfg.task_mode s r hs ht (HasText-to_upper cfg.source_schema hn)
          (HasText-to_upper t hm) ho hu

    run-table :
        (names : List Text) (t : Text) (g : Progress)
        → IsConfigured
        → HasText t
        → ((c r : FullSyncMeta)
            → Memᴰ c g.db.full_sync_meta
            → Memᴰ r g.db.full_sync_meta
            → is_chunk same c r ≡ true
            → c ≡ r)
        → (run_steps same
            (copy names)
            (one_by_one (chunks_to_run same cfg t g.db.full_sync_meta))
            g).db.full_sync_meta
          ≡ map (settled names t) g.db.full_sync_meta
    unfolding chunks_to_run detail_full_sync_meta
    run-table names t g hc ht unique =
        run-settled same (copy names) _ _ g (is_chunk_self same collation) unique
        ∙ map-congr _ _ g.db.full_sync_meta
            (λ r m. rw (matches-key t waiting r hc ht tt, matches-key t failed r hc ht tt) refl)

    -- the row of a table whose chunks are done
    abbrev pub finished : ℕ → ℕ → WaitSyncMeta → WaitSyncMeta
    finished total bad w = record w {
      task_status = if bad == 0 then success else failed;
      chunk_success_nums = pos (total - bad);
      chunk_failed_nums = pos bad;
    }

    outside-settled :
        (names : List Text) (t : Text) (rows : List FullSyncMeta)
        → filter (λ r. not (of_table t r)) (map (settled names t) rows)
          ≡ filter (λ r. not (of_table t r)) rows
    outside-settled names t [] = refl
    outside-settled names t (r ∷ rows) =
        let chosen =
          (of_table t r && same r.task_status waiting)
          || (of_table t r && same r.task_status failed) in
        let (e, e') = settled-parts chosen names r (full_key same cfg t) in
        elim (Bool-cases (of_table t r)) [
          | inl i ↦ rw (e, i, outside-settled names t rows) refl
          | inr o ↦ rw (e, o, outside-settled names t rows) refl
        ]

    outside-mode :
        (t : Text) (r : FullSyncMeta)
        → not (of_full_table_mode same (full_key same cfg t) r) ≡ not (of_table t r)
    outside-mode t r = rw (same-to_upper same collation r.task_mode cfg.task_mode) refl

    bad-count :
        (names : List Text) (t : Text) (rows : List FullSyncMeta)
        → IsConfigured
        → HasText t
        → ((r : FullSyncMeta) → Memᴰ r rows → HasStatus r.task_status)
        → counts_error_full_sync_meta same
            (record (full_key same cfg t) { task_status = failed })
            (map (settled names t) rows)
          ≡ length (filter (fails names t) rows)
    unfolding counts_error_full_sync_meta
    bad-count names t rows hc ht valid =
        length-filter-map _ (fails names t) (settled names t) rows
          (λ r m. (settled-tests names t r (valid r m)).0)

    good-count :
        (names : List Text) (t : Text) (rows : List FullSyncMeta)
        → IsConfigured
        → HasText t
        → ((r : FullSyncMeta) → Memᴰ r rows → HasStatus r.task_status)
        → length (
            detail_full_sync_meta same
              (record (full_key same cfg t) { task_status = success })
              (map (settled names t) rows))
          ≡ length (filter (of_table t) rows) - length (filter (fails names t) rows)
    unfolding detail_full_sync_meta
    good-count names t rows hc ht valid =
        length-filter-map _
          (λ r. of_table t r && not (not (same r.task_status success) && is_error (copy names r)))
          (settled names t) rows
          (λ r m.
            matches-key t success (settled names t r) hc ht tt
            ∙ (settled-tests names t r (valid r m)).1)
        ∙ length-filter-split (of_table t)
            (λ r. not (same r.task_status success) && is_error (copy names r)) rows

    finish-settled :
        (names : List Text) (t : Text) (rows : List FullSyncMeta) (db : MetaDb)
        → IsConfigured
        → HasText t
        → ((r : FullSyncMeta) → Memᴰ r rows → HasStatus r.task_status)
        → db.full_sync_meta ≡ map (settled names t) rows
        → let total = length (filter (of_table t) rows) in
          let bad = length (filter (fails names t) rows) in
          ((finish_table same cfg t db).wait_sync_meta
            ≡ update_where
                (of_wait_table same (wait_key same cfg t))
                (finished total bad)
                db.wait_sync_meta)
          × ((finish_table same cfg t db).full_sync_meta ≡ (
              if bad == 0
              then filter (λ r. not (of_table t r)) rows
              else map (settled names t) rows))
    unfolding finish_table update_wait_sync_meta
        delete_table_full_sync_meta_and_update_wait_sync_meta
    finish-settled names t rows db hc ht valid full =
        let bad_count = bad-count names t rows hc ht valid in
        let good_count = good-count names t rows hc ht valid in
        elim (Bool-cases (length (filter (fails names t) rows) == 0)) [
          | inl e ↦
              let none_bad = (==_iff (length (filter (fails names t) rows)) 0).0 e in
              rw (full, bad_count, good_count, none_bad)
                (
                  refl,
                  filter-congr _ _ (map (settled names t) rows) (outside-mode t)
                      ∙ outside-settled names t rows,
                )
          | inr e ↦ rw (full, bad_count, good_count, e) (refl, refl)
        ]

    run-wait :
        (names : List Text) (ms : List FullSyncMeta) (g : Progress)
        → (run_steps same (copy names) (one_by_one ms) g).db.wait_sync_meta ≡ g.db.wait_sync_meta
    unfolding run_steps run_step
    run-wait names [] g = refl
    run-wait names (m ∷ ms) g =
        run-wait names ms
          (record { err = copy names m; db = record_chunk same (copy names m) m g.db })
        ∙ record-wait same (copy names) (copy names m) m g.db

    -- The goroutine of a table whose chunks run one after the other, for a meta database that compares
    -- texts without their case, different chunks in its rows, and rows that wait, are done or failed.
    -- A chunk of the table that is not done gets the status of its copy. If
    -- none failed the table is SUCCESS and its chunks are deleted, otherwise it is FAILED and they
    -- stay. The successful and the failed chunks of its row are those of the table together, and the
    -- rows of other tables do not change.
    pub table_synced :
        (names : List Text) (t : Text) (db : MetaDb)
        → IsConfigured
        → HasText t
        → ((r : FullSyncMeta) → Memᴰ r db.full_sync_meta → HasStatus r.task_status)
        → ((c r : FullSyncMeta)
            → Memᴰ c db.full_sync_meta
            → Memᴰ r db.full_sync_meta
            → is_chunk same c r ≡ true
            → c ≡ r)
        → columns t ≡ some names
        → let total = length (filter (of_table t) db.full_sync_meta) in
          let bad = length (filter (fails names t) db.full_sync_meta) in
          let result = sync_part_table same cfg columns copy one_by_one t db in
          (result.wait_sync_meta
            ≡ update_where
                (of_wait_table same (wait_key same cfg t))
                (finished total bad)
                db.wait_sync_meta)
          × (result.full_sync_meta ≡ (
              if bad == 0
              then filter (λ r. not (of_table t r)) db.full_sync_meta
              else map (settled names t) db.full_sync_meta))
    unfolding sync_part_table update_wait_sync_meta
    table_synced names t db hc ht valid unique known =
        let total = length (filter (of_table t) db.full_sync_meta) in
        let bad = length (filter (fails names t) db.full_sync_meta) in
        let started : MetaDb = record db {
          wait_sync_meta =
              update_where (of_wait_table same (wait_key same cfg t))
                (λ r. record r { task_status = running }) db.wait_sync_meta;
        } in
        let g : Progress = record { err = none; db = started } in
        let cs = chunks_to_run same cfg t db.full_sync_meta in
        let after = (run_steps same (copy names) (one_by_one cs) g).db in
        let (w, f) =
          finish-settled names t db.full_sync_meta after hc ht valid
            (run-table names t g hc ht unique) in
        rw (sync_part_table, known)
          (
            w
                ∙ ap (update_where (of_wait_table same (wait_key same cfg t)) (finished total bad))
                    (run-wait names cs g)
                ∙ update-update (of_wait_table same (wait_key same cfg t)) (finished total bad)
                    (λ r. record r { task_status = running }) db.wait_sync_meta (λ r. refl),
            f,
          )
