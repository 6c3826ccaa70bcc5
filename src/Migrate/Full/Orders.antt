-- ===== src/Migrate/Full/Orders.antt =====
-- What holds of the chunk rows after any steps of any goroutines, in whatever order, and so also when
-- the program stops in the middle of a run.
use transferdb.Prelude.{
  Bool, true, false, List, [], ◌∷◌, Option, none, some, All, if◌then◌else◌, ap, length-filter-map,
  ◌≡◌, refl, ◌∙◌, inl, inr,
}
use transferdb.Text.{Text}
use transferdb.Meta.{FullSyncMeta, update_where}
use transferdb.Meta.Full.{of_full_table, is_chunk, counts_full_sync_meta_by_task_table}
use transferdb.Migrate.Full.{
  ChunkStep, copied, recorded, Progress, record_chunk, run_step, run_steps,
}
use transferdb.Migrate.Full.Chunks.{status_of, record_chunk-full, record-wait}
use transferdb.Migrate.Full.Table.{HasStatus}

status_of-HasStatus : (o : Option Text) → HasStatus (status_of o)
status_of-HasStatus none = inr (inl refl)
status_of-HasStatus (some e) = inr (inr refl)

update-HasStatus :
    (p : FullSyncMeta → Bool) (s : Text) (rows : List FullSyncMeta)
    → HasStatus s
    → All (λ r. HasStatus r.task_status) rows
    → All (λ r. HasStatus r.task_status) (update_where p (λ r. record r { task_status = s }) rows)
update-HasStatus p s [] hs _ = tt
update-HasStatus p s (r ∷ rows) hs (h, h') = (row (p r), update-HasStatus p s rows hs h')
  where
    row : (b : Bool) → HasStatus (if b then record r { task_status = s } else r).task_status
    row true = hs
    row false = h

update-count :
    (same : Text → Text → Bool) (q : FullSyncMeta) (p : FullSyncMeta → Bool) (s : Text)
    (rows : List FullSyncMeta)
    → counts_full_sync_meta_by_task_table same q
        (update_where p (λ r. record r { task_status = s }) rows)
      ≡ counts_full_sync_meta_by_task_table same q rows
unfolding counts_full_sync_meta_by_task_table
update-count same q p s rows =
    length-filter-map (of_full_table same q) (of_full_table same q) _ rows (λ r m. row (p r) r)
  where
    row :
        (b : Bool) (r : FullSyncMeta)
        → of_full_table same q (if b then record r { task_status = s } else r)
          ≡ of_full_table same q r
    row true r = refl
    row false r = refl

module _ (same : Text → Text → Bool) (copy : FullSyncMeta → Option Text) where
  -- After any steps every chunk still waits, is done or failed, no table has more or fewer chunks than
  -- before, which is what a resumed run asks for, and the rows of the tables are as they were.
  pub run_steps-invariant :
      (steps : List ChunkStep) (p : Progress) (q : FullSyncMeta)
      → All (λ r. HasStatus r.task_status) p.db.full_sync_meta
      → let after = (run_steps same copy steps p).db in
        All (λ r. HasStatus r.task_status) after.full_sync_meta
        × (counts_full_sync_meta_by_task_table same q after.full_sync_meta
            ≡ counts_full_sync_meta_by_task_table same q p.db.full_sync_meta)
        × (after.wait_sync_meta ≡ p.db.wait_sync_meta)
  unfolding run_steps run_step
  run_steps-invariant [] p q h = (h, refl, refl)
  run_steps-invariant (copied m ∷ ss) p q h = run_steps-invariant ss (record p { err = copy m }) q h
  run_steps-invariant (recorded m ∷ ss) p q h =
      let db = record_chunk same p.err m p.db in
      let full = record_chunk-full same copy p.err m p.db in
      let (valid, counts, wait) =
        run_steps-invariant ss (record p { db = db }) q
          (rw full (
            update-HasStatus (is_chunk same m) (status_of p.err) p.db.full_sync_meta
              (status_of-HasStatus p.err) h)) in
      (
        valid,
        counts
            ∙ ap (counts_full_sync_meta_by_task_table same q) full
            ∙ update-count same q (is_chunk same m) (status_of p.err) p.db.full_sync_meta,
        wait ∙ record-wait same copy p.err m p.db,
      )
