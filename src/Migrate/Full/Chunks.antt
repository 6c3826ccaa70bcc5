-- ===== src/Migrate/Full/Chunks.antt =====
-- What the chunks of a table come to when their goroutines run one after the other (`SQLThreads` 1),
-- and when two of them run at once.
use transferdb.Prelude.{
  Bool, true, false, ◌||◌, List, [], ◌∷◌, ◌++◌, map, filter, Option, none, some, if◌then◌else◌, ◌≡◌,
  refl, sym, ap, ◌∙◌, inl, inr, Bool-cases, any, any-append, any-test, filter_mem, map_id, map-map,
  map-congr,
}
use mathlib.Core.List.{Memᴰ}
use mathlib.Core.List.Memᴰ.{append_cases}
use transferdb.Text.{Text}
use transferdb.Meta.{FullSyncMeta, MetaDb, update_where, success, failed}
use transferdb.Meta.Full.{is_chunk, update_full_sync_meta_chunk}
use transferdb.Meta.Transaction.{update_full_sync_meta_chunk_and_create_chunk_error_detail}
use transferdb.Migrate.Full.{Progress, one_by_one, record_chunk, run_step, run_steps}

abbrev pub status_of : Option Text → Text
status_of none = success
status_of (some e) = failed

pub if_same : {A : Type 0} (b : Bool) (a : A) → (if b then a else a) ≡ a
if_same true a = refl
if_same false a = refl

module _ (same : Text → Text → Bool) (copy : FullSyncMeta → Option Text) where
  abbrev pub with_outcome : FullSyncMeta → FullSyncMeta
  with_outcome r = record r { task_status = status_of (copy r) }

  -- the updates of some chunks on a row
  abbrev settle : List FullSyncMeta → FullSyncMeta → FullSyncMeta
  settle [] r = r
  settle (c ∷ cs) r =
      settle cs (if is_chunk same c r then record r { task_status = status_of (copy c) } else r)

  pub record_chunk-full :
      (o : Option Text) (m : FullSyncMeta) (db : MetaDb)
      → (record_chunk same o m db).full_sync_meta
        ≡ update_where
            (is_chunk same m)
            (λ r. record r { task_status = status_of o })
            db.full_sync_meta
  unfolding record_chunk update_full_sync_meta_chunk
      update_full_sync_meta_chunk_and_create_chunk_error_detail
  record_chunk-full none m db = refl
  record_chunk-full (some e) m db = refl

  pub record-wait :
      (o : Option Text) (m : FullSyncMeta) (db : MetaDb)
      → (record_chunk same o m db).wait_sync_meta ≡ db.wait_sync_meta
  unfolding record_chunk update_full_sync_meta_chunk_and_create_chunk_error_detail
  record-wait none m db = refl
  record-wait (some e) m db = refl

  one_by_one-full :
      (ms : List FullSyncMeta) (p : Progress)
      → (run_steps same copy (one_by_one ms) p).db.full_sync_meta
        ≡ map (settle ms) p.db.full_sync_meta
  unfolding run_steps run_step
  one_by_one-full [] p = sym (map_id p.db.full_sync_meta)
  one_by_one-full (m ∷ ms) p =
      one_by_one-full ms (record { err = copy m; db = record_chunk same (copy m) m p.db })
      ∙ ap (map (settle ms)) (record_chunk-full (copy m) m p.db)
      ∙ map-map (settle ms) _ p.db.full_sync_meta

  -- a row under a status, and the chunks that are the row
  settle-status :
      (cs : List FullSyncMeta) (r : FullSyncMeta) (s : Text)
      → ((c : FullSyncMeta) → Memᴰ c cs → is_chunk same c r ≡ true → c ≡ r)
      → settle cs (record r { task_status = s }) ≡ record r {
        task_status = (if any (λ c. is_chunk same c r) cs then status_of (copy r) else s);
      }
  unfolding is_chunk
  settle-status [] r s h = refl
  settle-status (c ∷ cs) r s h =
      let rest = settle-status cs r (status_of (copy r)) (λ x m. h x (Memᴰ.tail m)) in
      let kept = settle-status cs r s (λ x m. h x (Memᴰ.tail m)) in
      elim (Bool-cases (is_chunk same c r)) [
        | inl e ↦
            rw (e, h c (Memᴰ.head refl) e)
              (rest
                ∙ ap (λ x. record r { task_status = x })
                    (if_same (any (λ c'. is_chunk same c' r) cs) _))
        | inr e ↦ rw e kept
      ]

  status_if :
      (b : Bool) (r : FullSyncMeta)
      → record r { task_status = (if b then status_of (copy r) else r.task_status) }
        ≡ (if b then with_outcome r else r)
  status_if true r = refl
  status_if false r = refl

  -- the rows after the run of the chunks that two tests choose
  pub run-settled :
      (p q : FullSyncMeta → Bool) (g : Progress)
      → ((r : FullSyncMeta) → is_chunk same r r ≡ true)
      → ((c r : FullSyncMeta)
          → Memᴰ c g.db.full_sync_meta
          → Memᴰ r g.db.full_sync_meta
          → is_chunk same c r ≡ true
          → c ≡ r)
      → (run_steps same copy
          (one_by_one (filter p g.db.full_sync_meta ++ filter q g.db.full_sync_meta))
          g).db.full_sync_meta
        ≡ map (λ r. if p r || q r then with_outcome r else r) g.db.full_sync_meta
  run-settled p q g self unique =
      let rows = g.db.full_sync_meta in
      let cs = filter p rows ++ filter q rows in
      one_by_one-full cs g
      ∙ map-congr (settle cs) _ rows λ r m.
        let from : (c : FullSyncMeta) → Memᴰ c cs → is_chunk same c r ≡ true → c ≡ r = λ c k.
          unique c r
            (elim (append_cases (filter p rows) k) [
              | inl a ↦ filter_mem p c rows a
              | inr b ↦ filter_mem q c rows b
            ])
            m in
        settle-status cs r r.task_status from
        ∙ (rw
            (
              any-append (λ c. is_chunk same c r) (filter p rows) (filter q rows),
              any-test (is_chunk same) p rows r (self r) (λ c k. unique c r k m) m,
              any-test (is_chunk same) q rows r (self r) (λ c k. unique c r k m) m,
            )
            (status_if (p r || q r) r))
