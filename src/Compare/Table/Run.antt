-- ===== src/Compare/Table/Run.antt =====
-- The chunks of a table after the reports on them.
use transferdb.Prelude.{
  Bool, true, false, ◌&&◌, ◌||◌, not, List, [], ◌∷◌, ◌++◌, map, filter, Option, none, some,
  if◌then◌else◌, Result, ok, err, panic, ◌≡◌, refl, sym, ap, ◌∙◌, inl, inr, Bool-cases, any,
  any-append, any-test, filter_mem, map_id, map-map, map-congr,
}
use mathlib.Core.List.{Memᴰ}
use mathlib.Core.List.Memᴰ.{append_cases}
use transferdb.Text.{Text, equal_fold}
use transferdb.Meta.{waiting, success, failed}
use transferdb.Meta.Collation.{HasText, given-same, same-to_upper, same_self, same_upper_self}
use transferdb.Meta.Full.{given}
use transferdb.Meta.Compare.{
  DataCompareMeta, of_compare_table, detail_data_compare_meta, update_data_compare_meta,
}
use transferdb.Migrate.Full.Chunks.{status_of, if_same}
use transferdb.Migrate.Full.Table.{is_error}
use transferdb.Compare.Report.{ReportError}
use transferdb.Compare.Chunk.{Config}
use transferdb.Compare.Table.{outcome, compare_key, chunks_to_compare, compare_chunks}

-- the failure of a chunk: its report is an error, or is not empty
abbrev pub failure_of : Result ReportError Text → Option Text
failure_of (ok report) = if equal_fold report [] then none else some report
failure_of (err e) = some []
failure_of panic = some []

pub outcome-failure : (r : Result ReportError Text) → outcome r ≡ status_of (failure_of r)
outcome-failure (ok report) = elim (Bool-cases (equal_fold report [])) [
  | inl e ↦ rw e refl
  | inr e ↦ rw e refl
]
outcome-failure (err e) = refl
outcome-failure panic = refl

-- the configuration has the texts that a query of the meta database asks for
abbrev pub IsConfigured : Config → Type 0
IsConfigured cfg =
    HasText cfg.db_type_s
    × HasText cfg.db_type_t
    × HasText cfg.source_schema
    × HasText cfg.task_mode

abbrev pub with_report :
    (DataCompareMeta → Result ReportError Text) → DataCompareMeta → DataCompareMeta
with_report report r = record r { task_status = outcome (report r) }

module _ (same : Text → Text → Bool) where
  abbrev pub is_compare_chunk : DataCompareMeta → DataCompareMeta → Bool
  is_compare_chunk m r = of_compare_table same m r && same r.where_range m.where_range

  -- different chunks differ in the columns of the unique index
  abbrev pub AreUnique : List DataCompareMeta → Type 0
  AreUnique rows =
      (c r : DataCompareMeta) → Memᴰ c rows → Memᴰ r rows → is_compare_chunk c r ≡ true → c ≡ r

  module _ (cfg : Config) where
    abbrev pub of_task : Text → DataCompareMeta → Bool
    of_task t r = of_compare_table same (compare_key same cfg t) r

    module _ (report : DataCompareMeta → Result ReportError Text) where
      -- a chunk of the table that is not done, and that is not found equal
      abbrev pub differs : Text → DataCompareMeta → Bool
      differs t r =
          of_task t r && (not (same r.task_status success) && is_error (failure_of (report r)))

      -- a chunk of the table that is not done gets the status of its report
      abbrev pub compared : Text → DataCompareMeta → DataCompareMeta
      compared t r =
          if (of_task t r && same r.task_status waiting)
            || (of_task t r && same r.task_status failed)
          then with_report report r
          else r

module _ (same : Text → Text → Bool) (collation : (a b : Text) → same a b ≡ equal_fold a b)
    (cfg : Config) (report : DataCompareMeta → Result ReportError Text) where
  abbrev settle : List DataCompareMeta → DataCompareMeta → DataCompareMeta
  settle [] r = r
  settle (c ∷ cs) r =
      settle cs
        (if is_compare_chunk same c r then record r { task_status = outcome (report c) } else r)

  chunks_settle :
      (ms rows : List DataCompareMeta)
      → compare_chunks same cfg report ms rows ≡ map (settle ms) rows
  unfolding compare_chunks update_data_compare_meta
  chunks_settle [] rows = sym (map_id rows)
  chunks_settle (m ∷ ms) rows = chunks_settle ms _ ∙ map-map (settle ms) _ rows

  settle-status :
      (cs : List DataCompareMeta) (r : DataCompareMeta) (s : Text)
      → ((c : DataCompareMeta) → Memᴰ c cs → is_compare_chunk same c r ≡ true → c ≡ r)
      → settle cs (record r { task_status = s }) ≡ record r {
        task_status = (if any (λ c. is_compare_chunk same c r) cs then outcome (report r) else s);
      }
  settle-status [] r s h = refl
  settle-status (c ∷ cs) r s h = elim (Bool-cases (is_compare_chunk same c r)) [
    | inl e ↦
        rw (e, h c (Memᴰ.head refl) e)
          (settle-status cs r (outcome (report r)) (λ x m. h x (Memᴰ.tail m))
            ∙ ap (λ x. record r { task_status = x })
                (if_same (any (λ c'. is_compare_chunk same c' r) cs) _))
    | inr e ↦ rw e (settle-status cs r s (λ x m. h x (Memᴰ.tail m)))
  ]

  is_compare_chunk_self : (r : DataCompareMeta) → is_compare_chunk same r r ≡ true
  is_compare_chunk_self r =
      rw
        (
          same_upper_self same collation r.db_type_s,
          same_upper_self same collation r.db_type_t,
          same_upper_self same collation r.schema_name_s,
          same_upper_self same collation r.table_name_s,
          same_upper_self same collation r.task_mode,
          same_self same collation r.where_range,
        )
        refl

  status_if :
      (b : Bool) (r : DataCompareMeta)
      → record r { task_status = (if b then outcome (report r) else r.task_status) }
        ≡ (if b then with_report report r else r)
  status_if true r = refl
  status_if false r = refl

  -- the rows after the comparison of the chunks that two tests choose
  run-settled :
      (p q : DataCompareMeta → Bool) (rows : List DataCompareMeta)
      → AreUnique same rows
      → compare_chunks same cfg report (filter p rows ++ filter q rows) rows
        ≡ map (λ r. if p r || q r then with_report report r else r) rows
  run-settled p q rows unique =
      let cs = filter p rows ++ filter q rows in
      chunks_settle cs rows
      ∙ map-congr (settle cs) _ rows λ r m.
        let from : (c : DataCompareMeta) → Memᴰ c cs → is_compare_chunk same c r ≡ true → c ≡ r =
          λ c k.
            unique c r
              (elim (append_cases (filter p rows) k) [
                | inl a ↦ filter_mem p c rows a
                | inr b ↦ filter_mem q c rows b
              ])
              m in
        settle-status cs r r.task_status from
        ∙ (rw
            (
              any-append (λ c. is_compare_chunk same c r) (filter p rows) (filter q rows),
              any-test (is_compare_chunk same) p rows r (is_compare_chunk_self r)
                  (λ c k. unique c r k m) m,
              any-test (is_compare_chunk same) q rows r (is_compare_chunk_self r)
                  (λ c k. unique c r k m) m,
            )
            (status_if (p r || q r) r))

  and-query :
      (a b c d e s : Bool)
      → (a && b && c && d && true && true && true && true && true && true && e && s && true)
        ≡ (a && b && c && d && e) && s
  and-query false b c d e s = refl
  and-query true false c d e s = refl
  and-query true true false d e s = refl
  and-query true true true false e s = refl
  and-query true true true true false s = refl
  and-query true true true true true false = refl
  and-query true true true true true true = refl

  pub chunks_run :
      (t : Text) (rows : List DataCompareMeta)
      → IsConfigured cfg
      → HasText t
      → AreUnique same rows
      → compare_chunks same cfg report (chunks_to_compare same cfg t rows) rows
        ≡ map (compared same cfg report t) rows
  unfolding chunks_to_compare detail_data_compare_meta
  chunks_run t rows (hs, ht, hn, ho) hm unique =
      let query : (s : Text) (r : DataCompareMeta)
          → HasText s
          → (given same cfg.db_type_s r.db_type_s
              && given same cfg.db_type_t r.db_type_t
              && given same cfg.source_schema r.schema_name_s
              && given same t r.table_name_s
              && true
              && true
              && true
              && true
              && true
              && true
              && given same cfg.task_mode r.task_mode
              && given same s r.task_status
              && true)
            ≡ of_task same cfg t r && same r.task_status s =
        λ s r h.
          rw
            (
              given-same same collation cfg.db_type_s r.db_type_s hs,
              given-same same collation cfg.db_type_t r.db_type_t ht,
              given-same same collation cfg.source_schema r.schema_name_s hn,
              given-same same collation t r.table_name_s hm,
              given-same same collation cfg.task_mode r.task_mode ho,
              given-same same collation s r.task_status h,
              same-to_upper same collation r.db_type_s cfg.db_type_s,
              same-to_upper same collation r.db_type_t cfg.db_type_t,
              same-to_upper same collation r.schema_name_s cfg.source_schema,
              same-to_upper same collation r.table_name_s t,
              same-to_upper same collation r.task_mode cfg.task_mode,
            )
            (and-query (same r.db_type_s cfg.db_type_s) (same r.db_type_t cfg.db_type_t)
              (same r.schema_name_s cfg.source_schema) (same r.table_name_s t)
              (same r.task_mode cfg.task_mode) (same r.task_status s)) in
      run-settled _ _ rows unique
      ∙ map-congr _ _ rows (λ r m. rw (query waiting r tt, query failed r tt) refl)
