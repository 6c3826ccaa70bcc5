-- ===== src/Tests/Resuming.antt =====
-- Tests of the full copy of a table of employees, and its theorems there.
use transferdb.Prelude.{
  ℕ, String, Bool, true, false, List, [], ◌∷◌, Option, none, some, ◌≡◌, inl, inr, refl, ℤ, pos,
  negsuc, All, length, ◌∙◌, sym, if◌then◌else◌,
}
use mathlib.Core.List.{Memᴰ}
use mathlib.Core.Bool.{false≢true}
use transferdb.Text.{Text, codes, text_eq, to_upper, equal_fold}
use transferdb.Meta.{
  WaitSyncMeta, FullSyncMeta, MetaDb, no_wait_sync_meta, no_full_sync_meta, waiting, running,
  success, failed,
}
use transferdb.Meta.Wait.{
  detail_wait_sync_meta, counts_err_wait_sync_meta_by_schema, detail_wait_sync_meta_success_tables,
}
use transferdb.Meta.Full.{
  batch_create_full_sync_meta, is_chunk, counts_full_sync_meta_by_task_table,
}
use transferdb.Migrate.Full.{Config, Progress, recorded, one_by_one, run_steps, sync_part_table}
use transferdb.Migrate.Full.Table.{HasStatus, table_synced}
use transferdb.Migrate.Full.Orders.{run_steps-invariant}
use transferdb.Migrate.Full.Columns.{
  adjust_table_select_column, column_names, select_column, one_of_types, RowColumn,
}
use transferdb.Migrate.Full.Init.{
  Statements, init_table, init_known, create_table, create_chunks, create_many,
}
use transferdb.Migrate.Full.Start.{
  FullResult, full, full_after, prepare, resume_task, clear_success,
}
use transferdb.Common.Sets.{filter_difference_string_items}
use transferdb.Migrate.Full.Start.Refused.{IsUntouched, refused-IsUntouched}
use transferdb.Migrate.Full.Start.Skipped.{started_tables_skipped}

abbrev hr : Config
hr = record {
  db_type_s = codes "ORACLE";
  db_type_t = codes "MYSQL";
  task_mode = codes "FULL";
  source_schema = codes "hr";
  target_schema = codes "hr";
  enable_checkpoint = true;
  consistent_read = false;
  sql_hint = [];
}

abbrev chunk : String → Text → FullSyncMeta
chunk detail status = record no_full_sync_meta {
  db_type_s = codes "ORACLE";
  db_type_t = codes "MYSQL";
  schema_name_s = codes "HR";
  table_name_s = codes "EMP";
  task_mode = codes "FULL";
  chunk_detail_s = codes detail;
  task_status = status;
}

abbrev emp_row : Text → ℤ → ℤ → ℤ → WaitSyncMeta
emp_row status total good bad = record no_wait_sync_meta {
  db_type_s = codes "ORACLE";
  db_type_t = codes "MYSQL";
  schema_name_s = codes "HR";
  table_name_s = codes "EMP";
  task_mode = codes "FULL";
  task_status = status;
  global_scn_s = 7;
  chunk_total_nums = total;
  chunk_success_nums = good;
  chunk_failed_nums = bad;
}

abbrev two_chunks : List FullSyncMeta
two_chunks = chunk "A" waiting ∷ chunk "B" failed ∷ []

abbrev emp_db : MetaDb
emp_db = record {
  wait_sync_meta = emp_row running (pos 2) (pos 0) (pos 0) ∷ [];
  full_sync_meta = two_chunks;
  incr_sync_meta = [];
  chunk_error_detail = [];
}

abbrev columns_of : Text → Option (List Text)
columns_of _ = some (codes "ID" ∷ [])

-- the chunk A cannot be copied
abbrev copy_b : List Text → FullSyncMeta → Option Text
copy_b _ m = if text_eq m.chunk_detail_s (codes "A") then some (codes "broken") else none

two_chunks-HasStatus : (r : FullSyncMeta) → Memᴰ r two_chunks → HasStatus r.task_status
two_chunks-HasStatus r (Memᴰ.head e) = rw e (inl refl)
two_chunks-HasStatus r (Memᴰ.tail (Memᴰ.head e)) = rw e (inr (inr refl))
two_chunks-HasStatus r (Memᴰ.tail (Memᴰ.tail m)) = elim m [ ]

two_chunks_unique :
    (c r : FullSyncMeta)
    → Memᴰ c two_chunks
    → Memᴰ r two_chunks
    → is_chunk equal_fold c r ≡ true
    → c ≡ r
unfolding is_chunk equal_fold text_eq to_upper
two_chunks_unique c r (Memᴰ.head e) (Memᴰ.head e') h = e ∙ sym e'
two_chunks_unique c r (Memᴰ.tail (Memᴰ.head e)) (Memᴰ.tail (Memᴰ.head e')) h = e ∙ sym e'
two_chunks_unique c r (Memᴰ.head e) (Memᴰ.tail (Memᴰ.head e')) h =
    absurd (false≢true (rw (e, e') at h))
two_chunks_unique c r (Memᴰ.tail (Memᴰ.head e)) (Memᴰ.head e') h =
    absurd (false≢true (rw (e, e') at h))
two_chunks_unique c r (Memᴰ.tail (Memᴰ.tail m)) k h = elim m [ ]
two_chunks_unique c r (Memᴰ.head e) (Memᴰ.tail (Memᴰ.tail m)) h = elim m [ ]
two_chunks_unique c r (Memᴰ.tail (Memᴰ.head e)) (Memᴰ.tail (Memᴰ.tail m)) h = elim m [ ]

table_synced_example :
    let result = sync_part_table equal_fold hr columns_of copy_b one_by_one (codes "EMP") emp_db in
    (result.wait_sync_meta ≡ emp_row failed (pos 2) (pos 1) (pos 1) ∷ [])
    × (result.full_sync_meta ≡ chunk "A" failed ∷ chunk "B" success ∷ [])
unfolding equal_fold text_eq to_upper
table_synced_example =
    table_synced equal_fold (λ a b. refl) hr columns_of copy_b (codes "ID" ∷ []) (codes "EMP")
      emp_db (tt, tt, tt, tt) tt two_chunks-HasStatus two_chunks_unique refl

run_steps-invariant_example :
    let start : Progress = record { err = none; db = emp_db } in
    let after = (run_steps equal_fold (copy_b []) (recorded (chunk "A" waiting) ∷ []) start).db in
    All (λ r. HasStatus r.task_status) after.full_sync_meta
    × (counts_full_sync_meta_by_task_table equal_fold (chunk "A" waiting) after.full_sync_meta
        ≡ counts_full_sync_meta_by_task_table equal_fold (chunk "A" waiting) two_chunks)
    × (after.wait_sync_meta ≡ emp_db.wait_sync_meta)
run_steps-invariant_example =
    run_steps-invariant equal_fold (copy_b []) (recorded (chunk "A" waiting) ∷ [])
      (record { err = none; db = emp_db }) (chunk "A" waiting) (inl refl, (inr (inr refl), tt))

abbrev stamp : RowColumn
stamp = record { column_name = codes "T"; data_type = codes "TIMESTAMP(3)"; data_scale = codes "3" }

abbrev id_column : Text → Option (List RowColumn)
id_column _ =
    some (record { column_name = codes "ID"; data_type = codes "NUMBER"; data_scale = [] } ∷ [])

abbrev nine_rows : Text → Option ℕ
nine_rows _ = some 9

abbrev two_ranges : Text → Option (List Text)
two_ranges _ = some (codes "A" ∷ codes "B" ∷ [])

abbrev yes : Text → Bool
yes _ = true

abbrev all_succeed : Statements
all_succeed = record {
  transacts = λ _ _. true;
  creates = λ _ _. true;
  updates = λ _ _. true;
  closes = yes;
}

abbrev minus : List Text → List Text → List Text
minus [] ys = []
minus (x ∷ xs) ys = x ∷ xs

abbrev db_of : WaitSyncMeta → MetaDb
db_of w = record {
  wait_sync_meta = w ∷ [];
  full_sync_meta = two_chunks;
  incr_sync_meta = [];
  chunk_error_detail = [];
}

abbrev run_hr : List Text → MetaDb → FullResult
run_hr =
    full equal_fold hr [] [] 7 [] columns_of copy_b one_by_one id_column nine_rows two_ranges
      all_succeed minus yes

refused-IsUntouched_example :
    IsUntouched
      (db_of (emp_row failed (pos 2) (pos 1) (pos 1)))
      []
      (run_hr (codes "EMP" ∷ []) (db_of (emp_row failed (pos 2) (pos 1) (pos 1))))
unfolding full full_after prepare resume_task clear_success equal_fold text_eq to_upper
    counts_err_wait_sync_meta_by_schema detail_wait_sync_meta_success_tables
    filter_difference_string_items
refused-IsUntouched_example =
    refused-IsUntouched equal_fold hr [] [] 7 [] columns_of copy_b one_by_one id_column nine_rows
      two_ranges all_succeed minus yes (codes "EMP" ∷ [])
      (db_of (emp_row failed (pos 2) (pos 1) (pos 1))) refl refl

started_tables_skipped_example :
    run_hr (codes "EMP" ∷ []) (db_of (emp_row waiting (pos 2) (pos 0) (pos 0)))
    ≡ record { db = db_of (emp_row waiting (pos 2) (pos 0) (pos 0)); truncated = []; error = none }
unfolding detail_wait_sync_meta equal_fold text_eq to_upper
started_tables_skipped_example =
    started_tables_skipped equal_fold (λ a b. refl) hr [] [] 7 [] columns_of copy_b one_by_one
      id_column nine_rows two_ranges all_succeed minus yes (codes "EMP" ∷ [])
      (db_of (emp_row waiting (pos 2) (pos 0) (pos 0))) refl (λ xs. refl) (refl, tt)
      ((refl, (2, refl)), tt)

-- the chunks of a table that is started, and the number in its row
started_emp :
    let done =
      init_table equal_fold hr [] [] 7 [] id_column nine_rows two_ranges all_succeed
        (codes "EMP")
        (record (db_of (emp_row waiting (negsuc 0) (pos 0) (pos 0))) { full_sync_meta = [] }) in
    (length done.db.full_sync_meta ≡ 2) × (done.error ≡ none)
unfolding init_table init_known adjust_table_select_column column_names select_column one_of_types
    create_table create_chunks create_many batch_create_full_sync_meta text_eq to_upper
started_emp = (refl, refl)
