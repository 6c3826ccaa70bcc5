-- ===== src/Tests/Comparing.antt =====
-- Tests of the comparison of a table of employees, and its theorems there.
use transferdb.Prelude.{
  String, true, false, not, filter, Bool-cases, List, [], ◌∷◌, some, Result, ok, err, ◌≡◌, inl, inr,
  refl, ℤ, pos, All, ◌∙◌, sym, if◌then◌else◌,
}
use mathlib.Core.List.{Memᴰ}
use mathlib.Core.Bool.{false≢true}
use transferdb.Text.{
  Text, codes, text_eq, to_upper, equal_fold, split_loop, has_prefix, split as split_text,
}
use transferdb.Common.Sets.{is_contain_string}
use transferdb.Meta.{WaitSyncMeta, no_wait_sync_meta, waiting, running, success, failed}
use transferdb.Meta.Compare.{DataCompareMeta, CompareDb, no_data_compare_meta}
use transferdb.Migrate.Full.Columns.{RowColumn}
use transferdb.Migrate.Full.Table.{HasStatus}
use transferdb.Compare.Report.{ReportError}
use transferdb.Compare.Chunk.{Config, Chunk, Databases, split}
use transferdb.Compare.Column.{
  IndexRow, filter_db_where_column, integer_columns, index_columns, is_leading,
}
use transferdb.Compare.Column.Leading.{number_columns, key_columns, unique_columns, IsLeading}
use transferdb.Compare.Column.Found.{answering, where_column_found}
use transferdb.Compare.Start.{StartError, duplicate_row, start}
use transferdb.Compare.Start.Resumed.{unfinished_refused}
use transferdb.Compare.Start.Again.{second_start_refused}
use transferdb.Compare.Table.{compare_table}
use transferdb.Compare.Table.Run.{is_compare_chunk}
use transferdb.Compare.Table.Settled.{table_compared}

abbrev pub hr : Config
hr = record {
  db_type_s = codes "ORACLE";
  db_type_t = codes "MYSQL";
  source_schema = codes "hr";
  target_schema = codes "hr";
  task_mode = codes "COMPARE";
  only_check_rows = false;
  enable_checkpoint = true;
  insert_batch_size = 2;
  compare_config = [];
}

-- without checkpoints
abbrev anew : Config
anew = record hr { enable_checkpoint = false }

abbrev pub chunk : String → Text → DataCompareMeta
chunk range status = record no_data_compare_meta {
  db_type_s = codes "ORACLE";
  db_type_t = codes "MYSQL";
  schema_name_s = codes "HR";
  table_name_s = codes "EMP";
  where_column = codes "ID";
  where_range = codes range;
  task_mode = codes "COMPARE";
  task_status = status;
}

abbrev emp_row : Text → ℤ → ℤ → ℤ → WaitSyncMeta
emp_row status total good bad = record no_wait_sync_meta {
  db_type_s = codes "ORACLE";
  db_type_t = codes "MYSQL";
  schema_name_s = codes "HR";
  table_name_s = codes "EMP";
  task_mode = codes "COMPARE";
  task_status = status;
  global_scn_s = 7;
  chunk_total_nums = total;
  chunk_success_nums = good;
  chunk_failed_nums = bad;
}

abbrev two_chunks : List DataCompareMeta
two_chunks = chunk "ID < 5" waiting ∷ chunk "ID > 5" failed ∷ []

abbrev emp_db : CompareDb
emp_db = record {
  wait_sync_meta = emp_row running (pos 2) (pos 0) (pos 0) ∷ [];
  data_compare_meta = two_chunks;
}

abbrev no_rows : CompareDb
no_rows = record { wait_sync_meta = []; data_compare_meta = [] }

-- the rows below 5 differ
abbrev low_differs : DataCompareMeta → Result ReportError Text
low_differs m = if text_eq m.where_range (codes "ID < 5") then ok (codes "DELETE") else ok []

two_chunks-HasStatus : (r : DataCompareMeta) → Memᴰ r two_chunks → HasStatus r.task_status
two_chunks-HasStatus r (Memᴰ.head e) = rw e (inl refl)
two_chunks-HasStatus r (Memᴰ.tail (Memᴰ.head e)) = rw e (inr (inr refl))
two_chunks-HasStatus r (Memᴰ.tail (Memᴰ.tail m)) = elim m [ ]

two_chunks_unique :
    (c r : DataCompareMeta)
    → Memᴰ c two_chunks
    → Memᴰ r two_chunks
    → is_compare_chunk equal_fold c r ≡ true
    → c ≡ r
unfolding equal_fold text_eq to_upper
two_chunks_unique c r (Memᴰ.head e) (Memᴰ.head e') h = e ∙ sym e'
two_chunks_unique c r (Memᴰ.tail (Memᴰ.head e)) (Memᴰ.tail (Memᴰ.head e')) h = e ∙ sym e'
two_chunks_unique c r (Memᴰ.head e) (Memᴰ.tail (Memᴰ.head e')) h =
    absurd (false≢true (rw (e, e') at h))
two_chunks_unique c r (Memᴰ.tail (Memᴰ.head e)) (Memᴰ.head e') h =
    absurd (false≢true (rw (e, e') at h))
two_chunks_unique c r (Memᴰ.tail (Memᴰ.tail m)) k h = elim m [ ]
two_chunks_unique c r (Memᴰ.head e) (Memᴰ.tail (Memᴰ.tail m)) h = elim m [ ]
two_chunks_unique c r (Memᴰ.tail (Memᴰ.head e)) (Memᴰ.tail (Memᴰ.tail m)) h = elim m [ ]

table_compared_example :
    let result = compare_table equal_fold hr low_differs (codes "emp") emp_db in
    (result.wait_sync_meta ≡ emp_row failed (pos 2) (pos 1) (pos 1) ∷ [])
    × (result.data_compare_meta ≡ chunk "ID < 5" failed ∷ chunk "ID > 5" success ∷ [])
unfolding equal_fold text_eq to_upper
table_compared_example =
    table_compared equal_fold (λ a b. refl) hr low_differs (codes "emp") emp_db (tt, tt, tt, tt) tt
      two_chunks_unique two_chunks-HasStatus

abbrev pub emp_chunk : Chunk
emp_chunk = record {
  chunk_id = 0;
  source_global_scn = 7;
  source_table = codes "EMP";
  target_table = codes "EMP";
  is_partition = codes "NO";
  source_column_info = codes "ID";
  target_column_info = codes "ID";
  where_column = codes "ID";
}

abbrev oracle : Databases
oracle = record {
  is_number_column_type = λ _ _. some true;
  table_rows_by_statistics = λ _. some (pos 9);
  start_chunk_create_task = λ _. true;
  create_chunk_by_number = λ _ _ _. true;
  table_chunks_by_number = λ _ _. some (codes "ID BETWEEN 1 AND 9" ∷ []);
  chunk_bounds = λ _. some ((codes "1", codes "9") ∷ []);
  close_chunk_task = λ _. true;
  creates_one = λ _ _. true;
  inserts = λ _ _. true;
  updates_wait = λ _ _. true;
}

abbrev emp_columns : List RowColumn
emp_columns =
    record { column_name = codes "NAME"; data_type = codes "VARCHAR2"; data_scale = [] }
    ∷ record { column_name = codes "ID"; data_type = codes "NUMBER"; data_scale = codes "0" }
    ∷ record { column_name = codes "DEPT"; data_type = codes "NUMBER"; data_scale = codes "0" }
    ∷ []

-- of the columns that are asked for, the department alone
abbrev ordered : List Text → List Text
ordered cs = if is_contain_string cs (codes "DEPT") then codes "DEPT" ∷ [] else []

ordered_only : (cs : List Text) → All (λ c. is_contain_string cs c ≡ true) (ordered cs)
ordered_only cs = elim (Bool-cases (is_contain_string cs (codes "DEPT"))) [
  | inl e ↦ rw e (e, tt)
  | inr e ↦ rw e tt
]

abbrev dept_index : List IndexRow
dept_index =
    record {
      uniqueness = codes "NONUNIQUE";
      index_type = codes "NORMAL";
      column_list = codes "dept,name";
    }
    ∷ []

where_column_found_example :
    let o = answering emp_columns (codes "ID,NAME" ∷ []) [] dept_index [] ordered in
    (c : Text) × (filter_db_where_column o ≡ ok c) × IsLeading (number_columns o) (key_columns o) c
unfolding number_columns key_columns unique_columns integer_columns index_columns is_leading
    equal_fold to_upper text_eq split_text split_loop has_prefix is_contain_string
where_column_found_example =
    where_column_found emp_columns (codes "ID,NAME" ∷ []) [] dept_index [] ordered refl refl refl
      ordered_only

abbrev minus : List Text → List Text → List Text
minus xs ys = filter (λ x. not (is_contain_string ys x)) xs

-- the chunks of the table are all there
unfinished_refused_example :
    (e : StartError) × ((start equal_fold hr minus (codes "EMP" ∷ []) emp_db).tasks ≡ err e)
unfolding equal_fold text_eq to_upper
unfinished_refused_example =
    unfinished_refused equal_fold (λ a b. refl) hr minus (codes "EMP") [] emp_db refl (tt, (tt, tt))
      refl

second_start_refused_example :
    let first = start equal_fold anew minus (codes "EMP" ∷ []) no_rows in
    (start equal_fold anew minus
      (codes "EMP" ∷ [])
      (record emp_db { wait_sync_meta = first.rows })).tasks
    ≡ err (duplicate_row (codes "EMP"))
unfolding to_upper
second_start_refused_example =
    second_start_refused equal_fold (λ a b. refl) anew tt tt tt tt minus (codes "EMP") [] [] no_rows
      (record emp_db {
        wait_sync_meta = (start equal_fold anew minus (codes "EMP" ∷ []) no_rows).rows;
      })
      refl tt (λ e. e)
