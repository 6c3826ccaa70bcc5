-- ===== src/Tests/Syncing.antt =====
-- Tests of the filter of redo records, and its theorems at a table of employees.
use transferdb.Prelude.{
  ℕ, String, ◌<◌, true, List, [], ◌∷◌, filter, none, some, All, ok, ◌≡◌, refl, arith,
}
use transferdb.Text.{Text, codes, text_eq, to_upper, join, split, replace_all, strings_builder}
use transferdb.Dict.{Dict, get}
use transferdb.Migrate.Logminer.{
  Logminer, set_redo, ddl_words, send_ddl, send, filter_oracle_incr_record,
}
use transferdb.Migrate.Logminer.Collect.{is_of, is_listed}
use transferdb.Migrate.Logminer.Checkpoint.{IsDml, is_fresh, first_run}

abbrev record_of : ℕ → String → String → String → Logminer
record_of n table redo op = record {
  scn = n;
  source_schema = codes "HR";
  source_table = codes table;
  target_schema = codes "hr";
  target_table = codes table;
  sql_redo = codes redo;
  sql_undo = [];
  operation = codes op;
}

abbrev redo_rows : List Logminer
redo_rows = record_of 5 "EMP" "insert 1" "INSERT" ∷ record_of 9 "EMP" "insert 2" "INSERT" ∷ []

abbrev checkpoints : Dict ℕ
checkpoints = (codes "EMP", 7) ∷ []

abbrev in_order : List Logminer → List Logminer
in_order rs = rs

test_drop :
    send (record_of 9 "EMP" "drop table emp AS x" "DDL")
    ≡ ok (record_of 9 "EMP" "DROP TABLE EMP " "DDL" ∷ [])
unfolding send send_ddl set_redo ddl_words
test_drop =
    unfold text_eq to_upper split transferdb.Text.split_loop transferdb.Text.has_prefix
      strings_builder in
    refl

redo_rows-IsDml : All IsDml redo_rows
unfolding text_eq
redo_rows-IsDml = (refl, (refl, tt))

emp_listed : is_listed (codes "EMP") (codes "emp" ∷ []) ≡ true
unfolding to_upper text_eq
emp_listed = refl

first_run_example :
    (m : Dict (List Logminer)) × (filter_oracle_incr_record in_order redo_rows
        (codes "emp" ∷ [])
        checkpoints
        0
      ≡ ok m)
    × (get (codes "EMP") m
        ≡ some (filter (is_of (codes "EMP")) (in_order (filter (is_fresh checkpoints) redo_rows))))
first_run_example =
    first_run in_order checkpoints (codes "emp" ∷ []) redo_rows (codes "EMP") redo_rows-IsDml
      emp_listed

no_text_checkpoints : All (λ r. get (to_upper r.sql_redo) checkpoints ≡ none) redo_rows
unfolding get to_upper text_eq
no_text_checkpoints = (refl, (refl, tt))

positive : All (λ r. 0 < r.scn) redo_rows
positive = (omega arith, (omega arith, tt))
