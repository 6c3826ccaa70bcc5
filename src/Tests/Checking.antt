-- ===== src/Tests/Checking.antt =====
-- Tests of the check of two tables of employees, and its theorems there.
use transferdb.Prelude.{arith, true, false, List, [], ◌∷◌, Option, none, some, ok, ◌≡◌, inr, refl}
use mathlib.Core.List.{Memᴰ}
use transferdb.Text.{Text, codes, text_eq, equal_fold, to_upper, strings_builder}
use transferdb.Common.Diff.{diff_struct_array}
use transferdb.Common.Version.{version_ordinal, ordinal_loop, add_digit, text_ltb}
use transferdb.Dict.{get}
use transferdb.Common.Version.Order.{IsNumber, numbers_ltb, value, version_ordinal_order}
use transferdb.Check.Struct.{ConstraintPuKey, Diff, Index, Table, info_eq, pu_eq}
use transferdb.Check.Statement.{all_statements, pu_statement}
use transferdb.Check.Report.{
  check_index, check_primary_and_unique_key, check_table_character_set_and_collation,
  check_table_comment,
}
use transferdb.Check.Indexes.{IsReported, check_index_found, function_index-IsReported}

test_version :
    text_ltb (version_ordinal (codes "8.0.15")) (version_ordinal (codes "8.0.020")) ≡ true
unfolding version_ordinal ordinal_loop add_digit text_ltb
test_version = refl

test_version_digits :
    text_ltb (version_ordinal (codes "11")) (version_ordinal (codes "9.2")) ≡ false
unfolding version_ordinal ordinal_loop add_digit text_ltb
test_version_digits = refl

eight-IsNumber : IsNumber (codes "8")
eight-IsNumber = ((refl, tt), refl, omega arith, omega arith)

fifteen-IsNumber : IsNumber (codes "15")
fifteen-IsNumber = ((refl, (refl, tt)), refl, omega arith, omega arith)

zero-IsNumber : IsNumber (codes "0")
zero-IsNumber = ((refl, tt), refl, omega arith, omega arith)

-- 8.0.8 is below 8.0.15
version_ordinal_order_example :
    text_ltb (version_ordinal (codes "8.0.8")) (version_ordinal (codes "8.0.15")) ≡ true
unfolding numbers_ltb value
version_ordinal_order_example =
    version_ordinal_order (codes "8") (codes "8") (codes "0" ∷ codes "8" ∷ [])
      (codes "0" ∷ codes "15" ∷ []) (eight-IsNumber, (zero-IsNumber, (eight-IsNumber, tt)))
      (eight-IsNumber, (zero-IsNumber, (fifteen-IsNumber, tt)))

abbrev key : ConstraintPuKey
key = record { constraint_type = codes "PK"; constraint_column = codes "ID" }

abbrev index : Text → Text → Text → Index
index unique column type = record {
  uniqueness = unique;
  index_column = column;
  index_name = codes "IDX";
  index_type = type;
  domain_index_owner = [];
  domain_index_name = [];
  domain_parameters = [];
}

abbrev emp : Option (List ConstraintPuKey) → List Index → Table
emp keys indexes = record {
  schema_name = codes "HR";
  table_name = codes "EMP";
  table_comment = codes "Employees";
  table_character_set = codes "AL32UTF8";
  table_collation = codes "BINARY";
  partitions = none;
  is_partition = false;
  indexes = some indexes;
  pu_constraints = keys;
  foreign_constraints = none;
  check_constraints = some (record { constraint_expression = codes "ID > 0" } ∷ []);
}

abbrev normal : List Index
normal = index (codes "NONUNIQUE") (codes "NAME") (codes "NORMAL") ∷ []

abbrev btree : List Index
btree = index (codes "NONUNIQUE") (codes "NAME") (codes "BTREE") ∷ []

abbrev on_expression : Index
on_expression = index (codes "NONUNIQUE") (codes "NAME") (codes "FUNCTION-BASED NORMAL")

abbrev two_tables : List Index → Diff
two_tables indexes = record {
  oracle_table_info = emp (some (key ∷ [])) indexes;
  my_sql_table_info = emp none btree;
  my_sql_db_version = codes "8.0.32-log";
}

abbrev drawn : List (List Text) → Text
drawn _ = codes "+"

test_key :
    check_primary_and_unique_key drawn (two_tables normal)
    ≡ ok (
        codes
          "/*\n oracle and mysql table primary key and unique key\n+\n*/\nALTER TABLE HR.EMP ADD PRIMARY KEY(ID);\n")
unfolding check_primary_and_unique_key diff_struct_array pu_eq pu_statement all_statements text_eq
    strings_builder
test_key = refl

test_comment : check_table_comment drawn (two_tables normal) ≡ []
unfolding check_table_comment equal_fold to_upper text_eq
test_comment = refl

test_collation :
    check_table_character_set_and_collation drawn (record (two_tables normal) {
      my_sql_table_info = record (emp none []) {
        table_character_set = codes "utf8mb4";
        table_collation = codes "utf8mb4_bin";
      };
    })
    ≡ []
unfolding check_table_character_set_and_collation equal_fold to_upper text_eq get
test_collation = refl

check_index_found_example : check_index drawn (two_tables normal) ≡ ok []
unfolding info_eq text_eq
check_index_found_example =
    check_index_found drawn (two_tables normal) ((inr (inr (refl, refl)), refl), tt)

function_index-IsReported_example : IsReported (check_index drawn (two_tables (on_expression ∷ [])))
unfolding text_eq
function_index-IsReported_example =
    function_index-IsReported drawn (two_tables (on_expression ∷ [])) on_expression (Memᴰ.head refl)
      refl refl (refl, tt)
