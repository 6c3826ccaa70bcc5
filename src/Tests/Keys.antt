-- ===== src/Tests/Keys.antt =====
-- Tests of the keys of a table and of batches, and their theorems there.
use transferdb.Prelude.{ℕ, some, Bool, List, [], ◌∷◌, ok, err, String, ◌≡◌, refl, arith}
use mathlib.Core.List.{filter_map}
use transferdb.Text.{
  Text, codes, text_eq, to_upper, equal_fold, contains, has_prefix, join, split, fields, trim_space,
  strings_builder,
}
use transferdb.Meta.Groups.{array_struct_groups_of, group_loop, quantity}
use transferdb.Reverse.Keys.{
  normal_type_unsupported, index_loop, ForeignKey, CheckKey, gen_table_unique_key, check_pieces,
  check_key, gen_table_check_key, joined_check, kept_pieces, without_first, without_last, last_is,
  rename_columns, field_case, quoted_columns,
}
use transferdb.Reverse.Keys.Unique.{UniqueIndex, unique_text, unique_statement}
use transferdb.Reverse.Keys.Normal.{
  NormalIndex, key_index, normal_statement, normal_index, gen_table_normal_index,
}
use transferdb.Reverse.Index.{gen_table_keys}
use transferdb.Reverse.Index.Lists.{gen_table_keys-lists}
use transferdb.Reverse.Keys.Check.{check_pieces-cut_in_front, cut_in_front}

abbrev joins : Text → Bool
joins s = contains s (codes " AND ")

abbrev not_null : Text → Bool
not_null s = contains s (codes "IS NOT NULL")

abbrev same_name : Text → Text → Text → Text
same_name _ _ cond = cond

abbrev dept_key : ForeignKey
dept_key = record {
  constraint_name = codes "FK_DEPT";
  column_list = codes "DEPT_ID";
  r_owner = codes "HR";
  rtable_name = codes "DEPT";
  rcolumn_list = codes "ID";
  delete_rule = codes "CASCADE";
}

check_pieces-cut_in_front_example :
    check_pieces (codes "A" ∷ codes "and" ∷ codes "B" ∷ [])
    ≡ (codes "A" ∷ []) ∷ (codes "and" ∷ codes "B" ∷ []) ∷ []
unfolding cut_in_front equal_fold text_eq to_upper
check_pieces-cut_in_front_example =
    check_pieces-cut_in_front (codes "A" ∷ codes "and" ∷ codes "B" ∷ [])

abbrev both_set : CheckKey
both_set = record {
  constraint_name = codes "CK";
  search_condition = codes "A IS NOT NULL AND B IS NOT NULL";
}

-- a condition that is kept
kept_condition :
    gen_table_check_key joins not_null same_name (codes "0") [] (
      record { constraint_name = codes "CK"; search_condition = codes "A IS NOT NULL AND B > 0" }
      ∷ [])
    ≡ ok (codes "CONSTRAINT `CK` CHECK (B > 0)" ∷ [])
unfolding gen_table_check_key check_key joined_check rename_columns contains has_prefix trim_space
    check_pieces fields join kept_pieces without_first without_last last_is equal_fold text_eq
    to_upper strings_builder
kept_condition = refl

unique_keys :
    gen_table_unique_key
      (codes "2")
      (record { constraint_name = codes "UK"; column_list = codes "a,b" } ∷ [])
    ≡ codes "UNIQUE KEY `UK` (`A`,`B`)" ∷ []
unfolding gen_table_unique_key field_case quoted_columns split join equal_fold text_eq to_upper
    strings_builder
unique_keys = refl

abbrev unique_rows : List UniqueIndex
unique_rows =
    record {
      table_name = codes "EMP";
      uniqueness = codes "UNIQUE";
      index_type = codes "NORMAL";
      index_name = codes "UX";
      column_list = codes "A";
    }
    ∷ []

abbrev row_of : String → String → NormalIndex
row_of type name = record {
  table_name = codes "EMP";
  uniqueness = codes "NONUNIQUE";
  index_type = codes type;
  index_name = codes name;
  column_list = codes "B,C";
  ityp_owner = [];
  ityp_name = [];
  parameters = [];
}

-- an index of the dictionary that is a key, and one that is left to a user
gen_table_keys-lists_example :
    gen_table_keys
      (codes "0")
      (codes "hr")
      (codes "emp")
      (codes "ID" ∷ [])
      []
      (row_of "BITMAP" "BX" ∷ row_of "NORMAL" "IX" ∷ [])
      unique_rows
    ≡ ok (record {
      indexes =
          codes "PRIMARY KEY (`ID`)"
          ∷ codes "UNIQUE INDEX `UX` (`A`)"
          ∷ codes "KEY `IX` (`B`,`C`)"
          ∷ [];
      compatible = codes "CREATE BITMAP INDEX BX ON hr.emp (B,C);" ∷ [];
    })
unfolding key_index normal_statement unique_text unique_statement field_case quoted_columns split
    join equal_fold text_eq to_upper strings_builder filter_map
gen_table_keys-lists_example =
    gen_table_keys-lists (codes "0") (codes "hr") (codes "emp") (codes "ID" ∷ []) []
      (row_of "BITMAP" "BX" ∷ row_of "NORMAL" "IX" ∷ []) unique_rows (omega arith)
      (refl, (refl, tt)) (refl, tt)

-- an index without a type that the code knows
unsupported_index :
    gen_table_normal_index (codes "0") (codes "hr") (codes "emp") (row_of "CLUSTER" "CX" ∷ [])
    ≡ err (normal_type_unsupported (codes "CX"))
unfolding gen_table_normal_index normal_index normal_statement index_loop equal_fold text_eq
    to_upper
unsupported_index = refl

-- the last batch is shorter
three_in_twos :
    array_struct_groups_of {A = ℕ} (1 ∷ 2 ∷ 3 ∷ []) 2 ≡ some ((1 ∷ 2 ∷ []) ∷ (3 ∷ []) ∷ [])
unfolding array_struct_groups_of group_loop quantity
three_in_twos = refl

-- four rows make two batches of two
four_in_twos :
    array_struct_groups_of {A = ℕ} (1 ∷ 2 ∷ 3 ∷ 4 ∷ []) 2 ≡ some ((1 ∷ 2 ∷ []) ∷ (3 ∷ 4 ∷ []) ∷ [])
unfolding array_struct_groups_of group_loop quantity
four_in_twos = refl
