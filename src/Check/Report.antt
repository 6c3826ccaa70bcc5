-- ===== src/Check/Report.antt =====
-- module/check/oracle/o2m/diff.go: the checks and their reports. Parameter: `render`, the table that package
-- go-pretty draws of its rows.
use transferdb.Prelude.{Bool, ◌&&◌, not, List, [], ◌∷◌, ◌++◌, map, if◌then◌else◌, Result, ok, ◌>>=◌}
use transferdb.Text.{Text, codes, equal_fold, to_upper, split, strings_builder}
use transferdb.Reverse.Prefix.{
  migrate_table_structure_database_charset_map, migrate_table_structure_database_collation_map,
}
use transferdb.Common.Diff.{diff_struct_array}
use transferdb.Common.Version.{version_ordinal, text_ltb}
use transferdb.Check.Struct.{
  CheckError, Diff, Partition, Table, check_eq, foreign_eq, index_eq, partition_eq, pu_eq,
}
use transferdb.Check.Statement.{
  all_statements, check_statement, foreign_statement, index_statements, my_sql_charset,
  my_sql_collation, one_statement, pu_statement, target,
}

module _ (render : List (List Text) → Text) where
  -- a comment with a table, in front of statements
  abbrev pub comment : Text → List (List Text) → Text
  comment head rows = strings_builder (codes "/*\n" ∷ head ∷ render rows ∷ codes "\n*/\n" ∷ [])

  -- nothing for no statement
  abbrev pub reported : Diff → Text → Text → Text → List Text → Text
  reported c head what suggest [] = []
  reported c head what suggest (s ∷ ss) =
      comment head (
        (codes "TABLE" ∷ what ∷ codes "SUGGEST" ∷ [])
        ∷ (c.oracle_table_info.table_name ∷ codes "Oracle And Mysql Different" ∷ suggest ∷ [])
        ∷ [])
      ++ strings_builder (s ∷ ss)

  unfoldable pub check_partition_table_type : Diff → Text
  check_partition_table_type c =
      let bool_text = λ (b : Bool). if b then codes "true" else codes "false" in
      if (if c.oracle_table_info.is_partition
        then c.my_sql_table_info.is_partition
        else not c.my_sql_table_info.is_partition)
      then []
      else comment (codes " oracle table type is different from mysql table type\n") (
          (codes "TABLE"
            ∷ codes "PARTITION"
            ∷ codes "ORACLE"
            ∷ codes "MYSQL"
            ∷ codes "SUGGEST"
            ∷ [])
          ∷ (c.oracle_table_info.table_name
              ∷ codes "PARTITION"
              ∷ bool_text c.oracle_table_info.is_partition
              ∷ bool_text c.my_sql_table_info.is_partition
              ∷ codes "Manual Create Partition Table"
              ∷ [])
          ∷ [])

  unfoldable pub check_table_comment : Diff → Text
  unfolding equal_fold
  check_table_comment c =
      if equal_fold c.oracle_table_info.table_comment c.my_sql_table_info.table_comment
      then []
      else comment (codes " oracle and mysql table comment\n") (
          (codes "TABLE" ∷ codes "COMMENT" ∷ codes "ORACLE" ∷ codes "MYSQL" ∷ codes "SUGGEST" ∷ [])
          ∷ (c.oracle_table_info.table_name
              ∷ codes "COMMENT"
              ∷ c.oracle_table_info.table_comment
              ∷ c.my_sql_table_info.table_comment
              ∷ codes "Create Table Comment"
              ∷ [])
          ∷ [])
        ++ strings_builder (
            codes "ALTER TABLE "
            ∷ target c
            ∷ codes " COMMENT '"
            ∷ c.oracle_table_info.table_comment
            ∷ codes "';\n"
            ∷ [])

  unfoldable pub check_primary_and_unique_key : Diff → Result CheckError Text
  unfolding diff_struct_array pu_eq pu_statement all_statements
  check_primary_and_unique_key c = do
    ss ←
        all_statements (λ k. one_statement (pu_statement c k))
          (diff_struct_array pu_eq c.oracle_table_info.pu_constraints
            c.my_sql_table_info.pu_constraints).add_diffs
    ok (
        reported c (codes " oracle and mysql table primary key and unique key\n")
          (codes "PK AND UK") (codes "Create Table Primary And Unique Key") ss)

  unfoldable pub check_foreign_key : Diff → Text
  unfolding diff_struct_array foreign_eq foreign_statement
  check_foreign_key c =
      reported c (codes " oracle and mysql table foreign key\n") (codes "FOREIGN KEY")
        (codes "Create Table Foreign Key")
        (map (foreign_statement c)
          (diff_struct_array foreign_eq c.oracle_table_info.foreign_constraints
            c.my_sql_table_info.foreign_constraints).add_diffs)

  abbrev pub head_of : List Text → Text
  head_of [] = []
  head_of (x ∷ _) = x

  -- the version without what is behind a dash; the first part is the text without one
  abbrev pub db_version : Diff → Text
  db_version c = head_of (split c.my_sql_db_version (codes "-"))

  unfoldable pub check_check_key : Diff → Text
  unfolding diff_struct_array check_eq check_statement version_ordinal text_ltb
  check_check_key c =
      if text_ltb (version_ordinal (codes "8.0.15")) (version_ordinal (db_version c))
      then reported c (codes " oracle and mysql table check key\n") (codes "CHECK KEY")
          (codes "Create Table Check Key")
          (map (check_statement c)
            (diff_struct_array check_eq c.oracle_table_info.check_constraints
              c.my_sql_table_info.check_constraints).add_diffs)
      else []

  unfoldable pub check_index : Diff → Result CheckError Text
  unfolding diff_struct_array index_eq index_statements all_statements
  check_index c = do
    ss ←
        all_statements (index_statements c)
          (diff_struct_array index_eq c.oracle_table_info.indexes
            c.my_sql_table_info.indexes).add_diffs
    ok (
        reported c (codes " oracle and mysql table indexes\n") (codes "INDEXES")
          (codes "Create Table Index") ss)

  abbrev pub charset_and_collation : Table → Text
  charset_and_collation t = strings_builder (
      codes "charset ["
      ∷ t.table_character_set
      ∷ codes "] collation ["
      ∷ t.table_collation
      ∷ codes "]"
      ∷ [])

  unfoldable pub check_table_character_set_and_collation : Diff → Text
  unfolding equal_fold to_upper migrate_table_structure_database_charset_map
      migrate_table_structure_database_collation_map
  check_table_character_set_and_collation c =
      let charset = my_sql_charset c.oracle_table_info.table_character_set in
      let collation = my_sql_collation c.oracle_table_info.table_collation (to_upper charset) in
      if equal_fold c.my_sql_table_info.table_character_set charset
        && equal_fold c.my_sql_table_info.table_collation collation
      then []
      else comment (codes " oracle and mysql table character set and collation\n") (
          (codes "TABLE"
            ∷ codes "CHARSET AND COLLATION"
            ∷ codes "ORACLE"
            ∷ codes "MYSQL"
            ∷ codes "SUGGEST"
            ∷ [])
          ∷ (c.oracle_table_info.table_name
              ∷ codes "CHARSET AND COLLATION"
              ∷ charset_and_collation c.oracle_table_info
              ∷ charset_and_collation c.my_sql_table_info
              ∷ codes "Create Table Character Collation"
              ∷ [])
          ∷ [])
        ++ strings_builder (
            codes "ALTER TABLE "
            ∷ target c
            ∷ codes " CHARACTER SET "
            ∷ charset
            ∷ codes " COLLATE "
            ∷ collation
            ∷ codes ";\n\n"
            ∷ [])

  -- no text for no partition
  abbrev pub partition_text : Diff → (Partition → Text) → List Partition → Text
  partition_text c json [] = []
  partition_text c json (p ∷ ps) =
      comment (codes " oracle and mysql table partitions\n") (
        (codes "TABLE" ∷ codes "PARTITIONS" ∷ codes "SUGGEST" ∷ [])
        ∷ (c.oracle_table_info.table_name
            ∷ codes "Oracle And Mysql Different"
            ∷ codes "Manual Create Partition Table"
            ∷ [])
        ∷ [])
      ++ (codes
            "-- oracle partition info exist, mysql partition isn't exist, please manual modify\n"
          ++ strings_builder (
              map
                (λ q.
                  strings_builder (codes "# oracle partition info: " ∷ json q ∷ codes ", " ∷ []))
                (p ∷ ps)))

  -- `json` prints a partition
  unfoldable pub check_partition_table : (Partition → Text) → Diff → Text
  unfolding diff_struct_array partition_eq
  check_partition_table json c =
      if c.my_sql_table_info.is_partition && c.oracle_table_info.is_partition
      then partition_text c json
          (diff_struct_array partition_eq c.oracle_table_info.partitions
            c.my_sql_table_info.partitions).add_diffs
      else []
