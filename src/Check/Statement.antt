-- ===== src/Check/Statement.antt =====
-- module/check/oracle/o2m/diff.go: the statements for what a table of the target has not, and its character
-- set and collation.
use transferdb.Prelude.{
  ◌&&◌, List, [], ◌∷◌, ◌++◌, any, Option, none, some, if◌then◌else◌, Result, ok, err, panic, ◌>>=◌,
}
use transferdb.Text.{Text, codes, text_eq, strings_builder}
use transferdb.Dict.{Dict, get}
use transferdb.Reverse.Prefix.{
  migrate_table_structure_database_charset_map, migrate_table_structure_database_collation_map,
}
use transferdb.Common.Diff.{elements}
use transferdb.Check.Struct.{
  CheckError, ConstraintCheck, ConstraintForeign, ConstraintPuKey, Diff, Index, index_unsupported,
  info_eq, key_type_unsupported,
}

-- what a map has under a key, and its zero value under a missing one
abbrev pub or_zero : Option Text → Text
or_zero none = []
or_zero (some t) = t

abbrev pub inner : Option (Dict Text) → Dict Text
inner none = []
inner (some m) = m

abbrev pub my_sql_charset : Text → Text
my_sql_charset c = or_zero (get c migrate_table_structure_database_charset_map)

abbrev pub my_sql_collation : Text → Text → Text
my_sql_collation collation charset =
    or_zero (get charset (inner (get collation migrate_table_structure_database_collation_map)))

-- `schema.table` of the target
abbrev pub target : Diff → Text
target c = c.my_sql_table_info.schema_name ++ (codes "." ++ c.my_sql_table_info.table_name)

unfoldable pub pu_statement : Diff → ConstraintPuKey → Result CheckError Text
unfolding text_eq
pu_statement c k =
    if text_eq k.constraint_type (codes "PK")
    then ok (
        strings_builder (
          codes "ALTER TABLE "
          ∷ target c
          ∷ codes " ADD PRIMARY KEY("
          ∷ k.constraint_column
          ∷ codes ");\n"
          ∷ []))
    else if text_eq k.constraint_type (codes "UK")
    then ok (
        strings_builder (
          codes "ALTER TABLE "
          ∷ target c
          ∷ codes " ADD UNIQUE("
          ∷ k.constraint_column
          ∷ codes ");\n"
          ∷ []))
    else err (key_type_unsupported k.constraint_type)

-- The bracket behind the columns is the wide one of code point U+FF09.
unfoldable pub foreign_statement : Diff → ConstraintForeign → Text
foreign_statement c k = strings_builder (
    codes "ALTER TABLE "
    ∷ target c
    ∷ codes " ADD FOREIGN KEY("
    ∷ k.column_name
    ∷ codes ") REFERENCES "
    ∷ c.my_sql_table_info.schema_name
    ∷ codes "."
    ∷ k.referenced_table_name
    ∷ codes "("
    ∷ k.referenced_column_name
    ∷ (65289 ∷ [])
    ∷ codes "ON DELETE "
    ∷ k.delete_rule
    ∷ codes ";\n"
    ∷ [])

-- The name of the constraint is that of the table with an ending.
unfoldable pub check_statement : Diff → ConstraintCheck → Text
check_statement c k = strings_builder (
    codes "ALTER TABLE "
    ∷ target c
    ∷ codes " ADD CONSTRAINT "
    ∷ c.my_sql_table_info.table_name
    ∷ codes "_check_key CHECK("
    ∷ k.constraint_expression
    ∷ codes ");\n"
    ∷ [])

abbrev pub create_index : Diff → Text → Index → Text
create_index c create i = strings_builder (
    create
    ∷ i.index_name
    ∷ codes " ON "
    ∷ target c
    ∷ codes " ("
    ∷ i.index_column
    ∷ codes ");\n"
    ∷ [])

abbrev pub domain_index : Diff → Index → Text
domain_index c i = strings_builder (
    codes "CREATE INDEX "
    ∷ i.index_name
    ∷ codes " ON "
    ∷ target c
    ∷ codes " ("
    ∷ i.index_column
    ∷ codes ") INDEXTYPE IS "
    ∷ i.domain_index_owner
    ∷ codes "."
    ∷ i.domain_index_name
    ∷ codes " PARAMETERS ('"
    ∷ i.domain_parameters
    ∷ codes "');\n"
    ∷ [])

-- a statement, if the target has no index with the same columns that is as unique
unfoldable pub unless_equal : Diff → Index → Text → List Text
unfolding info_eq
unless_equal c i statement =
    if any (λ j. info_eq i j) (elements c.my_sql_table_info.indexes) then [] else statement ∷ []

unfoldable pub index_statements : Diff → Index → Result CheckError (List Text)
unfolding unless_equal text_eq
index_statements c i =
    let is_type = λ (u t : Text). text_eq i.uniqueness u && text_eq i.index_type t in
    if is_type (codes "UNIQUE") (codes "NORMAL")
    then ok (unless_equal c i (create_index c (codes "CREATE UNIQUE INDEX ") i))
    else if is_type (codes "UNIQUE") (codes "FUNCTION-BASED NORMAL")
    then ok (unless_equal c i (create_index c (codes "CREATE UNIQUE INDEX ") i))
    else if is_type (codes "NONUNIQUE") (codes "NORMAL")
    then ok (unless_equal c i (create_index c (codes "CREATE INDEX ") i))
    else if is_type (codes "NONUNIQUE") (codes "BITMAP")
    then ok (create_index c (codes "CREATE BITMAP INDEX ") i ∷ [])
    else if is_type (codes "NONUNIQUE") (codes "FUNCTION-BASED NORMAL")
    then ok (create_index c (codes "CREATE INDEX ") i ∷ [])
    else if is_type (codes "NONUNIQUE") (codes "FUNCTION-BASED BITMAP")
    then ok (create_index c (codes "CREATE BITMAP INDEX ") i ∷ [])
    else if is_type (codes "NONUNIQUE") (codes "DOMAIN")
    then ok (domain_index c i ∷ [])
    else err (index_unsupported i)

-- the statements of a list, one after the other, up to an error
unfoldable pub all_statements :
    {A : Type 0} → (A → Result CheckError (List Text)) → List A → Result CheckError (List Text)
all_statements f [] = ok []
all_statements f (x ∷ xs) = do s ← f x; rest ← all_statements f xs; ok (s ++ rest)

abbrev pub one_statement : Result CheckError Text → Result CheckError (List Text)
one_statement (ok s) = ok (s ∷ [])
one_statement (err e) = err e
one_statement panic = panic
