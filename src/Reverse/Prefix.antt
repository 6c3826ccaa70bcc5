-- ===== src/Reverse/Prefix.antt =====
-- module/reverse/oracle/o2m/rule.go, `GenSchemaName`, `GenTableName` and `GenTableSuffix`, and the first
-- words of the statement in `GenCreateTableDDL`; the maps of character sets and collations are those of
-- common/reverse.go.
pub mod Inherited
use transferdb.Prelude.{
  String, Bool, true, false, ◌&&◌, not, List, [], ◌∷◌, if◌then◌else◌, Option, none, some, Result,
  ok, err, ◌>>=◌,
}
use transferdb.Text.{Text, codes, text_eq, to_lower, to_upper, equal_fold, strings_builder}
use transferdb.Dict.{Dict, get}

-- The three tests on `LowerCaseFieldName`, of which the last one repeats the second.
unfoldable pub cased : Text → Text → Text
unfolding equal_fold
cased mode t =
    let lower = if equal_fold mode (codes "1") then to_lower t else [] in
    let upper = if equal_fold mode (codes "2") then to_upper t else lower in
    if equal_fold mode (codes "2") then t else upper

abbrev pub or_source : Text → Text → Text
or_source target source = if text_eq target [] then source else target

unfoldable pub gen_schema_name : Text → Text → Text → Text
unfolding cased
gen_schema_name mode source target = or_source (cased mode target) (cased mode source)

unfoldable pub gen_table_name : Text → Text → Text → Text
unfolding cased
gen_table_name mode source target = or_source (cased mode target) (cased mode source)

-- `tablePrefix`
unfoldable pub table_prefix : Text → Text → Text
table_prefix schema table =
    strings_builder (codes "CREATE TABLE `" ∷ schema ∷ codes "`.`" ∷ table ∷ codes "`" ∷ [])

abbrev entry : String → String → Text × Text
entry k v = (codes k, codes v)

unfoldable pub migrate_table_structure_database_charset_map : Dict Text
migrate_table_structure_database_charset_map =
    entry "AL32UTF8" "UTF8MB4"
    ∷ entry "ZHT16BIG5" "BIG5"
    ∷ entry "ZHS16GBK" "GBK"
    ∷ entry "ZHS32GB18030" "GB18030"
    ∷ []

abbrev binary_collations : Dict Text
binary_collations =
    entry "UTF8MB4" "UTF8MB4_BIN"
    ∷ entry "UTF8" "UTF8_BIN"
    ∷ entry "BIG5" "BIG5_BIN"
    ∷ entry "GBK" "GBK_BIN"
    ∷ entry "GB18030" "GB18030_BIN"
    ∷ []

unfoldable pub migrate_table_structure_database_collation_map : Dict (Dict Text)
migrate_table_structure_database_collation_map =
    (
      codes "BINARY_CI",
      entry "UTF8MB4" "UTF8MB4_0900_AS_CI"
          ∷ entry "UTF8" "UTF8_0900_AS_CI"
          ∷ entry "BIG5" "BIG5_CHINESE_CI"
          ∷ entry "GBK" "GBK_CHINESE_CI"
          ∷ entry "GB18030" "GB18030_CHINESE_CI"
          ∷ [],
    )
    ∷ (
      codes "BINARY_AI",
      entry "UTF8MB4" "UTF8MB4_GENERAL_CI"
          ∷ entry "UTF8" "UTF8_GENERAL_CI"
          ∷ entry "BIG5" "BIG5_CHINESE_CI"
          ∷ entry "GBK" "GBK_CHINESE_CI"
          ∷ entry "GB18030" "GB18030_CHINESE_CI"
          ∷ [],
    )
    ∷ (codes "BINARY_CS", binary_collations)
    ∷ (codes "BINARY", binary_collations)
    ∷ []

-- what `GenTableSuffix` reads of a rule
pub record Collations : Type 0 where
  pub oracle_collation : Bool
  pub source_db_charset : Text
  pub source_table_name : Text
  pub source_table_collation : Text
  pub source_schema_collation : Text
  pub source_db_nls_comp : Text
  pub source_db_nls_sort : Text

-- The errors, with the collations that they name. That of no collation at all has the words of that of
-- a schema.
pub data SuffixError : Type 0 where
  table_collation_unsupported : Text → SuffixError
  schema_collation_unsupported : Text → Text → SuffixError
  db_collation_unsupported : Text → Text → SuffixError

-- a missing key gives the empty text
abbrev pub table_charset : Collations → Text
table_charset r = or_empty (get r.source_db_charset migrate_table_structure_database_charset_map)
  where
    or_empty : Option Text → Text
    or_empty none = []
    or_empty (some t) = t

unfoldable pub collation_of : SuffixError → Text → Text → Result SuffixError Text
collation_of error collation charset =
    found (get collation migrate_table_structure_database_collation_map)
  where
    known : Option Text → Result SuffixError Text
    known none = err error
    known (some t) = ok t

    found : Option (Dict Text) → Result SuffixError Text
    found none = err error
    found (some m) = known (get charset m)

abbrev pub own_collation : Collations → Result SuffixError Text
own_collation r =
    if text_eq r.source_table_collation []
    then ok []
    else collation_of (table_collation_unsupported r.source_table_collation)
        r.source_table_collation (table_charset r)

abbrev pub schema_collation : Collations → Text → Result SuffixError Text
schema_collation r own =
    if text_eq r.source_table_collation [] && not (text_eq r.source_schema_collation [])
    then collation_of
        (schema_collation_unsupported r.source_schema_collation r.source_table_collation)
        r.source_schema_collation (table_charset r)
    else ok own

-- The last test reads the name of the table, not its collation.
abbrev pub with_names : Collations → Text → Result SuffixError Text
with_names r collation =
    if text_eq r.source_table_name [] && text_eq r.source_schema_collation []
    then err (schema_collation_unsupported r.source_schema_collation r.source_table_collation)
    else ok collation

-- `tableCollation`
unfoldable pub table_collation : Collations → Result SuffixError Text
unfolding collation_of
table_collation r =
    if r.oracle_collation
    then own_collation r >>= schema_collation r >>= with_names r
    else collation_of (db_collation_unsupported r.source_db_nls_comp r.source_db_nls_sort)
        r.source_db_nls_comp (table_charset r)

unfoldable pub gen_table_suffix : Collations → Result SuffixError Text
unfolding table_collation
gen_table_suffix r = do
  collation ← table_collation r
  ok (
      strings_builder (
        codes "ENGINE=InnoDB DEFAULT CHARSET="
        ∷ table_charset r
        ∷ codes " COLLATE="
        ∷ collation
        ∷ []))
