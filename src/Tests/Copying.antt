-- ===== src/Tests/Copying.antt =====
-- Tests of the full copy, and its theorems at a table of two columns.
use transferdb.Prelude.{
  ℕ, String, Bool, true, false, List, [], ◌∷◌, map, Option, none, some, All, ◌≡◌, refl, arith,
}
use transferdb.Text.{Text, codes, text_eq, join, strings_builder}
use transferdb.Dict.{Dict}
use transferdb.Dict.Fill.{AreDistinct}
use transferdb.Common.Charset.{charset_convert}
use transferdb.Common.Escape.{special_letters_using_my_sql, escape_rune, is_special}
use transferdb.Migrate.Statement.{gen_my_sql_insert_sql_stmt_prefix, in_brackets}
use transferdb.Migrate.Rows.{ColumnType, value_text, rows_map, process_data}
use transferdb.Migrate.Rows.Batches.{rows_of, IsBatch, AreRead, read}
use transferdb.Migrate.Rows.Fill.{quoted, AreTexts}
use transferdb.Migrate.Rows.Copy.{insert_rows, AreTables, copied_rows}

-- numbers are printed as they are read, and a character set changes no text
abbrev same_number : Text → Text → Option Text
same_number _ raw = some raw

abbrev same_text : Text → Text → Option Text
same_text _ raw = some raw

abbrev ascii_only : ℕ → Bool
ascii_only _ = false

abbrev cols : List ColumnType
cols =
    record { name = codes "ID"; scan_type = codes "int64" }
    ∷ record { name = codes "NAME"; scan_type = codes "string" }
    ∷ []

abbrev rows : List (List (Option Text))
rows =
    (some (codes "7") ∷ some (codes "Ann") ∷ [])
    ∷ (some (codes "8") ∷ none ∷ [])
    ∷ (some (codes "9") ∷ some (codes "Bob") ∷ [])
    ∷ []

abbrev texts : List (List Text)
texts =
    (codes "7" ∷ codes "'Ann'" ∷ [])
    ∷ (codes "8" ∷ codes "NULL" ∷ [])
    ∷ (codes "9" ∷ codes "'Bob'" ∷ [])
    ∷ []

test_statement :
    insert_rows
      (gen_my_sql_insert_sql_stmt_prefix (codes "HR") (codes "EMP") (map quoted cols) false)
      texts
    ≡ codes "INSERT INTO HR.EMP (`ID`,`NAME`) VALUES (7,'Ann'),(8,NULL),(9,'Bob')"
unfolding gen_my_sql_insert_sql_stmt_prefix in_brackets
test_statement = unfold join strings_builder in refl

names_distinct : AreDistinct (map quoted cols)
unfolding text_eq strings_builder
names_distinct = ((refl, tt), (tt, tt))

read_texts :
    AreTables same_number same_text same_text
      (codes "GBK")
      (codes "UTF8MB4")
      ascii_only
      cols
      rows
      texts
unfolding value_text charset_convert special_letters_using_my_sql escape_rune is_special
    strings_builder text_eq
read_texts = ((refl, (refl, tt)), ((refl, (refl, tt)), ((refl, (refl, tt)), tt)))

copied_rows_example :
    (batches : List (List (List Text))) × (rows_of batches ≡ texts)
    × All (IsBatch 2) batches
    × ((read same_number same_text same_text
          (codes "GBK")
          (codes "UTF8MB4")
          ascii_only
          cols
          2
          rows
          []).error
        ≡ none)
    × (process_data
          (codes "HR")
          (codes "EMP")
          (map quoted cols)
          true
          (read same_number same_text same_text
            (codes "GBK")
            (codes "UTF8MB4")
            ascii_only
            cols
            2
            rows
            []).sent
        ≡ record {
          sent =
              map
                (insert_rows (
                  gen_my_sql_insert_sql_stmt_prefix
                    (codes "HR")
                    (codes "EMP")
                    (map quoted cols)
                    true))
                batches;
          error = none;
        })
copied_rows_example =
    copied_rows same_number same_text same_text (codes "GBK") (codes "UTF8MB4") ascii_only cols
      (codes "HR") (codes "EMP") true 2 rows texts (omega arith) names_distinct read_texts

abbrev one_column : List ColumnType
one_column = record { name = codes "ID"; scan_type = codes "int64" } ∷ []

abbrev ids : List (List (Option Text))
ids = (some (codes "7") ∷ []) ∷ (some (codes "8") ∷ []) ∷ (some (codes "9") ∷ []) ∷ []

abbrev id_map : String → Dict Text
id_map v = (codes "`ID`", codes v) ∷ []

read_ids :
    AreRead same_number same_text same_text
      (codes "GBK")
      (codes "UTF8MB4")
      ascii_only
      one_column
      ids
      (id_map "7" ∷ id_map "8" ∷ id_map "9" ∷ [])
unfolding rows_map value_text charset_convert strings_builder
read_ids = unfold text_eq transferdb.Dict.set in (refl, (refl, (refl, tt)))

row_texts :
    AreTexts same_number same_text same_text
      (codes "GBK")
      (codes "UTF8MB4")
      ascii_only
      one_column
      (some (codes "7") ∷ [])
      (codes "7" ∷ [])
unfolding value_text charset_convert
row_texts = unfold text_eq in (refl, tt)
