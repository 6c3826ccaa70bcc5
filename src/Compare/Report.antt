-- ===== src/Compare/Report.antt =====
-- module/compare/oracle/o2m/report.go: the queries of a chunk and the report on their answers. A report
-- that is empty says that the rows are equal. Parameters: the answers of the two databases, `difference`,
-- the list of a difference of two sets of package scylladb/go-set, in any order, and `render`, the table
-- that package go-pretty draws of its rows of cells.
pub mod Deletes
pub mod Equal
use transferdb.Prelude.{
  ℕ, Bool, true, false, List, [], ◌∷◌, ◌++◌, map, length, ◌==◌, Option, none, some, if◌then◌else◌,
  Result, ok, err, panic, ◌>>=◌, ℤ, eqb_ℤ,
}
use transferdb.Text.{Text, codes, text_eq, split, join, itoa, itoa_ℕ, strings_builder}
use transferdb.Meta.Compare.{DataCompareMeta}
use transferdb.Compare.Rows.{DbSummary, RowError}

pub data ReportError : Type 0 where
  rows_unread : RowError → ReportError
  columns_mismatch : ℕ → ℕ → ReportError
  count_failed : Text → ReportError

abbrev pub summary_of : Result RowError DbSummary → Result ReportError DbSummary
summary_of (ok s) = ok s
summary_of (err e) = err (rows_unread e)
summary_of panic = panic

abbrev pub counted : Text → Option ℤ → Result ReportError ℤ
counted query none = err (count_failed query)
counted query (some n) = ok n

unfoldable pub select_query : Text → Text → Text → Text → Text → Text
select_query detail schema table range column =
    if text_eq column []
    then strings_builder (
        codes "SELECT "
        ∷ detail
        ∷ codes " FROM "
        ∷ schema
        ∷ codes "."
        ∷ table
        ∷ codes " WHERE "
        ∷ range
        ∷ [])
    else strings_builder (
        codes "SELECT "
        ∷ detail
        ∷ codes " FROM "
        ∷ schema
        ∷ codes "."
        ∷ table
        ∷ codes " WHERE "
        ∷ range
        ∷ codes " ORDER BY "
        ∷ column
        ∷ codes " DESC"
        ∷ [])

unfoldable pub gen_db_query : DataCompareMeta → Text × Text
unfolding select_query
gen_db_query m = (
  select_query m.column_detail_s m.schema_name_s m.table_name_s m.where_range m.where_column,
  select_query m.column_detail_t m.schema_name_t m.table_name_t m.where_range m.where_column,
)

-- the conditions on the columns of a row that is deleted
unfoldable pub where_cond : List Text → List Text → List Text
where_cond (c ∷ cs) (v ∷ vs) = strings_builder (c ∷ codes "=" ∷ v ∷ []) ∷ where_cond cs vs
where_cond [] _ = []
where_cond (c ∷ cs) [] = []

-- The table is named by `TableNameS`, in the schema of the target.
abbrev pub fix_table : DataCompareMeta → Text
fix_table m = m.schema_name_t ++ (codes "." ++ m.table_name_s)

unfoldable pub delete_sql : DataCompareMeta → List Text → Text → Result ReportError Text
unfolding where_cond
delete_sql m columns t =
    let values = split t (codes ",") in
    if length columns == length values
    then ok (
        strings_builder (
          codes "DELETE FROM "
          ∷ fix_table m
          ∷ codes " WHERE "
          ∷ join (where_cond columns values) (codes " AND ")
          ∷ codes ";\n"
          ∷ []))
    else err (columns_mismatch (length columns) (length values))

unfoldable pub delete_sqls :
    DataCompareMeta → List Text → List Text → Result ReportError (List Text)
unfolding delete_sql
delete_sqls m columns [] = ok []
delete_sqls m columns (t ∷ ts) = do
  s ← delete_sql m columns t
  rest ← delete_sqls m columns ts
  ok (s ∷ rest)

unfoldable pub insert_sql : DataCompareMeta → List Text → Text → Text
insert_sql m columns s = strings_builder (
    codes "INSERT INTO "
    ∷ fix_table m
    ∷ codes " ("
    ∷ join columns (codes ",")
    ∷ codes ") VALUES ("
    ∷ s
    ∷ codes ");\n"
    ∷ [])

module _ (difference : List Text → List Text → List Text) (render : List (List Text) → Text) where
  abbrev pub count_query : Text → Text → Text → Text
  count_query schema table range =
      strings_builder
        (codes "SELECT COUNT(1) FROM " ∷ schema ∷ codes "." ∷ table ∷ codes " WHERE " ∷ range ∷ [])

  -- the comment in front of the statements, which names a table and ends in the word `less` or `more`
  unfoldable pub fix_comment : DataCompareMeta → Text → Text → DbSummary → DbSummary → Text
  fix_comment m table word s t = strings_builder (
      codes "/*\n mysql table ["
      ∷ m.schema_name_t
      ∷ codes "."
      ∷ table
      ∷ codes "] chunk ["
      ∷ m.where_range
      ∷ codes "] data rows are "
      ∷ word
      ∷ codes " \n"
      ∷ render (
          (codes "DATABASE" ∷ codes "DATA COUNTS SQL" ∷ codes "CRC32" ∷ [])
          ∷ (codes "ORACLE"
              ∷ count_query m.schema_name_s m.table_name_s m.where_range
              ∷ itoa_ℕ s.crc32_val
              ∷ [])
          ∷ (codes "MySQL"
              ∷ count_query m.schema_name_t m.table_name_s m.where_range
              ∷ itoa_ℕ t.crc32_val
              ∷ [])
          ∷ [])
      ∷ codes "\n*/\n"
      ∷ [])

  -- the statements on the rows that the target has and the source has not
  unfoldable pub fix_more :
      DataCompareMeta → DbSummary → DbSummary → List Text → Result ReportError Text
  unfolding fix_comment delete_sqls
  fix_more m s t [] = ok []
  fix_more m s t (r ∷ rs) = do
    ds ← delete_sqls m t.columns (r ∷ rs)
    ok (fix_comment m m.table_name_t (codes "more") s t ++ strings_builder ds)

  unfoldable pub fix_less : DataCompareMeta → DbSummary → DbSummary → List Text → Text
  unfolding fix_comment insert_sql
  fix_less m s t [] = []
  fix_less m s t (r ∷ rs) =
      fix_comment m m.table_name_s (codes "less") s t
      ++ strings_builder (map (insert_sql m s.columns) (r ∷ rs))

  unfoldable pub report_summaries :
      DataCompareMeta → DbSummary → DbSummary → Result ReportError Text
  unfolding fix_more fix_less
  report_summaries m s t = if s.crc32_val == t.crc32_val then ok [] else (do
    more ← fix_more m s t (difference t.row_texts s.row_texts)
    ok (more ++ fix_less m s t (difference s.row_texts t.row_texts)))

  -- the rows of the source are asked for first
  unfoldable pub report_check_crc32 :
      (Text → Result RowError DbSummary)
      → (Text → Result RowError DbSummary)
      → DataCompareMeta
      → Result ReportError Text
  unfolding gen_db_query report_summaries
  report_check_crc32 oracle_rows my_sql_rows m = do
    s ← summary_of (oracle_rows (gen_db_query m).0)
    t ← summary_of (my_sql_rows (gen_db_query m).1)
    report_summaries m s t

  -- the counts of the two databases; no count stands for an error of the query
  unfoldable pub report_check_rows :
      (Text → Option ℤ) → (Text → Option ℤ) → DataCompareMeta → Result ReportError Text
  unfolding gen_db_query
  report_check_rows oracle_count my_sql_count m = do
    s ← counted (gen_db_query m).0 (oracle_count (gen_db_query m).0)
    t ← counted (gen_db_query m).1 (my_sql_count (gen_db_query m).1)
    ok (
        if eqb_ℤ s t
        then []
        else strings_builder (
            codes "/* \n\toracle and mysql table range ["
            ∷ m.where_range
            ∷ codes "] data rows aren't equal\n"
            ∷ render (
                (codes "SOURCE TABLE"
                  ∷ codes "SOURCE SQL"
                  ∷ codes "SOURCE COUNTS"
                  ∷ codes "TARGET TABLE"
                  ∷ codes "TARGET SQL"
                  ∷ codes "TARGET TABLE COUNTS"
                  ∷ codes "RANGE"
                  ∷ [])
                ∷ (strings_builder (m.schema_name_s ∷ codes "." ∷ m.table_name_s ∷ [])
                    ∷ (gen_db_query m).0
                    ∷ itoa s
                    ∷ strings_builder (m.schema_name_t ∷ codes "." ∷ m.table_name_t ∷ [])
                    ∷ (gen_db_query m).1
                    ∷ itoa t
                    ∷ m.where_range
                    ∷ [])
                ∷ [])
            ∷ codes "\n*/\n"
            ∷ []))
