-- ===== src/Tests/Reporting.antt =====
-- Tests of the report on a chunk of employees, and its theorems there.
use transferdb.Prelude.{
  ◌+◌, if◌then◌else◌, ℕ, String, Bool, true, false, not, ◌&&◌, ◌||◌, ltb, filter, List, [], ◌∷◌,
  Option, none, some, ok, err, ◌≡◌, refl, length, if◌then◌else◌, arith,
}
use mathlib.Core.List.{Memᴰ, Permᴰ}
use transferdb.Text.{Text, codes, text_eq, join, strings_builder}
use transferdb.Text.Laws.{text_eq_refl}
use transferdb.Text.Commas.{commas}
use transferdb.Common.Sets.{is_contain_string}
use transferdb.Meta.Compare.{DataCompareMeta}
use transferdb.Compare.Rows.{
  Answer, DbSummary, oracle_number_types, my_sql_number_types, get_data_row_strings, row_strings,
  row_values, value_string, crc32_sum,
}
use transferdb.Compare.Report.{
  ReportError, delete_sql, where_cond, report_check_crc32, report_summaries,
}
use transferdb.Compare.Report.Deletes.{delete_sql_of_values, report_with_comma}
use transferdb.Compare.Report.Equal.{equal_rows_report, same_sets_report}
use transferdb.Compare.Chunk.{chunk_rows}
use transferdb.Compare.Chunk.Cover.{hits, IsEvaluated, chunks_cover}
use transferdb.Tests.Comparing.{chunk, hr, emp_chunk}

abbrev low : DataCompareMeta
low = record (chunk "ID < 5" []) { schema_name_t = codes "HR" }

abbrev names : List Text
names = codes "ID" ∷ codes "NAME" ∷ []

delete_sql_of_values_example :
    delete_sql low names (codes "7,'Ann'")
    ≡ ok (codes "DELETE FROM HR.EMP WHERE ID=7 AND NAME='Ann';\n")
unfolding join strings_builder where_cond
delete_sql_of_values_example =
    delete_sql_of_values low (codes "ID", codes "7") ((codes "NAME", codes "'Ann'") ∷ [])
      ((refl, tt), ((refl, (refl, (refl, (refl, (refl, tt))))), tt))

-- the elements of a list that are not in another
abbrev minus : List Text → List Text → List Text
minus xs ys = filter (λ x. not (is_contain_string ys x)) xs

contains_mem : (ys : List Text) (x : Text) → Memᴰ x ys → is_contain_string ys x ≡ true
unfolding is_contain_string
contains_mem (y ∷ ys) x (Memᴰ.head e) = rw (e, text_eq_refl y) refl
contains_mem (y ∷ ys) x (Memᴰ.tail m) = ground (arith, contains_mem ys x m)
contains_mem [] x m = elim m [ ]

minus_subset : (xs ys : List Text) → ((x : Text) → Memᴰ x xs → Memᴰ x ys) → minus xs ys ≡ []
minus_subset [] ys h = refl
minus_subset (x ∷ xs) ys h =
    rw (contains_mem ys x (h x (Memᴰ.head refl)), minus_subset xs ys (λ z m. h z (Memᴰ.tail m)))
      refl

abbrev drawn : List (List Text) → Text
drawn _ = codes "+"

abbrev no_rows : DbSummary
no_rows = record { columns = names; row_texts = []; crc32_val = 0 }

abbrev comma_rows : DbSummary
comma_rows = record {
  columns = names;
  row_texts = codes "1,'Bob'" ∷ codes "7,'Ann, Lee'" ∷ [];
  crc32_val = 9;
}

report_with_comma_example :
    (e : ReportError) × (report_summaries minus drawn low no_rows comma_rows ≡ err e)
unfolding join commas is_contain_string
report_with_comma_example =
    report_with_comma minus drawn low no_rows comma_rows (codes "1,'Bob'" ∷ []) [] (codes "7")
      (codes "'Ann, Lee'" ∷ []) refl refl refl refl

abbrev once : DbSummary
once = record { columns = names; row_texts = codes "7,'Ann'" ∷ []; crc32_val = 7 }

abbrev twice : DbSummary
twice = record {
  columns = names;
  row_texts = codes "7,'Ann'" ∷ codes "7,'Ann'" ∷ [];
  crc32_val = 14;
}

in_once : (x : Text) → Memᴰ x once.row_texts → Memᴰ x twice.row_texts
in_once x (Memᴰ.head e) = Memᴰ.head e
in_once x (Memᴰ.tail m) = elim m [ ]

in_twice : (x : Text) → Memᴰ x twice.row_texts → Memᴰ x once.row_texts
in_twice x (Memᴰ.head e) = Memᴰ.head e
in_twice x (Memᴰ.tail (Memᴰ.head e)) = Memᴰ.head e
in_twice x (Memᴰ.tail (Memᴰ.tail m)) = elim m [ ]

-- the target has a row twice
same_sets_report_example : report_check_crc32 minus drawn (λ _. ok once) (λ _. ok twice) low ≡ ok []
same_sets_report_example = same_sets_report minus drawn low once twice minus_subset in_once in_twice

-- numbers are printed as they are read
abbrev same_number : Text → Text → Option Text
same_number _ raw = some raw

abbrev ascii_only : ℕ → Bool
ascii_only _ = false

abbrev ids : List String → List (List (Option Text))
ids [] = []
ids (i ∷ is) = (some (codes i) ∷ []) ∷ ids is

abbrev answer : String → List String → Option Answer
answer type is =
    some (record { columns = codes "ID" ∷ []; column_types = codes type ∷ []; rows = ids is })

equal_rows_report_example :
    report_check_crc32 minus drawn
      (λ q.
        get_data_row_strings same_number ascii_only length oracle_number_types q
          (answer "int64" ("7" ∷ "12" ∷ [])))
      (λ q.
        get_data_row_strings same_number ascii_only length my_sql_number_types q
          (answer "int32" ("12" ∷ "7" ∷ [])))
      low
    ≡ ok []
unfolding get_data_row_strings row_strings row_values value_string crc32_sum is_contain_string
    text_eq join
equal_rows_report_example =
    equal_rows_report same_number ascii_only length minus drawn oracle_number_types
      my_sql_number_types (λ _. answer "int64" ("7" ∷ "12" ∷ []))
      (λ _. answer "int32" ("12" ∷ "7" ∷ [])) low
      (record { columns = codes "ID" ∷ []; row_texts = codes "7" ∷ codes "12" ∷ []; crc32_val = 3 })
      (record { columns = codes "ID" ∷ []; row_texts = codes "12" ∷ codes "7" ∷ []; crc32_val = 3 })
      refl refl (∣ Permᴰ.swap refl refl ∣₁)

abbrev between : Text
between = codes "ID BETWEEN 1 AND 9"

-- a database with a column of natural numbers that knows three conditions
abbrev holds : Text → Option ℕ → Bool
holds cmd none = false
holds cmd (some v) =
    if text_eq cmd (codes "ID < 1")
    then ltb v 1
    else if text_eq cmd (codes "ID > 9")
    then ltb 9 v
    else text_eq cmd between && not (ltb v 1 || ltb 9 v)

holds-IsEvaluated :
    IsEvaluated holds (codes "ID") (codes "1") (codes "9") (λ v. ltb v 1) (λ v. ltb 9 v)
unfolding text_eq strings_builder
holds-IsEvaluated = ((λ v. refl), (λ v. refl), (λ v. ground arith), refl, refl)

chunks_cover_example :
    ((v : ℕ)
      → hits
          (λ (r : DataCompareMeta). holds r.where_range (some v))
          (chunk_rows hr emp_chunk (codes "ID") (between ∷ []) ((codes "1", codes "9") ∷ []))
        ≡ hits (λ cmd. holds cmd (some v)) (between ∷ []) + (if ltb v 1 || ltb 9 v then 1 else 0))
    × (hits
          (λ (r : DataCompareMeta). holds r.where_range none)
          (chunk_rows hr emp_chunk (codes "ID") (between ∷ []) ((codes "1", codes "9") ∷ []))
        ≡ hits (λ cmd. holds cmd none) (between ∷ []))
chunks_cover_example =
    chunks_cover holds (codes "ID") (codes "1") (codes "9") (λ v. ltb v 1) (λ v. ltb 9 v) hr
      emp_chunk (between ∷ []) holds-IsEvaluated
