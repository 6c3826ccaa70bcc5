-- ===== src/Compare/Report/Deletes.antt =====
-- The statements that delete rows from the target.
use transferdb.Prelude.{
  ◌⊎◌, inl, inr, Bool-cases, ℕ, suc, map, ap, ◌++◌, ◌<◌, Bool, true, false, List, [], ◌∷◌, All,
  length, ltb, any, ◌==◌, ok, err, ◌≡◌, refl, arith,
}
use transferdb.Text.{Text, codes, split, join, strings_builder}
use transferdb.Text.Commas.{HasNoComma, split-join, commas, all_commas, commas-join, length-split}
use transferdb.Meta.Compare.{DataCompareMeta}
use transferdb.Compare.Report.{
  ReportError, columns_mismatch, where_cond, delete_sql, delete_sqls, fix_more, report_summaries,
}
use transferdb.Compare.Rows.{DbSummary}

abbrev pub has_comma : Text → Bool
has_comma v = ltb 0 (commas v)

any-all_commas : (vs : List Text) → any has_comma vs ≡ true → 0 < all_commas vs
unfolding all_commas
any-all_commas (v ∷ vs) h = ground (arith, any-all_commas vs)
any-all_commas [] h = cc

other_length : (n m : ℕ) → n < m → (n == m) ≡ false
other_length n m h = ground arith

pub same_length : {n m : ℕ} → n ≡ m → (n == m) ≡ true
same_length e = ground arith

-- the condition of one column with its value
abbrev pub equals : Text × Text → Text
equals (column, v) = strings_builder (column ∷ codes "=" ∷ v ∷ [])

where_cond-equals :
    (fs : List (Text × Text)) → where_cond (map (λ f. f.0) fs) (map (λ f. f.1) fs) ≡ map equals fs
unfolding where_cond
where_cond-equals [] = refl
where_cond-equals (f ∷ fs) = ap (λ t. equals f ∷ t) (where_cond-equals fs)

map-length :
    {A B C : Type 0} (f : A → B) (g : A → C) (xs : List A) → length (map f xs) ≡ length (map g xs)
map-length f g [] = refl
map-length f g (x ∷ xs) = ap suc (map-length f g xs)

-- For a row of columns with their values, none of which has a comma, the statement names the target's
-- schema and the source's table and compares every column with its own value, in their order.
pub delete_sql_of_values :
    (m : DataCompareMeta) (f : Text × Text) (fs : List (Text × Text))
    → All HasNoComma (map (λ e. e.1) (f ∷ fs))
    → delete_sql m (map (λ e. e.0) (f ∷ fs)) (join (map (λ e. e.1) (f ∷ fs)) (codes ","))
      ≡ ok (
          strings_builder (
            codes "DELETE FROM "
            ∷ (m.schema_name_t ++ (codes "." ++ m.table_name_s))
            ∷ codes " WHERE "
            ∷ join (map equals (f ∷ fs)) (codes " AND ")
            ∷ codes ";\n"
            ∷ []))
unfolding delete_sql
delete_sql_of_values m f fs h =
    let count : (length (map (λ e. e.0) (f ∷ fs)) == length (map (λ e. e.1) (f ∷ fs))) ≡ true =
      same_length (map-length (λ (e : Text × Text). e.0) (λ e. e.1) (f ∷ fs)) in
    rw (split-join f.1 (map (λ e. e.1) fs) h, count, where_cond-equals (f ∷ fs)) refl

-- A row with a comma in one of its values gets no statement: its text has more parts than columns.
delete_sql_with_comma :
    (m : DataCompareMeta) (columns : List Text) (v : Text) (vs : List Text)
    → length columns ≡ length (v ∷ vs)
    → any has_comma (v ∷ vs) ≡ true
    → (n : ℕ) × (delete_sql m columns (join (v ∷ vs) (codes ","))
        ≡ err (columns_mismatch (length columns) n))
unfolding delete_sql
delete_sql_with_comma m columns v vs e h =
    let t = join (v ∷ vs) (codes ",") in
    let more : length columns < length (split t (codes ",")) =
      omega (arith, length-split t, commas-join v vs, any-all_commas (v ∷ vs) h) in
    rw (other_length (length columns) (length (split t (codes ","))) more) (_, refl)

delete_sql-cases :
    (m : DataCompareMeta) (columns : List Text) (t : Text)
    → ((s : Text) × (delete_sql m columns t ≡ ok s))
      ⊎ ((e : ReportError) × (delete_sql m columns t ≡ err e))
unfolding delete_sql
delete_sql-cases m columns t = elim (Bool-cases (length columns == length (split t (codes ",")))) [
  | inl e ↦ rw e (inl (_, refl))
  | inr e ↦ rw e (inr (_, refl))
]

-- one row without a statement leaves all rows of the chunk without one
delete_sqls-err :
    (m : DataCompareMeta) (columns : List Text) (before rest : List Text) (t : Text)
    (e : ReportError)
    → delete_sql m columns t ≡ err e
    → (e' : ReportError) × (delete_sqls m columns (before ++ t ∷ rest) ≡ err e')
unfolding delete_sqls
delete_sqls-err m columns [] rest t e h = (e, rw h refl)
delete_sqls-err m columns (b ∷ before) rest t e h = elim (delete_sql-cases m columns b) [
  | inl (s, k) ↦
      let (e', later) = delete_sqls-err m columns before rest t e h in rw (k, later) (e', refl)
  | inr (e', k) ↦ rw k (e', refl)
]

module _ (difference : List Text → List Text → List Text) (render : List (List Text) → Text) where
  fix_more-err :
      (m : DataCompareMeta) (s t : DbSummary) (rows : List Text) (e : ReportError)
      → delete_sqls m t.columns rows ≡ err e
      → fix_more difference render m s t rows ≡ err e
  unfolding fix_more delete_sqls
  fix_more-err m s t [] e h = cc
  fix_more-err m s t (r ∷ rows) e h = rw h refl

  -- If the sums of the rows of a chunk differ and one of the rows that only the target has contains a comma in a
  -- value, the report on the chunk ends with an error, so no statement is
  -- written for any row of the chunk.
  pub report_with_comma :
      (m : DataCompareMeta) (s t : DbSummary) (before rest : List Text) (v : Text) (vs : List Text)
      → (s.crc32_val == t.crc32_val) ≡ false
      → difference t.row_texts s.row_texts ≡ before ++ join (v ∷ vs) (codes ",") ∷ rest
      → length t.columns ≡ length (v ∷ vs)
      → any has_comma (v ∷ vs) ≡ true
      → (e : ReportError) × (report_summaries difference render m s t ≡ err e)
  unfolding report_summaries
  report_with_comma m s t before rest v vs sums more count comma =
      let (n, bad) = delete_sql_with_comma m t.columns v vs count comma in
      let (e, none_written) =
        delete_sqls-err m t.columns before rest (join (v ∷ vs) (codes ",")) _ bad in
      (
        e,
        rw
            (
              sums,
              more,
              fix_more-err m s t (before ++ join (v ∷ vs) (codes ",") ∷ rest) e none_written,
            )
            refl,
      )
