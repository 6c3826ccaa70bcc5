-- ===== src/Compare/Report/Equal.antt =====
-- When the report on a chunk is empty.
use transferdb.Prelude.{
  ℕ, ◌+◌, ◌%◌, ◌^◌, Bool, List, [], ◌∷◌, Option, none, some, ◌==◌, Result, ok, err, panic, ◌>>=◌,
  ◌≡◌, refl, sym, ap, ◌∙◌, arith, inl, inr, Bool-cases,
}
use mathlib.Core.List.{Perm, Permᴰ, Memᴰ}
use mathlib.Core.Logic.{∥∥₁_elim}
use native.Mathlib.Nat.{ℕ_set, mod-add-mod}
use transferdb.Text.{Text}
use transferdb.Meta.Compare.{DataCompareMeta}
use transferdb.Compare.Rows.{
  Answer, DbSummary, RowError, get_data_row_strings, row_strings, crc32_sum,
}
use transferdb.Compare.Report.Deletes.{same_length}
use transferdb.Compare.Report.{
  fix_more, fix_less, report_summaries, report_check_crc32, gen_db_query,
}

unfoldable pub total : (Text → ℕ) → List Text → ℕ
total f [] = 0
total f (s ∷ ss) = f s + total f ss

total-permᴰ : (f : Text → ℕ) (xs ys : List Text) → Permᴰ xs ys → total f xs ≡ total f ys
unfolding total
total-permᴰ f _ _ Permᴰ.nil = refl
total-permᴰ f (a ∷ xs) (b ∷ ys) (Permᴰ.cons e p) = omega (arith, total-permᴰ f xs ys p, ap f e)
total-permᴰ f (a ∷ b ∷ l) (a' ∷ b' ∷ l') (Permᴰ.swap e g) = omega (arith, ap f e, ap f g)
total-permᴰ f xs zs (Permᴰ.trans {l₂ = ys} p q) = total-permᴰ f xs ys p ∙ total-permᴰ f ys zs q

crc32_sum-total :
    (f : Text → ℕ) (beyond : ℕ → Bool) (number_text : Text → Text → Option Text) (acc : ℕ)
    (ss : List Text)
    → crc32_sum number_text beyond f (acc % 2 ^ 32) ss ≡ (acc + total f ss) % 2 ^ 32
unfolding crc32_sum total
crc32_sum-total f beyond number_text acc [] = let e : acc + 0 ≡ acc = omega arith in rw e refl
crc32_sum-total f beyond number_text acc (s ∷ ss) =
    let e : acc % 2 ^ 32 + f s + total f ss ≡ acc % 2 ^ 32 + (f s + total f ss) = omega arith in
    crc32_sum-total f beyond number_text (acc % 2 ^ 32 + f s) ss
    ∙ ap (λ n. n % 2 ^ 32) e
    ∙ mod-add-mod acc (2 ^ 32) (f s + total f ss)

module _ (number_text : Text → Text → Option Text) (beyond : ℕ → Bool) (checksum : Text → ℕ) where
  crc32_sum-perm :
      (xs ys : List Text)
      → Perm xs ys
      → crc32_sum number_text beyond checksum 0 xs ≡ crc32_sum number_text beyond checksum 0 ys
  crc32_sum-perm xs ys p =
      crc32_sum-total checksum beyond number_text 0 xs
      ∙ ap (λ n. (0 + n) % 2 ^ 32)
          (∥∥₁_elim p (ℕ_set (total checksum xs) (total checksum ys)) (total-permᴰ checksum xs ys))
      ∙ sym (crc32_sum-total checksum beyond number_text 0 ys)

  bound :
      (columns : List Text) (r : Result RowError (List Text)) (s : DbSummary)
      → (r >>= λ ss. ok (record {
        columns = columns;
        row_texts = ss;
        crc32_val = crc32_sum number_text beyond checksum 0 ss;
      }))
        ≡ ok s
      → s.crc32_val ≡ crc32_sum number_text beyond checksum 0 s.row_texts
  bound columns (ok ss) s h =
      let e : record {
        columns = columns;
        row_texts = ss;
        crc32_val = crc32_sum number_text beyond checksum 0 ss;
      }
          ≡ s =
        cc in
      rw (← e) refl
  bound columns (err e) s h = cc
  bound columns panic s h = cc

  -- the sum of a summary is that of its rows
  summed :
      (types : List Text) (query : Text) (a : Option Answer) (s : DbSummary)
      → get_data_row_strings number_text beyond checksum types query a ≡ ok s
      → s.crc32_val ≡ crc32_sum number_text beyond checksum 0 s.row_texts
  unfolding get_data_row_strings
  summed types query none s h = cc
  summed types query (some a) s h =
      bound a.columns (row_strings number_text beyond checksum types a.column_types a.rows) s h

  module _ (difference : List Text → List Text → List Text) (render : List (List Text) → Text) where
    -- Rows that are read on both sides and are the same, each as often, in any order: the report is empty,
    -- whatever the checksum of a row is.
    pub equal_rows_report :
        (oracle_types my_sql_types : List Text) (oracle_answer my_sql_answer : Text → Option Answer)
        (m : DataCompareMeta) (s t : DbSummary)
        → get_data_row_strings number_text beyond checksum oracle_types
            (gen_db_query m).0
            (oracle_answer (gen_db_query m).0)
          ≡ ok s
        → get_data_row_strings number_text beyond checksum my_sql_types
            (gen_db_query m).1
            (my_sql_answer (gen_db_query m).1)
          ≡ ok t
        → Perm s.row_texts t.row_texts
        → report_check_crc32 difference render
            (λ q. get_data_row_strings number_text beyond checksum oracle_types q (oracle_answer q))
            (λ q. get_data_row_strings number_text beyond checksum my_sql_types q (my_sql_answer q))
            m
          ≡ ok []
    unfolding report_check_crc32 report_summaries
    equal_rows_report oracle_types my_sql_types oracle_answer my_sql_answer m s t hs ht p =
        let e : s.crc32_val ≡ t.crc32_val =
          summed oracle_types (gen_db_query m).0 (oracle_answer (gen_db_query m).0) s hs
          ∙ crc32_sum-perm s.row_texts t.row_texts p
          ∙ sym (summed my_sql_types (gen_db_query m).1 (my_sql_answer (gen_db_query m).1) t ht) in
        rw (hs, ht, same_length e) refl

-- Package set, as it is documented: no element is in the difference that the other set has.
abbrev pub IsDifference : (List Text → List Text → List Text) → Type 0
IsDifference difference =
    (xs ys : List Text) → ((x : Text) → Memᴰ x xs → Memᴰ x ys) → difference xs ys ≡ []

-- When every row of each side is also on the other, the report is empty, however often it is there and
-- whatever the checksums are: rows that the target has twice or has lost one of are taken for equal.
pub same_sets_report :
    (difference : List Text → List Text → List Text) (render : List (List Text) → Text)
    (m : DataCompareMeta) (s t : DbSummary)
    → IsDifference difference
    → ((x : Text) → Memᴰ x s.row_texts → Memᴰ x t.row_texts)
    → ((x : Text) → Memᴰ x t.row_texts → Memᴰ x s.row_texts)
    → report_check_crc32 difference render (λ _. ok s) (λ _. ok t) m ≡ ok []
unfolding report_check_crc32 report_summaries fix_more fix_less
same_sets_report difference render m s t d st ts = elim (Bool-cases (s.crc32_val == t.crc32_val)) [
  | inl e ↦ rw e refl
  | inr e ↦ rw (e, d t.row_texts s.row_texts ts, d s.row_texts t.row_texts st) refl
]
