-- ===== src/Compare/Column/Found.antt =====
-- When a column to cut a table into chunks is found.
use transferdb.Prelude.{
  true, false, ◌&&◌, List, [], ◌∷◌, ◌++◌, map, any, All, Option, none, some, Result, ok, err, panic,
  ◌≡◌, refl, sym, ap, ◌∙◌, inl, inr, Bool-cases, arith,
}
use mathlib.Core.Path.{subst}
use mathlib.Core.Bool.{false≢true, true≢false}
use transferdb.Text.{Text, codes, to_upper}
use transferdb.Common.Sets.{is_contain_string}
use transferdb.Migrate.Full.Columns.{RowColumn}
use transferdb.Compare.Column.{
  IndexRow, ColumnError, Dictionary, integer_columns, first_single, index_columns, is_leading,
  first_leading, column_or, single_or, has_none, by_distinct, by_indexes, by_keys, by_integers,
  filter_db_where_column,
}
use transferdb.Compare.Column.Leading.{
  unique_columns, key_columns, number_columns, IsLeading, IsChosen, where_column-IsChosen,
}

abbrev ok_or : List Text → Result ColumnError (List Text) → List Text
ok_or d (ok x) = x
ok_or d (err e) = d
ok_or d panic = d

ok-injective : {x y : List Text} {r : Result ColumnError (List Text)} → r ≡ ok x → r ≡ ok y → x ≡ y
ok-injective {x = x} p q = ap (ok_or x) (sym p ∙ q)

abbrev pub IsOk : Result ColumnError Text → Type 0
IsOk r = (c : Text) × (r ≡ ok c)

single_or-IsOk :
    (o : Option Text) (next : Result ColumnError Text) → IsOk next → IsOk (single_or o next)
single_or-IsOk none next h = h
single_or-IsOk (some c) next h = (c, refl)

first_leading-IsOk :
    (e : ColumnError) (keys columns : List Text)
    → any (λ c. any (is_leading c) keys) columns ≡ true
    → IsOk (column_or e (first_leading keys columns))
unfolding first_leading
first_leading-IsOk e keys [] h = absurd (false≢true h)
first_leading-IsOk e keys (c ∷ cs) h = elim (Bool-cases (any (is_leading c) keys)) [
  | inl k ↦ rw k (c, refl)
  | inr k ↦ rw k (first_leading-IsOk e keys cs (ground arith))
]

has_none_both :
    (xs ys : List Text) → has_none (xs ++ ys) ≡ false → has_none xs && has_none ys ≡ false
has_none_both [] ys e = e
has_none_both (x ∷ xs) ys e = refl

IsLeading-of :
    (r : Result ColumnError Text) (integers unique keys : List Text)
    → IsOk r
    → IsChosen integers unique keys r
    → (c : Text) × (r ≡ ok c) × IsLeading integers keys c
IsLeading-of r integers unique keys (c, e) h = (c, e, (subst (IsChosen integers unique keys) e h).0)

module _ (columns : List RowColumn) (primary unique : List Text) (normal others : List IndexRow)
    (ordered : List Text → List Text) where
  -- a dictionary whose queries do not fail
  abbrev pub answering : Dictionary
  answering = record {
    columns = ok columns;
    primary_keys = ok primary;
    unique_keys = ok unique;
    normal_indexes = ok normal;
    unique_indexes = ok others;
    by_distinct_values = λ cs. ok (ordered cs);
  }

  keys-IsOk :
      (integers : List Text)
      → has_none (unique_columns answering) ≡ false
      → any (λ c. any (is_leading c) (key_columns answering)) (ordered integers) ≡ true
      → IsOk (by_keys answering integers)
  unfolding by_keys by_indexes by_distinct unique_columns key_columns
  keys-IsOk integers n h =
      let keys = map to_upper primary ++ map to_upper unique in
      let names = index_columns (codes "UNIQUE") (normal ++ others) in
      let plain = index_columns (codes "NONUNIQUE") (normal ++ others) in
      single_or-IsOk (first_single integers keys) _ (
        single_or-IsOk (first_single integers names) _ (
          rw (has_none_both keys names n)
            (first_leading-IsOk _ (keys ++ names ++ plain) (ordered integers) h)))

  integers-IsOk :
      (integers : List Text)
      → has_none integers ≡ false
      → has_none (unique_columns answering) ≡ false
      → any (λ c. any (is_leading c) (key_columns answering)) (ordered integers) ≡ true
      → IsOk (by_integers answering integers)
  integers-IsOk [] e n h = absurd (true≢false e)
  integers-IsOk (c ∷ cs) e n h = keys-IsOk (c ∷ cs) n h

  -- If no query fails, the table has a NUMBER column and a primary key, a unique key or a unique index, and
  -- the query for the distinct values answers with NUMBER columns of which one is the first column of a key
  -- or index, then a column is found, and it is a NUMBER column and the first one of a key or index.
  pub where_column_found :
      has_none (number_columns answering) ≡ false
      → has_none (unique_columns answering) ≡ false
      → any (λ c. any (is_leading c) (key_columns answering)) (ordered (number_columns answering))
        ≡ true
      → ((cs : List Text) → All (λ c. is_contain_string cs c ≡ true) (ordered cs))
      → (c : Text) × (filter_db_where_column answering ≡ ok c)
        × IsLeading (number_columns answering) (key_columns answering) c
  unfolding filter_db_where_column number_columns
  where_column_found e n h only =
      IsLeading-of (filter_db_where_column answering) (number_columns answering)
        (unique_columns answering) (key_columns answering)
        (integers-IsOk (integer_columns columns) e n h)
        (where_column-IsChosen answering (λ cs rows q.
          subst (All (λ c. is_contain_string cs c ≡ true)) (ok-injective refl q) (only cs)))
