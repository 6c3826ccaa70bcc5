-- ===== src/Compare/Column/Leading.antt =====
-- The column that cuts a table into chunks, and the keys of the table.
use transferdb.Prelude.{
  true, false, ◌&&◌, List, [], ◌∷◌, ◌++◌, append_assoc, map, any, any-append, All, Option, none,
  some, Result, ok, err, panic, ◌>>=◌, ◌≡◌, refl, sym, ap, inl, inr, Bool-cases, arith,
}
use mathlib.Core.Path.{subst}
use mathlib.Core.Bool.{false≢true, or-true}
use transferdb.Text.Laws.{to_upper_idem, text_eq_refl}
use transferdb.Text.{Text, codes, to_upper, equal_fold, split}
use transferdb.Common.Sets.{is_contain_string}
use transferdb.Migrate.Full.Columns.{RowColumn}
use transferdb.Compare.Column.{
  ColumnError, no_number_index, Dictionary, integer_columns, single_of, some_or, first_single,
  index_columns, is_leading, first_leading, column_or, single_or, has_none, by_distinct, by_indexes,
  by_keys, by_integers, filter_db_where_column,
}

-- the rows of a query that did not fail
abbrev pub answered : {A : Type 0} → Result ColumnError (List A) → List A
answered (ok rows) = rows
answered (err e) = []
answered panic = []

unfoldable pub unique_columns : Dictionary → List Text
unfolding index_columns
unique_columns o =
    (map to_upper (answered o.primary_keys) ++ map to_upper (answered o.unique_keys))
    ++ index_columns (codes "UNIQUE") (answered o.normal_indexes ++ answered o.unique_indexes)

unfoldable pub key_columns : Dictionary → List Text
unfolding unique_columns
key_columns o =
    unique_columns o
    ++ index_columns (codes "NONUNIQUE") (answered o.normal_indexes ++ answered o.unique_indexes)

unfoldable pub number_columns : Dictionary → List Text
unfolding integer_columns
number_columns o = integer_columns (answered o.columns)

-- a NUMBER column that is the first one of a key
abbrev pub IsLeading : List Text → List Text → Text → Type 0
IsLeading integers keys c = (is_contain_string integers c ≡ true) × (any (is_leading c) keys ≡ true)

abbrev pub IsFound : List Text → List Text → Option Text → Type 0
IsFound integers keys none = Unit
IsFound integers keys (some c) = IsLeading integers keys c

-- of a run that ends with a column, on a table with the given unique keys and keys
abbrev pub IsChosen : List Text → List Text → List Text → Result ColumnError Text → Type 0
IsChosen integers unique keys (ok c) = IsLeading integers keys c × (has_none unique ≡ false)
IsChosen integers unique keys (err e) = Unit
IsChosen integers unique keys panic = Unit

IsFound-tail :
    (integers : List Text) (k : Text) (ks : List Text) (o : Option Text)
    → IsFound integers ks o
    → IsFound integers (k ∷ ks) o
IsFound-tail integers k ks none h = tt
IsFound-tail integers k ks (some c) (h, l) = (h, ground (arith, l))

IsFound-append :
    (integers ks ls : List Text) (o : Option Text)
    → IsFound integers ks o
    → IsFound integers (ks ++ ls) o
IsFound-append integers ks ls none h = tt
IsFound-append integers ks ls (some c) (h, l) = (h, rw (any-append (is_leading c) ks ls, l) refl)

IsFound-under :
    (integers ks ls : List Text) (o : Option Text)
    → IsFound integers ks o
    → IsFound integers (ls ++ ks) o
IsFound-under integers ks ls none h = tt
IsFound-under integers ks ls (some c) (h, l) =
    (h, rw (any-append (is_leading c) ls ks, l) (or-true (any (is_leading c) ls)))

IsFound-first :
    (integers : List Text) (k : Text) (ks fields : List Text)
    → split k (codes ",") ≡ fields
    → IsFound integers (k ∷ ks) (single_of integers fields)
unfolding single_of is_leading equal_fold
IsFound-first integers k ks [] e = tt
IsFound-first integers k ks (s ∷ []) e =
    elim (Bool-cases (is_contain_string integers (to_upper s))) [
      | inl h ↦ rw h (h, rw (e, to_upper_idem s, text_eq_refl (to_upper s)) refl)
      | inr h ↦ rw h tt
    ]
IsFound-first integers k ks (s ∷ t ∷ ts) e = tt

some_or-IsFound :
    (integers ks : List Text) (o next : Option Text)
    → IsFound integers ks o
    → IsFound integers ks next
    → IsFound integers ks (some_or o next)
some_or-IsFound integers ks none next h f = f
some_or-IsFound integers ks (some c) next h f = h

single-IsFound : (integers ks : List Text) → IsFound integers ks (first_single integers ks)
unfolding first_single
single-IsFound integers [] = tt
single-IsFound integers (k ∷ ks) =
    some_or-IsFound integers (k ∷ ks) (single_of integers (split k (codes ","))) _
      (IsFound-first integers k ks (split k (codes ",")) refl)
      (IsFound-tail integers k ks _ (single-IsFound integers ks))

leading-IsFound :
    (integers keys columns : List Text)
    → All (λ c. is_contain_string integers c ≡ true) columns
    → IsFound integers keys (first_leading keys columns)
unfolding first_leading
leading-IsFound integers keys [] _ = tt
leading-IsFound integers keys (c ∷ cs) (h, hs) = elim (Bool-cases (any (is_leading c) keys)) [
  | inl k ↦ rw k (h, k)
  | inr k ↦ rw k (leading-IsFound integers keys cs hs)
]

bind-IsChosen :
    {A : Type 0} (integers unique keys : List Text) (m : Result ColumnError A)
    (f : A → Result ColumnError Text)
    → ((a : A) → m ≡ ok a → IsChosen integers unique keys (f a))
    → IsChosen integers unique keys (m >>= f)
bind-IsChosen integers unique keys (ok a) f h = h a refl
bind-IsChosen integers unique keys (err e) f h = tt
bind-IsChosen integers unique keys panic f h = tt

single_or-IsChosen :
    (integers unique keys : List Text) (o : Option Text) (next : Result ColumnError Text)
    → IsFound integers unique o
    → IsFound integers keys o
    → IsChosen integers unique keys next
    → IsChosen integers unique keys (single_or o next)
single_or-IsChosen integers unique keys none next h f c = c
single_or-IsChosen integers (u ∷ us) keys (some c) next h f _ = (f, refl)
single_or-IsChosen integers [] keys (some c) next (h, l) f _ = absurd (false≢true l)

column_or-IsChosen :
    (integers unique keys : List Text) (o : Option Text)
    → IsFound integers keys o
    → has_none unique ≡ false
    → IsChosen integers unique keys (column_or no_number_index o)
column_or-IsChosen integers unique keys none h n = tt
column_or-IsChosen integers unique keys (some c) h n = (h, n)

has_none-append :
    (xs ys : List Text) → has_none xs && has_none ys ≡ false → has_none (xs ++ ys) ≡ false
has_none-append [] ys e = e
has_none-append (x ∷ xs) ys e = refl

module _ (o : Dictionary)
    (distinct : (cs rows : List Text)
      → o.by_distinct_values cs ≡ ok rows
      → All (λ c. is_contain_string cs c ≡ true) rows) where
  distinct-IsChosen :
      (integers keys unique non_unique : List Text)
      → IsChosen integers
          (keys ++ unique)
          ((keys ++ unique) ++ non_unique)
          (by_distinct o integers keys unique non_unique)
  unfolding by_distinct
  distinct-IsChosen integers keys unique non_unique =
      elim (Bool-cases (has_none keys && has_none unique)) [
        | inl k ↦ rw k tt
        | inr k ↦ rw k (
            bind-IsChosen integers (keys ++ unique) ((keys ++ unique) ++ non_unique)
              (o.by_distinct_values integers) _
              (λ cs e.
                column_or-IsChosen integers (keys ++ unique) ((keys ++ unique) ++ non_unique) _
                  (rw (append_assoc keys unique non_unique)
                    (leading-IsFound integers _ cs (distinct integers cs e)))
                  (has_none-append keys unique k)))
      ]

  indexes-IsChosen :
      (integers keys : List Text)
      → let rows = answered o.normal_indexes ++ answered o.unique_indexes in
        let unique = keys ++ index_columns (codes "UNIQUE") rows in
        IsChosen integers unique
          (unique ++ index_columns (codes "NONUNIQUE") rows)
          (by_indexes o integers keys)
  unfolding by_indexes
  indexes-IsChosen integers keys = bind-IsChosen integers _ _ o.normal_indexes _ (λ n e.
      bind-IsChosen integers _ _ o.unique_indexes _ (λ u f.
        rw (e, f)
          (let rows = n ++ u in
            let names = index_columns (codes "UNIQUE") rows in
            let others = index_columns (codes "NONUNIQUE") rows in
            let found =
              IsFound-under integers names keys (first_single integers names)
                (single-IsFound integers names) in
            single_or-IsChosen integers (keys ++ names) ((keys ++ names) ++ others)
              (first_single integers names) _ found
              (IsFound-append integers (keys ++ names) others _ found)
              (distinct-IsChosen integers keys names others))))

  keys-IsChosen :
      (integers : List Text)
      → IsChosen integers (unique_columns o) (key_columns o) (by_keys o integers)
  unfolding by_keys unique_columns key_columns
  keys-IsChosen integers = bind-IsChosen integers _ _ o.primary_keys _ (λ p e.
      bind-IsChosen integers _ _ o.unique_keys _ (λ u f.
        rw (e, f)
          (let keys = map to_upper p ++ map to_upper u in
            let rows = answered o.normal_indexes ++ answered o.unique_indexes in
            let names = index_columns (codes "UNIQUE") rows in
            let found = IsFound-append integers keys names _ (single-IsFound integers keys) in
            single_or-IsChosen integers (keys ++ names) _ (first_single integers keys) _ found
              (IsFound-append integers (keys ++ names) (index_columns (codes "NONUNIQUE") rows) _
                found)
              (indexes-IsChosen integers keys))))

  integers-IsChosen :
      (integers : List Text)
      → IsChosen integers (unique_columns o) (key_columns o) (by_integers o integers)
  integers-IsChosen [] = tt
  integers-IsChosen (c ∷ cs) = keys-IsChosen (c ∷ cs)

  number_columns-ok :
      (cs : List RowColumn) → o.columns ≡ ok cs → number_columns o ≡ integer_columns cs
  unfolding number_columns
  number_columns-ok cs e = ap (λ m. integer_columns (answered m)) e

  -- If the query for the distinct values answers with some of the columns that it is given: a column that is
  -- found to cut a table into chunks is a NUMBER column and the first column of a key or of an index of
  -- the table, and the table has a primary key, a unique key or a unique index.
  pub where_column-IsChosen :
      IsChosen (number_columns o) (unique_columns o) (key_columns o) (filter_db_where_column o)
  unfolding filter_db_where_column
  where_column-IsChosen =
      bind-IsChosen (number_columns o) (unique_columns o) (key_columns o) o.columns _ (λ cs e.
        subst
          (λ n. IsChosen n (unique_columns o) (key_columns o) (by_integers o (integer_columns cs)))
          (sym (number_columns-ok cs e)) (integers-IsChosen (integer_columns cs)))
