-- ===== src/Migrate/Full/Columns.antt =====
-- module/migrate/sql/oracle/o2m/full.go, `AdjustTableSelectColumn`: the items of the SELECT that reads
-- a table. The columns are the answer of Oracle.
use transferdb.Prelude.{
  ℕ, suc, Bool, true, false, ◌&&◌, List, [], ◌∷◌, map, none, some, if◌then◌else◌, Result, ok, err,
  ◌>>=◌, ℤ, pos, ltb_ℤ, leb_ℤ, eqb_ℤ, ◌≡◌, arith,
}
use transferdb.Text.{Text, codes, text_eq, to_upper, contains, join, atoi, strings_builder}

pub record RowColumn : Type 0 where
  pub column_name : Text
  pub data_type : Text
  pub data_scale : Text

-- the labels of the cases that select a column as it is
abbrev pub plain_types : List Text
plain_types = map codes (
    "NUMBER" ∷ "DECIMAL" ∷ "DEC" ∷ "DOUBLE PRECISION" ∷ "FLOAT" ∷ "INTEGER" ∷ "INT" ∷ "REAL"
    ∷ "NUMERIC" ∷ "BINARY_FLOAT" ∷ "BINARY_DOUBLE" ∷ "SMALLINT" ∷ "BFILE" ∷ "CHARACTER" ∷ "LONG"
    ∷ "NCHAR VARYING" ∷ "ROWID" ∷ "UROWID" ∷ "VARCHAR" ∷ "CHAR" ∷ "NCHAR" ∷ "NVARCHAR2" ∷ "NCLOB"
    ∷ "CLOB" ∷ "BLOB" ∷ "LONG RAW" ∷ "RAW" ∷ [])

unfoldable pub one_of_types : List Text → Text → Bool
one_of_types [] t = false
one_of_types (x ∷ xs) t = if text_eq t x then true else one_of_types xs t

abbrev pub plain_column : Text → Text
plain_column c = strings_builder (codes "\"" ∷ c ∷ codes "\"" ∷ [])

abbrev pub date_column : Text → Text
date_column c =
    strings_builder
      (codes "TO_CHAR(\"" ∷ c ∷ codes "\",'yyyy-MM-dd HH24:mi:ss') AS \"" ∷ c ∷ codes "\"" ∷ [])

abbrev pub fraction_column : Text → Text → Text
fraction_column c scale = strings_builder (
    codes "TO_CHAR(\""
    ∷ c
    ∷ codes "\",'yyyy-mm-dd hh24:mi:ss.ff"
    ∷ scale
    ∷ codes "') AS \""
    ∷ c
    ∷ codes "\""
    ∷ [])

-- the branches on the scale of a timestamp
unfoldable pub timestamp_column : Text → Text → ℤ → Text
timestamp_column c scale n =
    if eqb_ℤ n (pos 0)
    then date_column c
    else if ltb_ℤ n (pos 0) && leb_ℤ n (pos 6)
    then fraction_column c scale
    else fraction_column c (codes "6")

unfoldable pub default_column : RowColumn → Result Text Text
unfolding timestamp_column
default_column r =
    if contains r.data_type (codes "INTERVAL")
    then ok (
        strings_builder (
          codes "TO_CHAR(\"" ∷ r.column_name ∷ codes "\") AS \"" ∷ r.column_name ∷ codes "\"" ∷ []))
    else if contains r.data_type (codes "TIMESTAMP")
    then elim (atoi r.data_scale) [
      | none ↦ err r.data_scale
      | some n ↦ ok (timestamp_column r.column_name r.data_scale n)
    ]
    else ok (plain_column r.column_name)

unfoldable pub select_column : RowColumn → Result Text Text
unfolding one_of_types default_column
select_column r =
    if one_of_types plain_types (to_upper r.data_type)
    then ok (plain_column r.column_name)
    else if text_eq (to_upper r.data_type) (codes "XMLTYPE")
    then ok (
        strings_builder (
          codes " XMLSERIALIZE(CONTENT \""
          ∷ r.column_name
          ∷ codes "\" AS CLOB) AS \""
          ∷ r.column_name
          ∷ codes "\""
          ∷ []))
    else if text_eq (to_upper r.data_type) (codes "DATE")
    then ok (date_column r.column_name)
    else default_column r

unfoldable pub column_names : List RowColumn → Result Text (List Text)
unfolding select_column
column_names [] = ok []
column_names (r ∷ rs) = do name ← select_column r; rest ← column_names rs; ok (name ∷ rest)

unfoldable pub adjust_table_select_column : List RowColumn → Result Text Text
unfolding column_names
adjust_table_select_column columns = do names ← column_names columns; ok (join names (codes ","))

-- A TIMESTAMP column is read with six digits for every scale above 0, so a lower scale has no effect.
timestamp_six_digits :
    (r : RowColumn) (n : ℕ)
    → contains r.data_type (codes "INTERVAL") ≡ false
    → contains r.data_type (codes "TIMESTAMP") ≡ true
    → atoi r.data_scale ≡ some (pos (suc n))
    → default_column r ≡ ok (fraction_column r.column_name (codes "6"))
unfolding timestamp_column default_column
timestamp_six_digits r n hi ht hs = rw (default_column, hi, ht, hs) (ground arith)
