-- ===== src/Compare/Rows.antt =====
-- database/oracle/compare.go, `GetOracleDataRowStrings`, and database/mysql/compare.go,
-- `GetMySQLDataRowStrings`: the rows of a query as texts, and the sum of their checksums. Parameters:
-- `number_text`, which reads a value as the number type of its column and prints it (strconv and
-- shopspring/decimal), package unicode beyond ASCII, and `checksum`, that of package hash/crc32.
use transferdb.Prelude.{
  ℕ, ◌+◌, ◌%◌, ◌^◌, Bool, List, [], ◌∷◌, ◌++◌, Option, none, some, if◌then◌else◌, Result, ok, err,
  ◌>>=◌,
}
use transferdb.Text.{Text, codes, join}
use transferdb.Common.Escape.{special_letters_using_my_sql}
use transferdb.Common.Sets.{is_contain_string}

abbrev pub oracle_number_types : List Text
oracle_number_types =
    codes "int64"
    ∷ codes "uint64"
    ∷ codes "float32"
    ∷ codes "float64"
    ∷ codes "rune"
    ∷ codes "godror.Number"
    ∷ []

abbrev pub my_sql_number_types : List Text
my_sql_number_types =
    codes "int8"
    ∷ codes "int16"
    ∷ codes "int32"
    ∷ codes "sql.NullInt32"
    ∷ codes "int64"
    ∷ codes "sql.NullInt64"
    ∷ codes "uint8"
    ∷ codes "uint16"
    ∷ codes "uint32"
    ∷ codes "uint64"
    ∷ codes "float32"
    ∷ codes "float64"
    ∷ codes "sql.NullFloat64"
    ∷ codes "rune"
    ∷ []

pub data RowError : Type 0 where
  query_failed : Text → RowError
  value_unread : Text → RowError

-- what a query gives: its columns, with the types of their values, and its rows; no value stands for nil
pub record Answer : Type 0 where
  pub columns : List Text
  pub column_types : List Text
  pub rows : List (List (Option Text))

-- the columns, the texts of the rows, which a set is made of, and the sum of their checksums
pub record DbSummary : Type 0 where
  pub columns : List Text
  pub row_texts : List Text
  pub crc32_val : ℕ

abbrev pub or_unread : Text → Option Text → Result RowError Text
or_unread raw none = err (value_unread raw)
or_unread raw (some v) = ok v

module _ (number_text : Text → Text → Option Text) (beyond : ℕ → Bool) (checksum : Text → ℕ) where
  unfoldable pub value_string : List Text → Text → Option Text → Result RowError Text
  unfolding is_contain_string special_letters_using_my_sql
  value_string number_types t none = ok (codes "NULL")
  value_string number_types t (some []) = ok (codes "NULL")
  value_string number_types t (some (b ∷ raw)) =
      if is_contain_string number_types t
      then or_unread (b ∷ raw) (number_text t (b ∷ raw))
      else ok (codes "'" ++ special_letters_using_my_sql beyond (b ∷ raw) ++ codes "'")

  -- `rowsTMP`; a row has a value for each column
  unfoldable pub row_values :
      List Text → List Text → List (Option Text) → Result RowError (List Text)
  unfolding value_string
  row_values number_types [] _ = ok []
  row_values number_types (t ∷ ts) [] = ok []
  row_values number_types (t ∷ ts) (raw ∷ raws) = do
    v ← value_string number_types t raw
    vs ← row_values number_types ts raws
    ok (v ∷ vs)

  unfoldable pub row_strings :
      List Text → List Text → List (List (Option Text)) → Result RowError (List Text)
  unfolding row_values
  row_strings number_types types [] = ok []
  row_strings number_types types (r ∷ rs) = do
    vs ← row_values number_types types r
    rest ← row_strings number_types types rs
    ok (join vs (codes ",") ∷ rest)

  -- a sum of type uint32, which wraps around
  unfoldable pub crc32_sum : ℕ → List Text → ℕ
  crc32_sum crc32_value [] = crc32_value
  crc32_sum crc32_value (s ∷ ss) = crc32_sum ((crc32_value + checksum s) % 2 ^ 32) ss

  -- no answer stands for an error of the query
  unfoldable pub get_data_row_strings : List Text → Text → Option Answer → Result RowError DbSummary
  unfolding row_strings crc32_sum
  get_data_row_strings number_types query none = err (query_failed query)
  get_data_row_strings number_types query (some a) = do
    ss ← row_strings number_types a.column_types a.rows
    ok (record { columns = a.columns; row_texts = ss; crc32_val = crc32_sum 0 ss })
