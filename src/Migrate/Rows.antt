-- ===== src/Migrate/Rows.antt =====
-- The full copy of a chunk: database/oracle/full.go, `GetOracleTableRowsData`, reads the rows of a
-- query in batches, and module/migrate/sql/oracle/o2m/table.go, `ProcessData`, writes a statement for
-- each batch. The two run at once, joined by a channel that is closed behind the last batch, so the
-- batches of the one are the input of the other. Parameters: `number_text`, which reads a value as
-- the number type of its column and prints it (strconv and shopspring/decimal), and the
-- encoders and decoders of character sets, with the names of the source's and the target's.
pub mod Batches
pub mod Fill
pub mod Copy
use transferdb.Prelude.{
  ℕ, Bool, true, false, ◌||◌, List, [], ◌∷◌, ◌++◌, length, Option, none, some, ◌==◌, if◌then◌else◌,
  Result, ok, err, panic, ◌>>=◌,
}
use transferdb.Text.{Text, codes, text_eq, join, strings_builder}
use transferdb.Dict.{Dict, get, set}
use transferdb.Common.Charset.{charset_convert}
use transferdb.Common.Escape.{special_letters_using_my_sql}
use transferdb.Migrate.Statement.{gen_my_sql_insert_sql_stmt_prefix, in_brackets}

pub data RowError : Type 0 where
  strconv : Text → RowError
  charset : Text → RowError
  columns_mismatch : RowError

-- a column of the result: its name and the Go type of its values
pub record ColumnType : Type 0 where
  pub name : Text
  pub scan_type : Text

-- a channel that was closed: what went through it, and the error of the writer
pub record Sent (A : Type 0) : Type 0 where
  pub sent : List A
  pub error : Option RowError

unfoldable pub send_first : {A : Type 0} → A → Sent A → Sent A
send_first a s = record { sent = a ∷ s.sent; error = s.error }

abbrev pub is_number_type : Text → Bool
is_number_type t =
    text_eq t (codes "int64")
    || text_eq t (codes "uint64")
    || text_eq t (codes "float32")
    || text_eq t (codes "float64")
    || text_eq t (codes "rune")
    || text_eq t (codes "godror.Number")

abbrev pub or_error : RowError → Option Text → Result RowError Text
or_error e none = err e
or_error e (some t) = ok t

module _ (number_text : Text → Text → Option Text) (encode decode : Text → Text → Option Text)
    (source_charset target_charset : Text) (punct_or_symbol_beyond : ℕ → Bool) where
  -- one value of a row; no value stands for nil
  unfoldable pub value_text : ColumnType → Option Text → Result RowError Text
  value_text c none = ok (codes "NULL")
  value_text c (some []) = ok (codes "NULL")
  value_text c (some (b ∷ raw)) =
      if is_number_type c.scan_type
      then or_error (strconv c.name) (number_text c.scan_type (b ∷ raw))
      else (do
        utf8 ←
            or_error (charset c.name)
              (charset_convert encode decode (b ∷ raw) source_charset (codes "UTF8MB4"))
        target ← or_error (charset c.name) (
            charset_convert encode decode (special_letters_using_my_sql punct_or_symbol_beyond utf8)
              (codes "UTF8MB4") target_charset)
        ok (strings_builder (codes "'" ∷ target ∷ codes "'" ∷ [])))

  -- the loop over `rawResult`, which has one value for each column
  unfoldable pub rows_map :
      List ColumnType → List (Option Text) → Dict Text → Result RowError (Dict Text)
  rows_map [] _ m = ok m
  rows_map (c ∷ cs) [] m = ok m
  rows_map (c ∷ cs) (raw ∷ raws) m = do
    v ← value_text c raw
    rows_map cs raws (set (strings_builder (codes "`" ∷ c.name ∷ codes "`" ∷ [])) v m)

  -- the loop over `rows`, with `rowsTMP`
  unfoldable pub get_oracle_table_rows_data :
      List ColumnType → ℕ → List (List (Option Text)) → List (Dict Text) → Sent (List (Dict Text))
  unfolding send_first
  get_oracle_table_rows_data cols size [] [] = record { sent = []; error = none }
  get_oracle_table_rows_data cols size [] (r ∷ tmp) = record { sent = (r ∷ tmp) ∷ []; error = none }
  get_oracle_table_rows_data cols size (raws ∷ rows) tmp = elim (rows_map cols raws []) [
    | ok m ↦ elim (length (tmp ++ m ∷ []) == size) [
      | true ↦ send_first (tmp ++ m ∷ []) (get_oracle_table_rows_data cols size rows [])
      | false ↦ get_oracle_table_rows_data cols size rows (tmp ++ m ∷ [])
    ]
    | err e ↦ record { sent = []; error = some e }
    | panic ↦ record { sent = []; error = none }
  ]

-- the values of a row in the order of the columns; a column that the row does not have is left out
unfoldable pub row_values : List Text → Dict Text → List Text
row_values [] m = []
row_values (c ∷ cs) m = elim (get c m) [ none ↦ row_values cs m | some v ↦ v ∷ row_values cs m ]

unfoldable pub batch_rows : List Text → List (Dict Text) → Result RowError (List Text)
unfolding row_values in_brackets
batch_rows columns [] = ok []
batch_rows columns (m ∷ ms) =
    if length (row_values columns m) == length columns
    then (do rest ← batch_rows columns ms; ok (in_brackets (row_values columns m) ∷ rest))
    else err columns_mismatch

-- `ProcessData`; the writer of the batches has its own error
unfoldable pub process_data : Text → Text → List Text → Bool → List (List (Dict Text)) → Sent Text
unfolding send_first batch_rows
process_data schema table columns safe_mode [] = record { sent = []; error = none }
process_data schema table columns safe_mode (b ∷ batches) = elim (batch_rows columns b) [
  | ok rows ↦
      send_first
        (gen_my_sql_insert_sql_stmt_prefix schema table columns safe_mode ++ join rows (codes ","))
        (process_data schema table columns safe_mode batches)
  | err e ↦ record { sent = []; error = some e }
  | panic ↦ record { sent = []; error = none }
]
