-- ===== src/Compare/Column.antt =====
-- module/compare/oracle/o2m/task.go: the columns that the two queries of a comparison select, and the
-- column that cuts a table into chunks. The answers of Oracle are a record.
pub mod Leading
pub mod Found
use transferdb.Prelude.{
  Bool, true, false, ◌&&◌, List, [], ◌∷◌, ◌++◌, map, filter, any, if◌then◌else◌, Option, none, some,
  Result, ok, err, ◌>>=◌,
}
use transferdb.Text.{
  Text, codes, text_eq, to_upper, equal_fold, contains, split, join, strings_builder,
}
use transferdb.Common.Sets.{is_contain_string}
use transferdb.Migrate.Full.Columns.{RowColumn, one_of_types}

pub record IndexRow : Type 0 where
  pub uniqueness : Text
  pub index_type : Text
  pub column_list : Text

pub data ColumnError : Type 0 where
  query_error : Text → ColumnError
  no_number_column : ColumnError
  no_unique_key : ColumnError
  no_number_index : ColumnError

-- what Oracle answers about a table; the last answer orders columns by their distinct values
pub record Dictionary : Type 0 where
  pub columns : Result ColumnError (List RowColumn)
  pub primary_keys : Result ColumnError (List Text)
  pub unique_keys : Result ColumnError (List Text)
  pub normal_indexes : Result ColumnError (List IndexRow)
  pub unique_indexes : Result ColumnError (List IndexRow)
  pub by_distinct_values : List Text → Result ColumnError (List Text)

-- the labels of the cases of numbers, texts and binary data
abbrev pub number_labels : List Text
number_labels = map codes (
    "NUMBER" ∷ "DECIMAL" ∷ "DEC" ∷ "DOUBLE PRECISION" ∷ "FLOAT" ∷ "INTEGER" ∷ "INT" ∷ "REAL"
    ∷ "NUMERIC" ∷ "BINARY_FLOAT" ∷ "BINARY_DOUBLE" ∷ "SMALLINT" ∷ [])

abbrev pub text_labels : List Text
text_labels = map codes (
    "BFILE" ∷ "CHARACTER" ∷ "LONG" ∷ "NCHAR VARYING" ∷ "ROWID" ∷ "UROWID" ∷ "VARCHAR" ∷ "CHAR"
    ∷ "NCHAR" ∷ "NVARCHAR2" ∷ "NCLOB" ∷ "CLOB" ∷ [])

abbrev pub binary_labels : List Text
binary_labels = map codes ("BLOB" ∷ "LONG RAW" ∷ "RAW" ∷ [])

-- the item that Oracle selects for a column
unfoldable pub source_column : RowColumn → Text
unfolding one_of_types
source_column r =
    let c = r.column_name in
    let t = to_upper r.data_type in
    if one_of_types number_labels t
    then strings_builder (
        codes "DECODE(SUBSTR("
        ∷ c
        ∷ codes ",1,1),'.','0' || "
        ∷ c
        ∷ codes ","
        ∷ c
        ∷ codes ") AS "
        ∷ c
        ∷ [])
    else if one_of_types text_labels t
    then strings_builder (codes "NVL(" ∷ c ∷ codes ",'') AS " ∷ c ∷ [])
    else if text_eq t (codes "XMLTYPE")
    then strings_builder
        (codes "NVL(XMLSERIALIZE(CONTENT " ∷ c ∷ codes " AS CLOB),'') AS " ∷ c ∷ [])
    else if one_of_types binary_labels t
    then c
    else if text_eq t (codes "DATE")
    then strings_builder (codes "TO_CHAR(" ∷ c ∷ codes ",'yyyy-MM-dd HH24:mi:ss') AS " ∷ c ∷ [])
    else if contains r.data_type (codes "INTERVAL")
    then strings_builder (codes "TO_CHAR(" ∷ c ∷ codes ") AS " ∷ c ∷ [])
    else if contains r.data_type (codes "TIMESTAMP")
    then strings_builder (codes "TO_CHAR(" ∷ c ∷ codes ",'yyyy-MM-dd HH24:mi:ss') AS " ∷ c ∷ [])
    else c

-- the item that MySQL selects for it
unfoldable pub target_column : RowColumn → Text
unfolding one_of_types
target_column r =
    let c = r.column_name in
    let t = to_upper r.data_type in
    if one_of_types number_labels t
    then strings_builder (codes "CAST(0 + CAST(" ∷ c ∷ codes " AS CHAR) AS CHAR) AS " ∷ c ∷ [])
    else if one_of_types text_labels t
    then strings_builder (codes "IFNULL(" ∷ c ∷ codes ",'') AS " ∷ c ∷ [])
    else if text_eq t (codes "XMLTYPE")
    then strings_builder (codes "IFNULL(" ∷ c ∷ codes ",'') AS " ∷ c ∷ [])
    else if one_of_types binary_labels t
    then c
    else if text_eq t (codes "DATE")
    then strings_builder (codes "DATE_FORMAT(" ∷ c ∷ codes ",'%Y-%m-%d %H:%i:%s') AS " ∷ c ∷ [])
    else if contains r.data_type (codes "INTERVAL")
    then c
    else if contains r.data_type (codes "TIMESTAMP")
    then strings_builder
        (codes "FROM_UNIXTIME(UNIX_TIMESTAMP(" ∷ c ∷ codes "),'%Y-%m-%d %H:%i:%s') AS " ∷ c ∷ [])
    else c

unfoldable pub adjust_db_select_column : Dictionary → Result ColumnError (Text × Text)
unfolding source_column target_column
adjust_db_select_column o = do
  columns ← o.columns
  ok (join (map source_column columns) (codes ","), join (map target_column columns) (codes ","))

-- the NUMBER columns
unfoldable pub integer_columns : List RowColumn → List Text
integer_columns columns =
    map (λ (r : RowColumn). r.column_name)
      (filter (λ (r : RowColumn). equal_fold (to_upper r.data_type) (codes "NUMBER")) columns)

-- the column of a key with one column, if it is a NUMBER
unfoldable pub single_of : List Text → List Text → Option Text
single_of integers (s ∷ []) =
    if is_contain_string integers (to_upper s) then some (to_upper s) else none
single_of integers _ = none

abbrev pub some_or : Option Text → Option Text → Option Text
some_or (some c) next = some c
some_or none next = next

unfoldable pub first_single : List Text → List Text → Option Text
unfolding single_of
first_single integers [] = none
first_single integers (k ∷ ks) =
    some_or (single_of integers (split k (codes ","))) (first_single integers ks)

-- the columns of the indexes of a kind
unfoldable pub index_columns : Text → List IndexRow → List Text
index_columns uniqueness rows =
    map (λ (r : IndexRow). to_upper r.column_list)
      (filter
        (λ (r : IndexRow).
          text_eq (to_upper r.index_type) (codes "NORMAL")
          && text_eq (to_upper r.uniqueness) uniqueness)
        rows)

abbrev pub head_of : List Text → Text
head_of [] = []
head_of (x ∷ _) = x

-- whether a column is the first one of a key
unfoldable pub is_leading : Text → Text → Bool
is_leading column key = equal_fold column (head_of (split key (codes ",")))

-- the first column that is the first one of a key
unfoldable pub first_leading : List Text → List Text → Option Text
unfolding is_leading
first_leading keys [] = none
first_leading keys (c ∷ cs) = if any (is_leading c) keys then some c else first_leading keys cs

abbrev pub column_or : ColumnError → Option Text → Result ColumnError Text
column_or e none = err e
column_or e (some c) = ok c

-- the column of a key with one column, else the next answer
abbrev pub single_or : Option Text → Result ColumnError Text → Result ColumnError Text
single_or (some c) next = ok c
single_or none next = next

abbrev pub has_none : List Text → Bool
has_none [] = true
has_none (_ ∷ _) = false

-- the column among the leading ones of all keys
unfoldable pub by_distinct :
    Dictionary → List Text → List Text → List Text → List Text → Result ColumnError Text
unfolding first_leading
by_distinct o integers keys unique non_unique =
    if has_none keys && has_none unique then err no_unique_key else do
      columns ← o.by_distinct_values integers
      column_or no_number_index (first_leading (keys ++ unique ++ non_unique) columns)

unfoldable pub by_indexes : Dictionary → List Text → List Text → Result ColumnError Text
unfolding first_single index_columns by_distinct
by_indexes o integers keys = do
  normal ← o.normal_indexes
  unique ← o.unique_indexes
  single_or (first_single integers (index_columns (codes "UNIQUE") (normal ++ unique))) (
      by_distinct o integers keys (index_columns (codes "UNIQUE") (normal ++ unique))
        (index_columns (codes "NONUNIQUE") (normal ++ unique)))

unfoldable pub by_keys : Dictionary → List Text → Result ColumnError Text
unfolding first_single by_indexes
by_keys o integers = do
  primary ← o.primary_keys
  unique ← o.unique_keys
  single_or (first_single integers (map to_upper primary ++ map to_upper unique))
      (by_indexes o integers (map to_upper primary ++ map to_upper unique))

abbrev pub by_integers : Dictionary → List Text → Result ColumnError Text
by_integers o [] = err no_number_column
by_integers o (c ∷ cs) = by_keys o (c ∷ cs)

unfoldable pub filter_db_where_column : Dictionary → Result ColumnError Text
unfolding integer_columns by_keys
filter_db_where_column o = do columns ← o.columns; by_integers o (integer_columns columns)
