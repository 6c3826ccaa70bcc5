-- ===== src/Reverse/TypeMap/Builtin.antt =====
-- The built-in rules of common/buildin.go that database/meta/buildin_datatype_rule.go writes to the
-- table of rules, for Oracle to MySQL.
use transferdb.Prelude.{List, [], ◌∷◌, map, String}
use transferdb.Text.{Text, codes}
use transferdb.Reverse.TypeMap.{DatatypeRule}

abbrev entry : String → String → Text × Text
entry s t = (codes s, codes t)

unfoldable pub build_in_oracle_o2m_datatype_name_map : List (Text × Text)
build_in_oracle_o2m_datatype_name_map =
    entry "NUMBER" "TINYINT/SMALLINT/INT/BIGINT/DECIMAL"
    ∷ entry "BFILE" "VARCHAR"
    ∷ entry "CHAR" "VARCHAR"
    ∷ entry "CHARACTER" "VARCHAR"
    ∷ entry "CLOB" "LONGTEXT"
    ∷ entry "BLOB" "BLOB"
    ∷ entry "DATE" "DATETIME"
    ∷ entry "DECIMAL" "DECIMAL"
    ∷ entry "DEC" "DECIMAL"
    ∷ entry "DOUBLE PRECISION" "DOUBLE PRECISION"
    ∷ entry "FLOAT" "DOUBLE"
    ∷ entry "INTEGER" "INT"
    ∷ entry "INT" "INT"
    ∷ entry "LONG" "LONGTEXT"
    ∷ entry "LONG RAW" "LONGBLOB"
    ∷ entry "BINARY_FLOAT" "DOUBLE"
    ∷ entry "BINARY_DOUBLE" "DOUBLE"
    ∷ entry "NCHAR" "VARCHAR"
    ∷ entry "NCHAR VARYING" "NCHAR VARYING"
    ∷ entry "NCLOB" "TEXT"
    ∷ entry "NUMERIC" "NUMERIC"
    ∷ entry "NVARCHAR2" "VARCHAR"
    ∷ entry "RAW" "VARBINARY"
    ∷ entry "REAL" "DOUBLE"
    ∷ entry "ROWID" "VARCHAR"
    ∷ entry "SMALLINT" "SMALLINT"
    ∷ entry "UROWID" "VARCHAR"
    ∷ entry "VARCHAR2" "VARCHAR"
    ∷ entry "VARCHAR" "VARCHAR"
    ∷ entry "XMLTYPE" "LONGTEXT"
    ∷ entry "INTERVAL YEAR(0) TO MONTH" "VARCHAR"
    ∷ entry "INTERVAL YEAR(1) TO MONTH" "VARCHAR"
    ∷ entry "INTERVAL YEAR(2) TO MONTH" "VARCHAR"
    ∷ entry "INTERVAL YEAR(3) TO MONTH" "VARCHAR"
    ∷ entry "INTERVAL YEAR(4) TO MONTH" "VARCHAR"
    ∷ entry "INTERVAL YEAR(5) TO MONTH" "VARCHAR"
    ∷ entry "INTERVAL YEAR(6) TO MONTH" "VARCHAR"
    ∷ entry "INTERVAL YEAR(7) TO MONTH" "VARCHAR"
    ∷ entry "INTERVAL YEAR(8) TO MONTH" "VARCHAR"
    ∷ entry "INTERVAL YEAR(9) TO MONTH" "VARCHAR"
    ∷ entry "TIMESTAMP" "TIMESTAMP"
    ∷ entry "TIMESTAMP(0)" "TIMESTAMP"
    ∷ entry "TIMESTAMP(1)" "TIMESTAMP"
    ∷ entry "TIMESTAMP(2)" "TIMESTAMP"
    ∷ entry "TIMESTAMP(3)" "TIMESTAMP"
    ∷ entry "TIMESTAMP(4)" "TIMESTAMP"
    ∷ entry "TIMESTAMP(5)" "TIMESTAMP"
    ∷ entry "TIMESTAMP(6)" "TIMESTAMP"
    ∷ entry "TIMESTAMP(7)" "TIMESTAMP"
    ∷ entry "TIMESTAMP(8)" "TIMESTAMP"
    ∷ entry "TIMESTAMP(9)" "TIMESTAMP"
    ∷ entry "TIMESTAMP(0) WITH TIME ZONE" "DATETIME"
    ∷ entry "TIMESTAMP(1) WITH TIME ZONE" "DATETIME"
    ∷ entry "TIMESTAMP(2) WITH TIME ZONE" "DATETIME"
    ∷ entry "TIMESTAMP(3) WITH TIME ZONE" "DATETIME"
    ∷ entry "TIMESTAMP(4) WITH TIME ZONE" "DATETIME"
    ∷ entry "TIMESTAMP(5) WITH TIME ZONE" "DATETIME"
    ∷ entry "TIMESTAMP(6) WITH TIME ZONE" "DATETIME"
    ∷ entry "TIMESTAMP(7) WITH TIME ZONE" "DATETIME"
    ∷ entry "TIMESTAMP(8) WITH TIME ZONE" "DATETIME"
    ∷ entry "TIMESTAMP(9) WITH TIME ZONE" "DATETIME"
    ∷ entry "TIMESTAMP(0) WITH LOCAL TIME ZONE" "DATETIME"
    ∷ entry "TIMESTAMP(1) WITH LOCAL TIME ZONE" "DATETIME"
    ∷ entry "TIMESTAMP(2) WITH LOCAL TIME ZONE" "DATETIME"
    ∷ entry "TIMESTAMP(3) WITH LOCAL TIME ZONE" "DATETIME"
    ∷ entry "TIMESTAMP(4) WITH LOCAL TIME ZONE" "DATETIME"
    ∷ entry "TIMESTAMP(5) WITH LOCAL TIME ZONE" "DATETIME"
    ∷ entry "TIMESTAMP(6) WITH LOCAL TIME ZONE" "DATETIME"
    ∷ entry "TIMESTAMP(7) WITH LOCAL TIME ZONE" "DATETIME"
    ∷ entry "TIMESTAMP(8) WITH LOCAL TIME ZONE" "DATETIME"
    ∷ entry "TIMESTAMP(9) WITH LOCAL TIME ZONE" "DATETIME"
    ∷ entry "INTERVAL DAY" "VARCHAR"
    ∷ []

-- One rule for each name, its target taken from the map above.
unfoldable pub init_o2m_buildin_datatype_rule : List DatatypeRule
unfolding build_in_oracle_o2m_datatype_name_map
init_o2m_buildin_datatype_rule =
    map (λ e. record { datatype_name_s = e.0; datatype_name_t = e.1 })
      build_in_oracle_o2m_datatype_name_map
