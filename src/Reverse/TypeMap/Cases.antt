-- ===== src/Reverse/TypeMap/Cases.antt =====
-- module/reverse/oracle/public/mapping_mysql.go, the cases of the `switch` of
-- `OracleTableColumnMapMySQLRule` behind NUMBER, in three functions and in the source's order, and the
-- function itself.
use transferdb.Prelude.{
  List, [], ◌∷◌, ◌++◌, none, some, if◌then◌else◌, Result, ok, err, ◌>>=◌, ℤ, pos, leb_ℤ,
}
use transferdb.Text.{Text, codes, text_eq, to_upper, equal_fold, contains, atoi}
use transferdb.Reverse.TypeMap.{
  DatatypeRule, Column, MapError, no_rule, not_a_number, Mapped, lookup, with_two, with_one,
  with_text, map_number,
}

-- if val, ok := buildinDatatypeMap[key]; ok { … } else { error }, with what stands behind `val`
unfoldable pub by_rule : List DatatypeRule → Text → Text → Text → Mapped
unfolding lookup
by_rule rules key origin suffix = elim (lookup key rules) [
  | none ↦ err (no_rule key)
  | some val ↦ ok (origin, to_upper val ++ suffix)
]

-- A character type: its length in characters where CHAR_USED is C, else in bytes.
unfoldable pub by_length : List DatatypeRule → Text → Column → ℤ → Mapped
unfolding lookup with_text with_one equal_fold
by_length rules key c len = elim (lookup key rules) [
  | none ↦ err (no_rule key)
  | some val ↦
      if equal_fold c.char_used (codes "C")
      then ok (with_text key c.char_length, with_text (to_upper val) c.char_length)
      else ok (with_one key len, with_one (to_upper val) len)
]

abbrev pub one_suffix : ℤ → Text
one_suffix a = with_one [] a

abbrev pub two_suffix : ℤ → ℤ → Text
two_suffix a b = with_two [] a b

-- `default` of the switch: intervals and timestamps by what their name contains
unfoldable pub map_other : List DatatypeRule → Column → ℤ → Mapped
unfolding by_rule contains with_one
map_other rules c s =
    let key = to_upper c.data_type in
    if contains c.data_type (codes "INTERVAL YEAR")
    then by_rule rules key c.data_type (codes "(30)")
    else if contains c.data_type (codes "INTERVAL DAY")
    then elim (lookup (codes "INTERVAL DAY") rules) [
      | none ↦ err (no_rule key)
      | some val ↦ ok (c.data_type, to_upper val ++ codes "(30)")
    ]
    else if contains c.data_type (codes "TIMESTAMP")
    then if leb_ℤ s (pos 6)
      then by_rule rules key c.data_type (one_suffix s)
      else by_rule rules key c.data_type (one_suffix (pos 6))
    else ok (c.data_type, codes "TEXT")

-- a Go `switch` over texts
unfoldable pub switch_on {ℓ} : {A : Type ℓ} → Text → List (Text × A) → A → A
unfolding text_eq
switch_on ty [] other = other
switch_on ty ((name, out) ∷ cases) other = if text_eq ty name then out else switch_on ty cases other

-- the cases NCHAR to XMLTYPE
unfoldable pub late_cases : List DatatypeRule → Column → ℤ → ℤ → ℤ → List (Text × Mapped)
unfolding by_rule by_length with_one with_two
late_cases rules c len p s =
    (codes "NCHAR", by_length rules (codes "NCHAR") c len)
    ∷ (codes "NCHAR VARYING", by_length rules (codes "NCHAR VARYING") c len)
    ∷ (codes "NCLOB", by_rule rules (codes "NCLOB") (codes "NCLOB") [])
    ∷ (
      codes "NUMERIC",
      by_rule rules (codes "NUMERIC") (with_two (codes "NUMERIC") p s) (two_suffix p s),
    )
    ∷ (codes "NVARCHAR2", by_length rules (codes "NVARCHAR2") c len)
    ∷ (codes "RAW", by_rule rules (codes "RAW") (with_one (codes "RAW") len) (one_suffix len))
    ∷ (codes "REAL", by_rule rules (codes "REAL") (codes "REAL") [])
    ∷ (codes "ROWID", by_rule rules (codes "ROWID") (codes "ROWID") (codes "(64)"))
    ∷ (codes "SMALLINT", by_rule rules (codes "SMALLINT") (codes "SMALLINT") [])
    ∷ (codes "UROWID", by_rule rules (codes "UROWID") (codes "UROWID") (one_suffix len))
    ∷ (codes "VARCHAR2", by_length rules (codes "VARCHAR2") c len)
    ∷ (codes "VARCHAR", by_length rules (codes "VARCHAR") c len)
    ∷ (codes "XMLTYPE", by_rule rules (codes "XMLTYPE") (codes "XMLTYPE") [])
    ∷ []

unfoldable pub map_late : List DatatypeRule → Column → Text → ℤ → ℤ → ℤ → Mapped
unfolding switch_on late_cases map_other
map_late rules c ty len p s = switch_on ty (late_cases rules c len p s) (map_other rules c s)

-- the cases BFILE to BINARY_DOUBLE
unfoldable pub early_cases : List DatatypeRule → Column → ℤ → ℤ → ℤ → List (Text × Mapped)
unfolding by_rule by_length with_one with_two
early_cases rules c len p s =
    (codes "BFILE", by_rule rules (codes "BFILE") (codes "BFILE") (codes "(255)"))
    ∷ (codes "CHAR", by_length rules (codes "CHAR") c len)
    ∷ (codes "CHARACTER", by_length rules (codes "CHARACTER") c len)
    ∷ (codes "CLOB", by_rule rules (codes "CLOB") (codes "CLOB") [])
    ∷ (codes "BLOB", by_rule rules (codes "BLOB") (codes "BLOB") [])
    ∷ (codes "DATE", by_rule rules (codes "DATE") (codes "DATE") [])
    ∷ (
      codes "DECIMAL",
      by_rule rules (codes "DECIMAL") (with_two (codes "DECIMAL") p s) (two_suffix p s),
    )
    ∷ (codes "DEC", by_rule rules (codes "DEC") (with_two (codes "DECIMAL") p s) (two_suffix p s))
    ∷ (
      codes "DOUBLE PRECISION",
      by_rule rules (codes "DOUBLE PRECISION") (codes "DOUBLE PRECISION") [],
    )
    ∷ (codes "FLOAT", by_rule rules (codes "FLOAT") (codes "FLOAT") [])
    ∷ (codes "INTEGER", by_rule rules (codes "INTEGER") (codes "INTEGER") [])
    ∷ (codes "INT", by_rule rules (codes "INT") (codes "INTEGER") [])
    ∷ (codes "LONG", by_rule rules (codes "LONG") (codes "LONG") [])
    ∷ (codes "LONG RAW", by_rule rules (codes "LONG RAW") (codes "LONG RAW") [])
    ∷ (codes "BINARY_FLOAT", by_rule rules (codes "BINARY_FLOAT") (codes "BINARY_FLOAT") [])
    ∷ (codes "BINARY_DOUBLE", by_rule rules (codes "BINARY_DOUBLE") (codes "BINARY_DOUBLE") [])
    ∷ []

unfoldable pub map_early : List DatatypeRule → Column → Text → ℤ → ℤ → ℤ → Mapped
unfolding switch_on early_cases map_late
map_early rules c ty len p s =
    switch_on ty (early_cases rules c len p s) (map_late rules c ty len p s)

unfoldable pub number_field : Text → Text → Result MapError ℤ
number_field name s = elim (atoi s) [ none ↦ err (not_a_number name) | some n ↦ ok n ]

-- `switch common.StringUPPER(column.DataType)`
unfoldable pub map_type : List DatatypeRule → Column → ℤ → ℤ → ℤ → Mapped
map_type rules c len p s =
    let ty = to_upper c.data_type in
    if text_eq ty (codes "NUMBER") then map_number rules p s else map_early rules c ty len p s

unfoldable pub oracle_table_column_map_my_sql_rule : Column → List DatatypeRule → Mapped
unfolding number_field
oracle_table_column_map_my_sql_rule c rules = do
  len ← number_field (codes "data_length") c.data_length
  p ← number_field (codes "data_precision") c.data_precision
  s ← number_field (codes "data_scale") c.data_scale
  map_type rules c len p s
