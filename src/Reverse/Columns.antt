-- ===== src/Reverse/Columns.antt =====
-- module/reverse/oracle/o2m/rule.go, `GenTableColumn`: the text of each column of a table. The character
-- sets are those of common/reverse.go; their encoders and package unicode beyond ASCII are parameters.
pub mod Comment
use transferdb.Prelude.{
  String, ℕ, ◌-◌, Bool, true, false, ◌&&◌, not, List, [], ◌∷◌, ◌++◌, length, take, drop,
  if◌then◌else◌, Option, none, some, Result, ok, err, panic, ◌>>=◌,
}
use transferdb.Text.{
  Text, codes, text_eq, to_lower, to_upper, equal_fold, has_prefix, strings_builder,
}
use transferdb.Dict.{Dict, get}
use transferdb.Common.Charset.{charset_convert}
use transferdb.Common.Escape.{special_letters_using_my_sql}
use transferdb.Reverse.Prefix.{
  migrate_table_structure_database_charset_map, migrate_table_structure_database_collation_map,
}

abbrev charset : String → String → Text × Text
charset k v = (codes k, codes v)

unfoldable pub migrate_oracle_charset_string_convert_mapping : Dict Text
migrate_oracle_charset_string_convert_mapping =
    charset "AL32UTF8" "UTF8MB4"
    ∷ charset "ZHT16BIG5" "BIG5"
    ∷ charset "ZHS16GBK" "GBK"
    ∷ charset "ZHS32GB18030" "GB18030"
    ∷ []

unfoldable pub migrate_mysql_compatible_charset_string_convert_mapping : Dict Text
migrate_mysql_compatible_charset_string_convert_mapping =
    charset "UTF8MB4" "UTF8MB4"
    ∷ charset "UTF8" "UTF8MB4"
    ∷ charset "BIG5" "BIG5"
    ∷ charset "GBK" "GBK"
    ∷ charset "GB18030" "GB18030"
    ∷ []

-- a missing key gives the empty text
abbrev pub or_empty : Option Text → Text
or_empty none = []
or_empty (some t) = t

pub record ColumnMeta : Type 0 where
  pub column_name : Text
  pub nullable : Text
  pub comments : Text
  pub collation : Text

-- what `GenTableColumn` reads of a rule
pub record ColumnRules : Type 0 where
  pub lower_case_field_name : Text
  pub oracle_collation : Bool
  pub source_db_charset : Text
  pub target_db_charset : Text
  pub table_column_datatype_rule : Dict Text
  pub table_column_default_val_rule : Dict Text
  pub table_column_default_val_source_rule : Dict Bool

-- each with the name of the column
pub data ColumnError : Type 0 where
  collation_unsupported : Text → ColumnError
  no_datatype : Text → ColumnError
  comment_unconverted : Text → ColumnError
  no_default : Text → ColumnError
  default_unconverted : Text → ColumnError

abbrev pub or_else : ColumnError → Option Text → Result ColumnError Text
or_else e none = err e
or_else e (some t) = ok t

abbrev collation_in : Option (Dict Text) → Text → Option Text
collation_in none charset = none
collation_in (some m) charset = get charset m

unfoldable pub column_collation : ColumnRules → ColumnMeta → Result ColumnError Text
column_collation r c =
    if r.oracle_collation
    then known (
        collation_in (get (to_upper c.collation) migrate_table_structure_database_collation_map)
          (or_empty (get r.source_db_charset migrate_table_structure_database_charset_map)))
    else ok []
  where
    known : Option Text → Result ColumnError Text
    known (some t) = ok t
    known none = if text_eq c.collation [] then ok [] else err (collation_unsupported c.column_name)

unfoldable pub column_name_of : Text → Text → Text
unfolding equal_fold
column_name_of mode t =
    let lower = if equal_fold mode (codes "1") then to_lower t else t in
    if equal_fold mode (codes "2") then to_upper lower else lower

abbrev pub in_quotes : Text → Text
in_quotes t = b'\'' ∷ (t ++ b'\'' ∷ [])

abbrev is_quoted : Text → Bool
is_quoted t = has_prefix (codes "'") t && ends_quoted t
  where
    ends_quoted : Text → Bool
    ends_quoted t = text_eq (drop (length t - 1) t) (codes "'")

-- `defaultVal[1 : len(defaultVal)-1]`
unfoldable pub without_quotes : Text → Result ColumnError Text
without_quotes (c ∷ d ∷ t) = ok (take (length t) (d ∷ t))
without_quotes _ = panic

-- the clauses that a column has, each with a blank in front of it, up to its comment
unfoldable pub column_head : ColumnRules → ColumnMeta → Text → Text → Text → Text
unfolding column_name_of
column_head r c column_type collation default =
    codes "`"
    ++ column_name_of r.lower_case_field_name c.column_name
    ++ codes "` "
    ++ column_type
    ++ (if text_eq collation [] then [] else codes " COLLATE " ++ collation)
    ++ (if equal_fold c.nullable (codes "Y") then [] else codes " NOT NULL")
    ++ (if equal_fold default (codes "NULLSTRING") then [] else codes " DEFAULT " ++ default)

unfoldable pub column_text : ColumnRules → ColumnMeta → Text → Text → Text → Text → Text
unfolding column_head
column_text r c column_type collation default comment =
    column_head r c column_type collation default
    ++ (if text_eq comment [] then [] else codes " COMMENT " ++ comment)

module _ (encode decode : Text → Text → Option Text) (beyond : ℕ → Bool) where
  -- to the character set of the target, through UTF8MB4, by way of a function
  abbrev pub converted : ColumnError → (Text → Text) → Text → Text → Text → Result ColumnError Text
  converted e between from to t = do
    raw ← or_else e (charset_convert encode decode t from (codes "UTF8MB4"))
    or_else e (charset_convert encode decode (between raw) (codes "UTF8MB4") to)

  abbrev pub source_charset : ColumnRules → Text
  source_charset r =
      or_empty (get (to_upper r.source_db_charset) migrate_oracle_charset_string_convert_mapping)

  abbrev pub target_charset : ColumnRules → Text
  target_charset r =
      or_empty
        (get (to_upper r.target_db_charset) migrate_mysql_compatible_charset_string_convert_mapping)

  unfoldable pub column_comment : ColumnRules → ColumnMeta → Result ColumnError Text
  unfolding charset_convert special_letters_using_my_sql
  column_comment r c = if text_eq c.comments [] then ok [] else (do
    t ←
        converted (comment_unconverted c.column_name) (special_letters_using_my_sql beyond)
          (source_charset r) (target_charset r) c.comments
    ok (in_quotes t))

  -- a default value of the source, or of the meta database, which is UTF8MB4
  unfoldable pub column_default_text :
      ColumnRules → ColumnMeta → Bool → Text → Result ColumnError Text
  unfolding charset_convert without_quotes
  column_default_text r c from_source value =
      let from = if from_source then source_charset r else codes "UTF8MB4" in
      let e = default_unconverted c.column_name in
      if is_quoted value
      then (do
        inner ← without_quotes value
        t ← converted e (λ raw. raw) from (target_charset r) inner
        ok (in_quotes t))
      else (do
        t ← converted e (λ raw. raw) from (target_charset r) value
        ok (if text_eq t [] then in_quotes t else t))

  abbrev given_default :
      ColumnRules → ColumnMeta → Option Bool → Option Text → Result ColumnError Text
  given_default r c (some from_source) (some value) = column_default_text r c from_source value
  given_default r c none _ = err (no_default c.column_name)
  given_default r c (some _) none = err (no_default c.column_name)

  unfoldable pub gen_column : ColumnRules → ColumnMeta → Result ColumnError Text
  unfolding column_collation column_comment column_default_text column_text
  gen_column r c = do
    collation ← column_collation r c
    column_type ←
        or_else (no_datatype c.column_name) (get c.column_name r.table_column_datatype_rule)
    comment ← column_comment r c
    default ←
        given_default r c (get c.column_name r.table_column_default_val_source_rule)
          (get c.column_name r.table_column_default_val_rule)
    ok (column_text r c column_type collation default comment)

  unfoldable pub gen_table_column : ColumnRules → List ColumnMeta → Result ColumnError (List Text)
  unfolding gen_column
  gen_table_column r [] = ok []
  gen_table_column r (c ∷ cs) = do t ← gen_column r c; rest ← gen_table_column r cs; ok (t ∷ rest)
