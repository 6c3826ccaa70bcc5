-- ===== src/Tests/Columns.antt =====
-- Tests of the texts of columns, and the theorem on their comments.
use transferdb.Prelude.{
  ℕ, String, Bool, true, false, [], ◌∷◌, ◌++◌, Option, none, some, ok, panic, ◌≡◌, refl,
}
use transferdb.Text.{Text, codes, text_eq, to_lower, to_upper, equal_fold, has_prefix}
use transferdb.Dict.{get}
use transferdb.Common.Charset.{charset_convert}
use transferdb.Common.Escape.{
  special_letters_using_my_sql, escape_rune, is_special, is_punct_or_symbol_ascii,
}
use transferdb.Common.Escape.RoundTrip.{inside, read_my_sql}
use transferdb.Reverse.Columns.{
  ColumnMeta, ColumnRules, column_collation, column_default_text, column_comment, column_head,
  column_name_of, column_text, gen_column, gen_table_column, without_quotes,
  migrate_oracle_charset_string_convert_mapping,
  migrate_mysql_compatible_charset_string_convert_mapping,
}
use transferdb.Reverse.Columns.Comment.{column_comment-read}

abbrev no_coder : Text → Text → Option Text
no_coder _ _ = none

abbrev none_beyond : ℕ → Bool
none_beyond _ = false

abbrev name_column : String → ColumnMeta
name_column comment = record {
  column_name = codes "NAME";
  nullable = codes "N";
  comments = codes comment;
  collation = [];
}

abbrev rules_of : String → ColumnRules
rules_of value = record {
  lower_case_field_name = codes "1";
  oracle_collation = false;
  source_db_charset = codes "AL32UTF8";
  target_db_charset = codes "utf8mb4";
  table_column_datatype_rule = (codes "NAME", codes "VARCHAR(9)") ∷ [];
  table_column_default_val_rule = (codes "NAME", codes value) ∷ [];
  table_column_default_val_source_rule = (codes "NAME", true) ∷ [];
}

column_comment-read_example :
    (head body : Text) × ((gen_column no_coder no_coder none_beyond
          (rules_of "'x'")
          (name_column "its 'name'")
        ≡ ok (head ++ (codes " COMMENT '" ++ body)))
      × (read_my_sql inside body ≡ some (codes "its 'name'", [])))
unfolding get text_eq to_upper migrate_oracle_charset_string_convert_mapping
    migrate_mysql_compatible_charset_string_convert_mapping column_collation column_default_text
    has_prefix without_quotes charset_convert equal_fold
column_comment-read_example =
    column_comment-read no_coder no_coder none_beyond (rules_of "'x'") (name_column "its 'name'") []
      (codes "VARCHAR(9)") (codes "'x'") (codes "'x'") true refl refl refl refl refl refl refl refl

plain_column :
    gen_table_column no_coder no_coder none_beyond (rules_of "'x'") (name_column "it's" ∷ [])
    ≡ ok (codes "`name` VARCHAR(9) NOT NULL DEFAULT 'x' COMMENT 'it\\'s'" ∷ [])
unfolding gen_table_column gen_column column_text column_head column_name_of column_comment get
    text_eq to_upper to_lower migrate_oracle_charset_string_convert_mapping
    migrate_mysql_compatible_charset_string_convert_mapping column_collation column_default_text
    has_prefix without_quotes charset_convert equal_fold special_letters_using_my_sql escape_rune
    is_special is_punct_or_symbol_ascii
plain_column = refl

-- no default value
nullstring_column :
    gen_column no_coder no_coder none_beyond (rules_of "NULLSTRING") (name_column "")
    ≡ ok (codes "`name` VARCHAR(9) NOT NULL")
unfolding gen_column column_text column_head column_name_of column_comment get text_eq to_upper
    to_lower migrate_oracle_charset_string_convert_mapping
    migrate_mysql_compatible_charset_string_convert_mapping column_collation column_default_text
    has_prefix without_quotes charset_convert equal_fold
nullstring_column = refl

-- a default value that is one quote
quote_column : gen_column no_coder no_coder none_beyond (rules_of "'") (name_column "") ≡ panic
unfolding gen_column column_comment get text_eq column_collation column_default_text has_prefix
    without_quotes
quote_column = refl
