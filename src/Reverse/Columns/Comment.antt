-- ===== src/Reverse/Columns/Comment.antt =====
-- The comment of a column in its text.
use transferdb.Prelude.{ℕ, Bool, false, [], ◌∷◌, ◌++◌, Option, some, ok, ◌≡◌, refl}
use transferdb.Text.{Text, codes, text_eq, to_upper, equal_fold}
use transferdb.Dict.{get}
use transferdb.Common.Charset.{charset_convert}
use transferdb.Common.Escape.{special_letters_using_my_sql}
use transferdb.Common.Escape.RoundTrip.{inside, read_my_sql, read-special_letters_using_my_sql}
use transferdb.Reverse.Columns.{
  ColumnMeta, ColumnRules, in_quotes, source_charset, target_charset, column_comment,
  column_collation, column_default_text, column_head, column_text, gen_column,
}

module _ (encode decode : Text → Text → Option Text) (beyond : ℕ → Bool) (r : ColumnRules)
    (c : ColumnMeta) where
  -- the comment of a column that is not changed by a character set
  utf8_comment :
      text_eq c.comments [] ≡ false
      → source_charset encode decode beyond r ≡ codes "UTF8MB4"
      → target_charset encode decode beyond r ≡ codes "UTF8MB4"
      → column_comment encode decode beyond r c
        ≡ ok (in_quotes (special_letters_using_my_sql beyond c.comments))
  unfolding column_comment charset_convert equal_fold text_eq to_upper
  utf8_comment n s t = rw (n, s, t) refl

  -- Between databases in UTF8, the text of a column with a comment, whose collation, type and default
  -- value are known, ends in a COMMENT clause; what stands behind its opening quote MySQL reads as the
  -- comment of the dictionary, up to the end of the text.
  pub column_comment-read :
      (collation column_type value default : Text) (from_source : Bool)
      → text_eq c.comments [] ≡ false
      → source_charset encode decode beyond r ≡ codes "UTF8MB4"
      → target_charset encode decode beyond r ≡ codes "UTF8MB4"
      → column_collation r c ≡ ok collation
      → get c.column_name r.table_column_datatype_rule ≡ some column_type
      → get c.column_name r.table_column_default_val_source_rule ≡ some from_source
      → get c.column_name r.table_column_default_val_rule ≡ some value
      → column_default_text encode decode beyond r c from_source value ≡ ok default
      → (head body : Text) × ((gen_column encode decode beyond r c
            ≡ ok (head ++ (codes " COMMENT '" ++ body)))
          × (read_my_sql inside body ≡ some (c.comments, [])))
  unfolding gen_column column_text text_eq
  column_comment-read collation column_type value default from_source n s t hc ht hs hv hd = (
    column_head r c column_type collation default,
    special_letters_using_my_sql beyond c.comments ++ b'\'' ∷ [],
    (
      rw (hc, ht, utf8_comment n s t, hs, hv, hd) refl,
      read-special_letters_using_my_sql beyond c.comments [] refl,
    ),
  )
