-- ===== src/Migrate/Translate/Insert.antt =====
-- What an INSERT becomes.
use transferdb.Prelude.{
  suc, List, [], ◌∷◌, ◌++◌, append_assoc, map, length, length-append, Option, some, ok, ◌≡◌, refl,
  sym, ap, ◌∙◌, arith,
}
use transferdb.Text.{Text, codes}
use transferdb.Dict.{Dict, set}
use transferdb.Dict.Fill.{fill, AreDistinct, Holds, fill-Holds}
use transferdb.Migrate.Stmt.{
  Expr, Node, insert_stmt, nth, insert_column, insert_names, insert_lists, insert_columns,
  extract_stmt,
}
use transferdb.Migrate.Translate.{
  values_of, replace_sql, parse_stmt, translate_stmt, translate_insert,
  translate_oracle_to_my_sql_sql,
}

pub values_of-Holds : (ks vs : List Text) (m : Dict Text) → Holds ks vs m → values_of ks m ≡ ok vs
unfolding values_of
values_of-Holds [] [] m _ = refl
values_of-Holds [] (v ∷ vs) m bad = absurd bad
values_of-Holds (k ∷ ks) [] m bad = absurd bad
values_of-Holds (k ∷ ks) (v ∷ vs) m (h, hs) = rw (h, values_of-Holds ks vs m hs)

nth-append : (pre : List Expr) (e : Expr) (es : List Expr) → nth (length pre) (pre ++ e ∷ es) ≡ ok e
nth-append [] e es = refl
nth-append (p ∷ pre) e es = nth-append pre e es

length-insert_names : (cols : List Text) → length (insert_names cols) ≡ length cols
unfolding insert_names
length-insert_names [] = refl
length-insert_names (c ∷ cols) = ap suc (length-insert_names cols)

module _ (restore : Expr → Text) where
  length-map-restore : (es : List Expr) → length (map restore es) ≡ length es
  length-map-restore [] = refl
  length-map-restore (e ∷ es) = ap suc (length-map-restore es)

  insert_columns-fill :
      (cols : List Text) (pre es : List Expr) (m : Dict Text)
      → length es ≡ length cols
      → insert_columns restore cols (length pre) ((pre ++ es) ∷ []) m
        ≡ ok (fill (insert_names cols) (map restore es) m)
  unfolding insert_columns insert_lists insert_names
  insert_columns-fill [] pre [] m h = refl
  insert_columns-fill [] pre (e ∷ es) m h = absurd (omega (arith, h))
  insert_columns-fill (c ∷ cols) pre [] m h = absurd (omega (arith, h))
  insert_columns-fill (c ∷ cols) pre (e ∷ es) m h =
      let next = set (insert_column c) (restore e) m in
      let n : suc (length pre) ≡ length (pre ++ e ∷ []) =
        omega (arith, length-append pre (e ∷ [])) in
      rw (nth-append pre e es) (
        ap (λ i. insert_columns restore cols i ((pre ++ e ∷ es) ∷ []) next) n
        ∙ ap (λ l. insert_columns restore cols (length (pre ++ e ∷ [])) (l ∷ []) next)
            (sym (append_assoc pre (e ∷ []) es))
        ∙ insert_columns-fill cols (pre ++ e ∷ []) es next (omega (arith, h)))

  extract_insert :
      (cols : List Text) (es : List Expr)
      → length es ≡ length cols
      → extract_stmt restore (insert_stmt cols (es ∷ []))
        ≡ ok (record {
          columns = insert_names cols;
          operation = codes "INSERT";
          stmt_data = fill (insert_names cols) (map restore es) [];
          before = [];
          where_expr = [];
        })
  unfolding extract_stmt
  extract_insert cols es h = rw (insert_columns-fill cols [] es [] h) refl

module _ (parse : Text → Option (List Node)) (restore : Expr → Text)
    (range : List Text → List Text) where
  pub parse_stmt-node :
      (sql : Text) (node : Node)
      → parse sql ≡ some (node ∷ [])
      → parse_stmt parse restore range sql ≡ extract_stmt restore node
  unfolding parse_stmt
  parse_stmt-node sql node h = ground arith

  -- An INSERT of one row, with a value for each of its columns and no column named twice, becomes one
  -- REPLACE into the target table of the same values under the same columns, in upper case and in
  -- back quotes.
  pub translated_insert :
      (redo undo schema table : Text) (cols : List Text) (es : List Expr)
      → parse redo ≡ some (insert_stmt cols (es ∷ []) ∷ [])
      → length es ≡ length cols
      → AreDistinct (insert_names cols)
      → translate_oracle_to_my_sql_sql parse restore range redo undo schema table
        ≡ ok (replace_sql schema table (insert_names cols) (map restore es) ∷ [], codes "INSERT")
  unfolding translate_oracle_to_my_sql_sql translate_stmt translate_insert
  translated_insert redo undo schema table cols es p h d =
      let ks = insert_names cols in
      let vs = map restore es in
      let n : length vs ≡ length ks =
        length-map-restore restore es ∙ h ∙ sym (length-insert_names cols) in
      rw
        (
          parse_stmt-node redo (insert_stmt cols (es ∷ [])) p,
          extract_insert restore cols es h,
          values_of-Holds ks vs (fill ks vs []) (fill-Holds ks vs [] d n),
        )
        refl
