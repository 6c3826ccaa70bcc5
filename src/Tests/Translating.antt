-- ===== src/Tests/Translating.antt =====
-- Tests of the translation of statements, and its theorems at a table of employees.
use transferdb.Prelude.{String, List, [], ◌∷◌, ◌++◌, map, Option, none, some, ok, ◌≡◌, refl}
use mathlib.Core.List.{Memᴰ}
use transferdb.Text.{Text, codes, text_eq, to_upper, strings_builder}
use transferdb.Dict.{get, set}
use transferdb.Dict.Fill.{AreDistinct}
use transferdb.Migrate.Stmt.{
  Expr, logic_and, eq, other_expr, Node, update_stmt, insert_stmt, insert_column, insert_names,
  before_data, where_before,
}
use transferdb.Migrate.Translate.{replace_sql, delete_sql, translate_oracle_to_my_sql_sql}
use transferdb.Migrate.Translate.Insert.{translated_insert}
use transferdb.Migrate.Translate.Update.{update_columns, Row, column, translated_update}

abbrev restore : Expr → Text
restore (logic_and l r) = restore l ++ (codes " AND " ++ restore r)
restore (eq l r) = restore l ++ (codes "=" ++ restore r)
restore (other_expr t) = t

abbrev equation : String → String → Expr
equation c v = eq (other_expr (codes c)) (other_expr (codes v))

abbrev as_is : List Text → List Text
as_is ks = ks

abbrev insert_node : Node
insert_node =
    insert_stmt (codes "id" ∷ codes "name" ∷ [])
      ((other_expr (codes "7") ∷ other_expr (codes "'Ann'") ∷ []) ∷ [])

abbrev parse_as : Node → Text → Option (List Node)
parse_as n _ = some (n ∷ [])

insert_distinct : AreDistinct (insert_names (codes "id" ∷ codes "name" ∷ []))
unfolding insert_names insert_column to_upper text_eq strings_builder
insert_distinct = ((refl, tt), (tt, tt))

translated_insert_example :
    translate_oracle_to_my_sql_sql
      (parse_as insert_node)
      restore
      as_is
      (codes "insert")
      []
      (codes "HR")
      (codes "EMP")
    ≡ ok (
      replace_sql
            (codes "HR")
            (codes "EMP")
            (insert_names (codes "id" ∷ codes "name" ∷ []))
            (map restore (other_expr (codes "7") ∷ other_expr (codes "'Ann'") ∷ []))
          ∷ [],
      codes "INSERT",
    )
translated_insert_example =
    translated_insert (parse_as insert_node) restore as_is (codes "insert") [] (codes "HR")
      (codes "EMP") (codes "id" ∷ codes "name" ∷ [])
      (other_expr (codes "7") ∷ other_expr (codes "'Ann'") ∷ []) refl refl insert_distinct

-- an UPDATE of the name from Ann to Bob, and one of the name to NULL
abbrev old_row : Expr
old_row = logic_and (equation "`ID`" "7") (equation "`NAME`" "'Ann'")

abbrev new_row : Expr
new_row = logic_and (equation "`ID`" "7") (equation "`NAME`" "'Bob'")

abbrev null_row : Expr
null_row = logic_and (equation "`ID`" "7") (other_expr (codes "`NAME` IS NULL"))

abbrev parse_update : Expr → Text → Option (List Node)
parse_update undo [] = some (update_stmt (some undo) ∷ [])
parse_update undo (c ∷ s) = some (update_stmt (some old_row) ∷ [])

abbrev side : String → Expr
side t = other_expr (codes t)

-- the columns of the row, in the other order
abbrev bob_row : Row
bob_row = (side "`NAME`", side "'Bob'") ∷ (side "`ID`", side "7") ∷ []

row_distinct :
    AreDistinct
      (map (column restore) ((side "`ID`", side "7") ∷ (side "`NAME`", side "'Ann'") ∷ []))
unfolding to_upper text_eq
row_distinct = ((refl, tt), (tt, tt))

new_row_distinct :
    AreDistinct
      (map (column restore) ((side "`ID`", side "7") ∷ (side "`NAME`", side "'Bob'") ∷ []))
unfolding to_upper text_eq
new_row_distinct = ((refl, tt), (tt, tt))

abbrev swapped : List Text → List Text
swapped (a ∷ b ∷ ks) = b ∷ a ∷ ks
swapped (a ∷ []) = a ∷ []
swapped [] = []

translated_update_example :
    translate_oracle_to_my_sql_sql
      (parse_update new_row)
      restore
      swapped
      (codes "update")
      []
      (codes "HR")
      (codes "EMP")
    ≡ ok (
      delete_sql (codes "HR") (codes "EMP") (codes "WHERE " ++ restore old_row)
          ∷ replace_sql
              (codes "HR")
              (codes "EMP")
              (codes "`NAME`" ∷ codes "`ID`" ∷ [])
              (codes "'Bob'" ∷ codes "7" ∷ [])
          ∷ [],
      codes "UPDATE",
    )
unfolding to_upper
translated_update_example =
    translated_update restore (parse_update new_row) swapped (codes "update") [] (codes "HR")
      (codes "EMP") (side "`ID`") (side "7") (side "`ID`") (side "7")
      ((side "`NAME`", side "'Ann'") ∷ []) ((side "`NAME`", side "'Bob'") ∷ []) bob_row refl refl
      row_distinct new_row_distinct refl (Memᴰ.tail (Memᴰ.head refl), (Memᴰ.head refl, tt))

null_columns :
    update_columns
      (parse_update null_row)
      restore
      as_is
      (codes "update")
      []
      (codes "HR")
      (codes "EMP")
      (some old_row)
      (some null_row)
      refl
      refl
    ≡ (codes "`ID`" ∷ []) ++ codes "`NAME`" ∷ []
unfolding where_before before_data set to_upper text_eq
null_columns = refl

no_name : get (codes "`NAME`") (where_before restore (some null_row)) ≡ none
unfolding where_before before_data get set to_upper text_eq
no_name = refl
