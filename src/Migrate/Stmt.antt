-- ===== src/Migrate/Stmt.antt =====
-- module/migrate/sql/oracle/public/sqlparser.go: what the translation takes from the syntax tree of a
-- statement. The parser (pingcap/tidb/parser) and `Restore` are parameters; of its trees the model
-- has the nodes that `Enter` and `beforeData` tell apart.
pub mod Before
use transferdb.Prelude.{
  ℕ, zero, suc, List, [], ◌∷◌, ◌++◌, Option, none, some, Result, ok, err, panic, ◌>>=◌,
}
use transferdb.Text.{Text, codes, to_upper, strings_builder}
use transferdb.Dict.{Dict, set}

-- ast.ExprNode: a conjunction, an equation, or another expression
pub data Expr : Type 0 where
  logic_and : Expr → Expr → Expr
  eq : Expr → Expr → Expr
  other_expr : Text → Expr

-- ast.StmtNode
pub data Node : Type 0 where
  update_stmt : Option Expr → Node
  insert_stmt : List Text → List (List Expr) → Node
  delete_stmt : Option Expr → Node
  truncate_table_stmt : Node
  drop_table_stmt : Node
  other_stmt : Node

pub record Stmt : Type 0 where
  pub columns : List Text
  pub operation : Text
  pub stmt_data : Dict Text
  pub before : Dict Text
  pub where_expr : Text

pub data IncrError : Type 0 where
  no_redo : IncrError
  parse_error : IncrError

-- a column of an INSERT in back quotes
unfoldable pub insert_column : Text → Text
insert_column col = strings_builder (codes "`" ∷ to_upper col ∷ codes "`" ∷ [])

abbrev pub nth : ℕ → List Expr → Result IncrError Expr
nth i [] = panic
nth zero (e ∷ es) = ok e
nth (suc i) (e ∷ es) = nth i es

-- the columns of an INSERT
unfoldable pub insert_names : List Text → List Text
unfolding insert_column
insert_names [] = []
insert_names (col ∷ cols) = insert_column col ∷ insert_names cols

-- a statement with a name alone
abbrev pub plain_stmt : Text → Stmt
plain_stmt name = record {
  columns = [];
  operation = name;
  stmt_data = [];
  before = [];
  where_expr = [];
}

module _ (restore : Expr → Text) where
  -- `beforeData`
  unfoldable pub before_data : Expr → Dict Text → Dict Text
  before_data (logic_and l r) before = before_data r (before_data l before)
  before_data (eq l r) before = set (to_upper (restore l)) (restore r) before
  before_data (other_expr t) before = before

  -- the loop over `node.Lists` for one column
  unfoldable pub insert_lists :
      Text → ℕ → List (List Expr) → Dict Text → Result IncrError (Dict Text)
  insert_lists col i [] m = ok m
  insert_lists col i (l ∷ lists) m = do
    e ← nth i l
    insert_lists col i lists (set (insert_column col) (restore e) m)

  -- the loop over `node.Columns`
  unfoldable pub insert_columns :
      List Text → ℕ → List (List Expr) → Dict Text → Result IncrError (Dict Text)
  unfolding insert_lists
  insert_columns [] i lists m = ok m
  insert_columns (col ∷ cols) i lists m = do
    m₁ ← insert_lists col i lists m
    insert_columns cols (suc i) lists m₁

  unfoldable pub where_text : Option Expr → Text
  where_text none = []
  where_text (some e) = codes "WHERE " ++ restore e

  unfoldable pub where_before : Option Expr → Dict Text
  unfolding before_data
  where_before none = []
  where_before (some e) = before_data e []

  -- `ExtractStmt` with `Enter`; the names of the schema and the table are replaced by the translation
  unfoldable pub extract_stmt : Node → Result IncrError Stmt
  unfolding insert_columns where_text where_before
  extract_stmt (update_stmt w) = ok (record {
    columns = [];
    operation = codes "UPDATE";
    stmt_data = [];
    before = where_before w;
    where_expr = where_text w;
  })
  extract_stmt (insert_stmt cols lists) = do
    m ← insert_columns cols 0 lists []
    ok (record {
      columns = insert_names cols;
      operation = codes "INSERT";
      stmt_data = m;
      before = [];
      where_expr = [];
    })
  extract_stmt (delete_stmt w) = ok (record {
    columns = [];
    operation = codes "DELETE";
    stmt_data = [];
    before = where_before w;
    where_expr = where_text w;
  })
  extract_stmt truncate_table_stmt = ok (plain_stmt (codes "TRUNCATE"))
  extract_stmt drop_table_stmt = ok (plain_stmt (codes "DROP"))
  extract_stmt other_stmt = ok (plain_stmt [])
