-- ===== src/Migrate/Statement.antt =====
-- module/migrate/sql/oracle/o2m/translate.go: the texts of the INSERT statements.
pub mod BindVars
use transferdb.Prelude.{ℕ, Bool, true, false, List, [], ◌∷◌, replicate, length, if◌then◌else◌}
use transferdb.Text.{Text, codes, join, strings_builder}

-- `GenMySQLInsertSQLStmtPrefix`
unfoldable pub gen_my_sql_insert_sql_stmt_prefix : Text → Text → List Text → Bool → Text
unfolding join strings_builder
gen_my_sql_insert_sql_stmt_prefix schema table columns safe_mode =
    let column = strings_builder (codes " (" ∷ join columns (codes ",") ∷ codes ")" ∷ []) in
    let verb = if safe_mode then codes "REPLACE INTO " else codes "INSERT INTO " in
    strings_builder (verb ∷ schema ∷ codes "." ∷ table ∷ column ∷ codes " VALUES " ∷ [])

-- a row in brackets: `singleBindVar`, and a row of `ProcessData`
unfoldable pub in_brackets : List Text → Text
unfolding join strings_builder
in_brackets cells = strings_builder (codes "(" ∷ join cells (codes ",") ∷ codes ")" ∷ [])

-- `GenMySQLPrepareBindVarStmt`
unfoldable pub gen_my_sql_prepare_bind_var_stmt : ℕ → ℕ → Text
unfolding in_brackets join
gen_my_sql_prepare_bind_var_stmt columns bind_var_batch =
    join (replicate bind_var_batch (in_brackets (replicate columns (codes "?")))) (codes ",")

-- `GenMySQLTablePrepareStmt`
unfoldable pub gen_my_sql_table_prepare_stmt : Text → Text → List Text → ℕ → Bool → Text
gen_my_sql_table_prepare_stmt schema table columns insert_batch_size safe_mode = strings_builder (
    gen_my_sql_insert_sql_stmt_prefix schema table columns safe_mode
    ∷ gen_my_sql_prepare_bind_var_stmt (length columns) insert_batch_size
    ∷ [])
