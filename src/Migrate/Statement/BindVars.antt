-- ===== src/Migrate/Statement/BindVars.antt =====
-- How many variables a prepared statement binds.
use transferdb.Prelude.{
  ℕ, zero, suc, ◌+◌, ◌*◌, List, [], ◌∷◌, ◌++◌, replicate, length, if◌then◌else◌, ◌==◌, ◌≡◌, ap, ◌∙◌,
  arith, Bool,
}
use transferdb.Text.{Text, codes, join, strings_builder}
use transferdb.Migrate.Statement.{
  in_brackets, gen_my_sql_insert_sql_stmt_prefix, gen_my_sql_prepare_bind_var_stmt,
  gen_my_sql_table_prepare_stmt,
}

abbrev pub count : ℕ → Text → ℕ
count x [] = 0
count x (c ∷ s) = if c == x then suc (count x s) else count x s

count-append : (x : ℕ) (s t : Text) → count x (s ++ t) ≡ count x s + count x t
count-append x [] t = omega arith
count-append x (c ∷ s) t = ground (arith, count-append x s t)

count-join : (n : ℕ) (p : Text) → count b'?' (join (replicate n p) (codes ",")) ≡ n * count b'?' p
unfolding join
count-join zero p = omega arith
count-join (suc zero) p = omega arith
count-join (suc (suc n)) p = omega (
  arith,
  count-append b'?' p (codes "," ++ join (replicate (suc n) p) (codes ",")),
  count-append b'?' (codes ",") (join (replicate (suc n) p) (codes ",")),
  count-join (suc n) p,
)

count-in_brackets : (n : ℕ) → count b'?' (in_brackets (replicate n (codes "?"))) ≡ n
unfolding in_brackets strings_builder
count-in_brackets n =
    let row = join (replicate n (codes "?")) (codes ",") in
    omega (arith, count-append b'?' row (codes ")" ++ []), count-join n (codes "?"))

-- The variables of a batch: one for each column of each row, whatever their numbers are.
pub count-gen_my_sql_prepare_bind_var_stmt :
    (columns batch : ℕ)
    → count b'?' (gen_my_sql_prepare_bind_var_stmt columns batch) ≡ batch * columns
unfolding gen_my_sql_prepare_bind_var_stmt
count-gen_my_sql_prepare_bind_var_stmt columns batch =
    count-join batch (in_brackets (replicate columns (codes "?")))
    ∙ ap (λ n. batch * n) (count-in_brackets columns)

-- A prepared statement whose names have no question mark binds one variable for each column of each
-- row.
pub count-gen_my_sql_table_prepare_stmt :
    (schema table : Text) (columns : List Text) (batch : ℕ) (safe_mode : Bool)
    → count b'?' (gen_my_sql_insert_sql_stmt_prefix schema table columns safe_mode) ≡ 0
    → count b'?' (gen_my_sql_table_prepare_stmt schema table columns batch safe_mode)
      ≡ batch * length columns
unfolding gen_my_sql_table_prepare_stmt strings_builder
count-gen_my_sql_table_prepare_stmt schema table columns batch safe_mode h =
    let start = gen_my_sql_insert_sql_stmt_prefix schema table columns safe_mode in
    let binds = gen_my_sql_prepare_bind_var_stmt (length columns) batch in
    omega (
      arith,
      h,
      count-append b'?' start (binds ++ []),
      count-append b'?' binds [],
      count-gen_my_sql_prepare_bind_var_stmt (length columns) batch,
    )
