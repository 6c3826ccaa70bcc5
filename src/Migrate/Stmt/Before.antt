-- ===== src/Migrate/Stmt/Before.antt =====
-- The old values of a row, from the condition of a statement.
use transferdb.Prelude.{Option, some, if◌then◌else◌, ◌≡◌, refl, ◌∙◌}
use transferdb.Text.{Text, text_eq, to_upper}
use transferdb.Dict.{Dict, get}
use transferdb.Dict.Laws.{get-set}
use transferdb.Migrate.Stmt.{Expr, logic_and, eq, other_expr, before_data}

-- the right side of the last equation for `k`, else `o`
abbrev pub last_equation : (Expr → Text) → Text → Expr → Option Text → Option Text
last_equation restore k (logic_and l r) o = last_equation restore k r (last_equation restore k l o)
last_equation restore k (eq l r) o =
    if text_eq (to_upper (restore l)) k then some (restore r) else o
last_equation restore k (other_expr t) o = o

-- A column has an old value exactly if the condition has an equation for it at the top of its
-- conjunction: the right side of the last one. An expression that is no equation, such as IS NULL,
-- gives none.
pub get-before_data :
    (restore : Expr → Text) (k : Text) (e : Expr) (m : Dict Text)
    → get k (before_data restore e m) ≡ last_equation restore k e (get k m)
unfolding before_data
get-before_data restore k (logic_and l r) m =
    get-before_data restore k r (before_data restore l m) ∙ rw (get-before_data restore k l m) refl
get-before_data restore k (eq l r) m = get-set (to_upper (restore l)) k (restore r) m
get-before_data restore k (other_expr t) m = refl
