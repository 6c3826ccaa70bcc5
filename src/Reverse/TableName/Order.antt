-- ===== src/Reverse/TableName/Order.antt =====
-- The map of names, and the order in which the goroutines deliver the tables.
use transferdb.Prelude.{
  Bool, false, ◌||◌, List, [], ◌∷◌, Option, none, some, if◌then◌else◌, ◌≡◌, refl, ap, ◌∙◌, arith,
}
use mathlib.Core.List.{Perm, Permᴰ}
use mathlib.Core.Logic.{∥∥₁_elim}
use mathlib.Core.Bool.{Bool-set}
use transferdb.Text.{Text, text_eq, to_upper}
use transferdb.Text.Laws.{text_eq_iff}
use transferdb.Dict.{Dict, get, set}
use transferdb.Dict.Laws.{get-set}
use transferdb.Reverse.TableName.{
  TableNameRule, or_name, custom_table_name_rule, collect_names, change_table_name,
}

-- whether a table of the list has the name `k` in upper case
abbrev pub has_name : Text → List Text → Bool
has_name k [] = false
has_name k (c ∷ cs) = text_eq (to_upper c) k || has_name k cs

-- the target name of the last rule for `k`, else of `m`
abbrev pub last_rule : Text → List TableNameRule → Option Text → Option Text
last_rule k [] o = o
last_rule k (r ∷ rs) o =
    last_rule k rs
      (if text_eq (to_upper r.table_name_s) k then some (to_upper r.table_name_t) else o)

get-custom :
    (k : Text) (rs : List TableNameRule) (m : Dict Text)
    → get k (custom_table_name_rule rs m) ≡ last_rule k rs (get k m)
unfolding custom_table_name_rule
get-custom k [] m = refl
get-custom k (r ∷ rs) m = rw (get-custom k rs) (rw get-set)

get-collect :
    (custom : Dict Text) (k : Text) (cs : List Text) (names : Dict Text)
    → get k (collect_names custom cs names)
      ≡ (if has_name k cs then some (or_name (get k custom) k) else get k names)
unfolding collect_names
get-collect custom k [] names = refl
get-collect custom k (c ∷ cs) names =
    let v = or_name (get (to_upper c) custom) (to_upper c) in
    ground (
      arith,
      get-collect custom k cs (set (to_upper c) v names),
      get-set (to_upper c) k v names,
      text_eq_iff (to_upper c) k,
    )

-- The map has a name for exactly the tables that arrived, compared in upper case: the target of the
-- last rule for the table, or its own name where there is no rule.
get-change_table_name :
    (rules : List TableNameRule) (arrived : List Text) (k : Text)
    → get k (change_table_name rules arrived)
      ≡ (if has_name k arrived then some (or_name (last_rule k rules none) k) else none)
unfolding change_table_name get
get-change_table_name rules arrived k =
    rw (get-collect (custom_table_name_rule rules []) k arrived [], get-custom k rules [])

has_name-permᴰ : (k : Text) (xs ys : List Text) → Permᴰ xs ys → has_name k xs ≡ has_name k ys
has_name-permᴰ k _ _ Permᴰ.nil = refl
has_name-permᴰ k (a ∷ xs) (b ∷ ys) (Permᴰ.cons e p) = cc (has_name-permᴰ k xs ys p)
has_name-permᴰ k (a ∷ b ∷ l) (a' ∷ b' ∷ _) (Permᴰ.swap e f) =
    ground (arith, ap (λ t. text_eq (to_upper t) k) e, ap (λ t. text_eq (to_upper t) k) f)
has_name-permᴰ k xs zs (Permᴰ.trans {l₂ = ys} p q) =
    has_name-permᴰ k xs ys p ∙ has_name-permᴰ k ys zs q

-- Whatever order the goroutines deliver the tables in, every name has the same target.
change_table_name-perm :
    (rules : List TableNameRule) (xs ys : List Text) (k : Text)
    → Perm xs ys
    → get k (change_table_name rules xs) ≡ get k (change_table_name rules ys)
change_table_name-perm rules xs ys k p = rw (
  get-change_table_name rules xs,
  get-change_table_name rules ys,
  ∥∥₁_elim p (Bool-set (has_name k xs) (has_name k ys)) (has_name-permᴰ k xs ys),
)
