-- ===== src/Reverse/TypeMap/Total.antt =====
-- For which columns the mapping ends without an error under the built-in rules.
use transferdb.Prelude.{
  false, List, [], ◌∷◌, none, some, ok, err, panic, All, Bool-cases, inl, inr, ◌⊎◌, ℤ, ◌≡◌, ◌≢◌,
  refl, arith,
}
use transferdb.Text.{Text, codes, to_upper, contains, atoi, text_eq}
use transferdb.Reverse.TypeMap.{
  DatatypeRule, Column, Mapped, lookup, map_number, need, has_number_target,
}
use transferdb.Reverse.TypeMap.Cases.{
  by_rule, by_length, switch_on, map_type, map_other, map_late, map_early, late_cases, early_cases,
  oracle_table_column_map_my_sql_rule,
}
use transferdb.Reverse.TypeMap.Number.{HasTargets}
use transferdb.Reverse.TypeMap.Builtin.{init_o2m_buildin_datatype_rule as builtin}

-- The mapping returned, without an error and without a panic. The two types that it returns are empty for
-- a NUMBER whose scale is below 0.
abbrev pub IsReturned : Mapped → Type 0
IsReturned (ok _) = Unit
IsReturned (err _) = ⊥
IsReturned panic = ⊥

pub builtin-HasTargets : HasTargets builtin
unfolding builtin lookup has_number_target
builtin-HasTargets = record {
  known = cc;
  tinyint_known = refl;
  smallint_known = refl;
  int_known = refl;
  bigint_known = refl;
  decimal_known = refl;
}

by_rule-IsReturned :
    (rules : List DatatypeRule) (key origin suffix : Text)
    → lookup key rules ≢ none
    → IsReturned (by_rule rules key origin suffix)
unfolding by_rule
by_rule-IsReturned rules key origin suffix h = ground arith

by_length-IsReturned :
    (rules : List DatatypeRule) (key : Text) (c : Column) (len : ℤ)
    → lookup key rules ≢ none
    → IsReturned (by_length rules key c len)
unfolding by_length
by_length-IsReturned rules key c len h = ground arith

switch_on-IsReturned :
    (ty : Text) (cases : List (Text × Mapped)) (other : Mapped)
    → All (λ e. IsReturned e.1) cases
    → IsReturned other
    → IsReturned (switch_on ty cases other)
unfolding switch_on
switch_on-IsReturned ty [] other h k = k
switch_on-IsReturned ty ((name, out) ∷ cases) other (h, hs) k =
    elim (Bool-cases (text_eq ty name)) [
      | inl e ↦ rw e h
      | inr e ↦ rw e (switch_on-IsReturned ty cases other hs k)
    ]

map_number-IsReturned :
    (rules : List DatatypeRule) (p s : ℤ) → HasTargets rules → IsReturned (map_number rules p s)
unfolding map_number need
map_number-IsReturned rules p s has = ground arith

-- The rules name the column's type, or its name speaks of no year interval and no timestamp.
abbrev pub IsNamed : Column → Type 0
IsNamed c =
    (lookup (to_upper c.data_type) builtin ≢ none)
    ⊎ (contains c.data_type (codes "INTERVAL YEAR") ≡ false)
      × (contains c.data_type (codes "TIMESTAMP") ≡ false)

interval_day_known : lookup (codes "INTERVAL DAY") builtin ≢ none
unfolding lookup builtin
interval_day_known = cc

map_other-IsReturned : (c : Column) (s : ℤ) → IsNamed c → IsReturned (map_other builtin c s)
unfolding map_other
map_other-IsReturned c s h = ground (arith, interval_day_known)

late_cases-IsReturned :
    (c : Column) (len p s : ℤ) → All (λ e. IsReturned e.1) (late_cases builtin c len p s)
unfolding late_cases builtin
late_cases-IsReturned c len p s = ground arith

early_cases-IsReturned :
    (c : Column) (len p s : ℤ) → All (λ e. IsReturned e.1) (early_cases builtin c len p s)
unfolding early_cases builtin
early_cases-IsReturned c len p s = ground arith

map_early-IsReturned :
    (c : Column) (ty : Text) (len p s : ℤ)
    → IsReturned (map_other builtin c s)
    → IsReturned (map_early builtin c ty len p s)
unfolding map_early
map_early-IsReturned c ty len p s h =
    switch_on-IsReturned ty (early_cases builtin c len p s) (map_late builtin c ty len p s)
      (early_cases-IsReturned c len p s)
      (switch_on-IsReturned ty (late_cases builtin c len p s) (map_other builtin c s)
        (late_cases-IsReturned c len p s) h)

map_type-IsReturned :
    (c : Column) (len p s : ℤ) → IsNamed c → IsReturned (map_type builtin c len p s)
unfolding map_type
map_type-IsReturned c len p s named = ground (
  arith,
  map_number-IsReturned builtin p s builtin-HasTargets,
  map_early-IsReturned c (to_upper c.data_type) len p s (map_other-IsReturned c s named),
)

-- Under the built-in rules, for a column whose length, precision and scale are readable numbers, the
-- mapping returns without an error and without a panic, if the rules name the type of the column, or if
-- that is no year interval and no timestamp.
pub builtin_total :
    (c : Column) (len p s : ℤ)
    → atoi c.data_length ≡ some len
    → atoi c.data_precision ≡ some p
    → atoi c.data_scale ≡ some s
    → IsNamed c
    → IsReturned (oracle_table_column_map_my_sql_rule c builtin)
unfolding oracle_table_column_map_my_sql_rule
builtin_total c len p s hl hp hs named = ground (arith, map_type-IsReturned c len p s named)
