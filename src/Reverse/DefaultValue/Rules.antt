-- ===== src/Reverse/DefaultValue/Rules.antt =====
-- The priority of the default value rules: a column's rules, the global rules, the database.
use transferdb.Prelude.{
  Bool, true, false, ◌&&◌, List, [], ◌∷◌, ◌++◌, none, some, All, ◌≡◌, refl, arith,
}
use transferdb.Text.{Text, equal_fold, trim_space}
use transferdb.Reverse.DefaultValue.{
  ColumnDefaultval, GlobalDefaultval, column_default, global_default, apply_rules,
}

-- Whether a rule speaks of the column and the value, blanks and case apart.
abbrev pub fits_column : Text → Text → ColumnDefaultval → Bool
fits_column name value r =
    equal_fold name r.column_name_s && equal_fold (trim_space r.default_value_s) (trim_space value)

abbrev pub fits_global : Text → GlobalDefaultval → Bool
fits_global value r = equal_fold (trim_space r.default_value_s) (trim_space value)

column_default-first :
    (name value : Text) (before after : List ColumnDefaultval) (r : ColumnDefaultval)
    → All (λ q. fits_column name value q ≡ false) before
    → fits_column name value r ≡ true
    → column_default name value (before ++ r ∷ after) ≡ some r.default_value_t
unfolding column_default
column_default-first name value [] after r hs h = ground arith
column_default-first name value (q ∷ before) after r (hq, hs) h =
    ground (arith, column_default-first name value before after r hs h)

column_default-none :
    (name value : Text) (rs : List ColumnDefaultval)
    → All (λ q. fits_column name value q ≡ false) rs
    → column_default name value rs ≡ none
unfolding column_default
column_default-none name value [] hs = refl
column_default-none name value (q ∷ rs) (hq, hs) =
    ground (arith, column_default-none name value rs hs)

global_default-first :
    (value : Text) (before after : List GlobalDefaultval) (r : GlobalDefaultval)
    → All (λ q. fits_global value q ≡ false) before
    → fits_global value r ≡ true
    → global_default value (before ++ r ∷ after) ≡ some r.default_value_t
unfolding global_default
global_default-first value [] after r hs h = ground arith
global_default-first value (q ∷ before) after r (hq, hs) h =
    ground (arith, global_default-first value before after r hs h)

-- The first rule of a column that fits gives the value, whatever the global rules are.
apply_rules-column :
    (name value : Text) (before after : List ColumnDefaultval) (r : ColumnDefaultval)
    (globals : List GlobalDefaultval)
    → All (λ q. fits_column name value q ≡ false) before
    → fits_column name value r ≡ true
    → apply_rules name value (before ++ r ∷ after) globals ≡ (false, r.default_value_t)
unfolding apply_rules
apply_rules-column name value [] after r globals hs h =
    ground (arith, column_default-first name value [] after r hs h)
apply_rules-column name value (q ∷ before) after r globals hs h =
    ground (arith, column_default-first name value (q ∷ before) after r hs h)

-- Where no rule of a column fits, the first global rule that fits gives the value.
pub apply_rules-global :
    (name value : Text) (columns : List ColumnDefaultval) (before after : List GlobalDefaultval)
    (r : GlobalDefaultval)
    → All (λ q. fits_column name value q ≡ false) columns
    → All (λ q. fits_global value q ≡ false) before
    → fits_global value r ≡ true
    → apply_rules name value columns (before ++ r ∷ after) ≡ (false, r.default_value_t)
unfolding apply_rules
apply_rules-global name value [] [] after r hc hs h =
    ground (arith, global_default-first value [] after r hs h, column_default-none name value [] hc)
apply_rules-global name value [] (q ∷ before) after r hc hs h = ground (
  arith,
  global_default-first value (q ∷ before) after r hs h,
  column_default-none name value [] hc,
)
apply_rules-global name value (c ∷ cs) before after r hc hs h = ground (
  arith,
  global_default-first value before after r hs h,
  column_default-none name value (c ∷ cs) hc,
)
