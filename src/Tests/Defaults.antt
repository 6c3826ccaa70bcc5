-- ===== src/Tests/Defaults.antt =====
-- Tests of the default values of columns, and their theorems at concrete values.
use transferdb.Prelude.{true, false, [], ◌∷◌, ok, ◌≡◌, refl}
use transferdb.Text.{
  codes, text_eq, to_upper, equal_fold, trim_space, trim_left, is_space, index, last_index,
}
use transferdb.Text.Spaces.{IsBlank}
use transferdb.Reverse.DefaultValue.{
  ColumnDefaultval, GlobalDefaultval, slice, strip_first, strip_brackets, column_default,
  global_default, apply_rules, load_column_default_value_rule,
}
use transferdb.Reverse.DefaultValue.Rules.{fits_column, fits_global}

abbrev sysdate : GlobalDefaultval
sysdate = record { default_value_s = codes "SYSDATE"; default_value_t = codes "NOW()" }

abbrev status : ColumnDefaultval
status = record {
  column_name_s = codes "STATUS";
  default_value_s = codes "'A'";
  default_value_t = codes "'active'";
}

test_bracketed :
    load_column_default_value_rule (codes "CREATED") (codes "(sysdate )") [] (sysdate ∷ [])
    ≡ ok (false, codes "NOW()")
unfolding load_column_default_value_rule strip_brackets strip_first slice apply_rules column_default
    global_default index last_index
test_bracketed = unfold equal_fold trim_space trim_left is_space to_upper text_eq in refl

blank : IsBlank (codes " ")
unfolding is_space
blank = (refl, tt)

fits_status : fits_column (codes "status") (codes "'A' ") status ≡ true
unfolding equal_fold trim_space trim_left is_space to_upper text_eq
fits_status = refl

other_column : fits_column (codes "created") (codes "sysdate ") status ≡ false
unfolding equal_fold trim_space trim_left is_space to_upper text_eq
other_column = refl

fits_sysdate : fits_global (codes "sysdate ") sysdate ≡ true
unfolding equal_fold trim_space trim_left is_space to_upper text_eq
fits_sysdate = refl
