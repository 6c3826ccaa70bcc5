-- ===== src/Reverse/DefaultValue.antt =====
-- module/reverse/oracle/public/rule_load.go, `LoadColumnDefaultValueRule`, and the loop of
-- `ChangeTableColumnDefaultValue` over the columns of a table: the default value of a column.
pub mod Brackets
pub mod Rules
use transferdb.Prelude.{
  ℕ, zero, suc, ◌+◌, ◌-◌, Bool, true, false, ◌&&◌, List, [], ◌∷◌, Option, none, some, length, take,
  drop, leb, ◌==◌, if◌then◌else◌, Result, ok, err, panic, ◌>>=◌,
}
use transferdb.Text.{Text, codes, text_eq, equal_fold, trim_space, index, last_index}
use transferdb.Dict.{Dict, set}

-- `meta.BuildinColumnDefaultval` and `meta.BuildinGlobalDefaultval`, the fields that are read
pub record ColumnDefaultval : Type 0 where
  pub column_name_s : Text
  pub default_value_s : Text
  pub default_value_t : Text

pub record GlobalDefaultval : Type 0 where
  pub default_value_s : Text
  pub default_value_t : Text

-- the name of the column and its default value
pub data DefaultError : Type 0 where
  rule_failed : Text → Text → DefaultError

-- s[lo:hi]
unfoldable pub slice : Text → ℕ → ℕ → Result DefaultError Text
slice s lo hi = if leb lo hi && leb hi (length s) then ok (take (hi - lo) (drop lo s)) else panic

abbrev pub is_text : Text → Text → Bool
is_text s t = length s == 1 && equal_fold s t

-- The branch where the first opening bracket stands at 0 and the last closing one at `last`.
unfoldable pub strip_first : Text → Text → ℕ → Result DefaultError Text
strip_first name s last =
    if length s - last == 0
    then slice s 1 last
    else if is_text (trim_space (drop last s)) (codes ")")
    then slice s 1 last
    else err (rule_failed name s)

-- The branch where it stands behind 0.
unfoldable pub strip_later : Text → ℕ → ℕ → Result DefaultError Text
strip_later s first last =
    let left = trim_space (take (first + 1) s) in
    if is_text left (codes "(")
    then slice s first last
    else if is_text left (codes "'(")
    then ok s
    else ok s

unfoldable pub strip_brackets : Text → Text → Result DefaultError Text
unfolding strip_first strip_later
strip_brackets name s = elim (index s b'(') [
  | none ↦ ok s
  | some first ↦ elim (last_index s b')') [
    | none ↦ ok s
    | some last ↦ if first == 0 then strip_first name s last else strip_later s first last
  ]
]

unfoldable pub column_default : Text → Text → List ColumnDefaultval → Option Text
unfolding equal_fold
column_default name value [] = none
column_default name value (dv ∷ dvs) =
    if equal_fold name dv.column_name_s
      && equal_fold (trim_space dv.default_value_s) (trim_space value)
    then some dv.default_value_t
    else column_default name value dvs

unfoldable pub global_default : Text → List GlobalDefaultval → Option Text
unfolding equal_fold
global_default value [] = none
global_default value (dv ∷ dvs) =
    if equal_fold (trim_space dv.default_value_s) (trim_space value)
    then some dv.default_value_t
    else global_default value dvs

-- the part behind the brackets: the rules of the columns, then the global rules
unfoldable pub apply_rules :
    Text → Text → List ColumnDefaultval → List GlobalDefaultval → Bool × Text
apply_rules name value [] [] = (true, value)
apply_rules name value columns globals = elim (column_default name value columns) [
  | some t ↦ (false, t)
  | none ↦ elim (global_default value globals) [
    | some t ↦ (false, t)
    | none ↦ (true, trim_space value)
  ]
]

-- The flag says that the value comes from the database and not from a rule.
unfoldable pub load_column_default_value_rule :
    Text → Text → List ColumnDefaultval → List GlobalDefaultval → Result DefaultError (Bool × Text)
load_column_default_value_rule name s columns globals = do
  value ← strip_brackets name s
  ok (apply_rules name value columns globals)

-- The loop of `ChangeTableColumnDefaultValue` over the columns of one table, each a name with a
-- default value: the map of sources and the map of values.
unfoldable pub column_defaults :
    List ColumnDefaultval
    → List GlobalDefaultval
    → List (Text × Text)
    → Dict Bool
    → Dict Text
    → Result DefaultError (Dict Bool × Dict Text)
column_defaults cs gs [] sources values = ok (sources, values)
column_defaults cs gs ((name, s) ∷ rows) sources values = do
  (from_db, value) ← load_column_default_value_rule name s cs gs
  column_defaults cs gs rows (set name from_db sources) (set name value values)
