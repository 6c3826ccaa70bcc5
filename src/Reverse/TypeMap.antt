-- ===== src/Reverse/TypeMap.antt =====
-- module/reverse/oracle/public/mapping_mysql.go: the built-in MySQL type of an Oracle column,
-- `OracleTableColumnMapMySQLRule`: its maps of rules and the case NUMBER of its `switch`. The text of
-- an error message is replaced by the names that it prints.
pub mod Cases
pub mod Number
pub mod Builtin
pub mod Total
use transferdb.Prelude.{
  ℕ, Bool, true, false, List, [], ◌∷◌, ◌++◌, Option, none, some, ◌&&◌, if◌then◌else◌, Result, ok,
  err, ◌>>=◌, ℤ, pos, leb_ℤ, ltb_ℤ, eqb_ℤ,
}
use transferdb.Text.{
  Text, codes, text_eq, to_upper, equal_fold, contains, split, strings_builder, itoa, itoa_ℕ, atoi,
}

-- `meta.BuildinDatatypeRule`, the two columns that are read here
pub record DatatypeRule : Type 0 where
  pub datatype_name_s : Text
  pub datatype_name_t : Text

pub record ColumnInfo : Type 0 where
  pub data_length : Text
  pub data_precision : Text
  pub data_scale : Text
  pub datetime_precision : Text
  pub nullable : Text
  pub data_default : Text
  pub comment : Text

pub record Column : Type 0 where
  pub data_type : Text
  pub char_length : Text
  pub char_used : Text
  pub character_set : Text
  pub collation : Text
  pub oracle_origin_data_default : Text
  pub my_sql_origin_data_default : Text
  pub column_info : ColumnInfo
  pub open column_info use *

pub data MapError : Type 0 where
  not_a_number : Text → MapError
  no_rule : Text → MapError
  no_target : Text → Text → MapError

-- The original type and the built-in type, or an error.
abbrev pub Mapped : Type 0
Mapped = Result MapError (Text × Text)

-- `buildinDatatypeMap`: a later rule of the same name replaces an earlier one.
unfoldable pub lookup : Text → List DatatypeRule → Option Text
unfolding text_eq to_upper
lookup key [] = none
lookup key (r ∷ rs) = elim (lookup key rs) [
  | some t ↦ some t
  | none ↦ if text_eq (to_upper r.datatype_name_s) key then some r.datatype_name_t else none
]

unfoldable pub mem_upper : Text → List Text → Bool
unfolding text_eq to_upper
mem_upper name [] = false
mem_upper name (t ∷ ts) = if text_eq (to_upper t) name then true else mem_upper name ts

-- whether `numberDatatypeMap` has a name: the targets of every NUMBER rule, cut at each /
unfoldable pub has_number_target : Text → List DatatypeRule → Bool
unfolding mem_upper split equal_fold to_upper
has_number_target name [] = false
has_number_target name (r ∷ rs) =
    if equal_fold (to_upper r.datatype_name_s) (codes "NUMBER")
      && mem_upper name (split r.datatype_name_t (codes "/"))
    then true
    else has_number_target name rs

-- fmt.Sprintf("%s(%d,%d)")
unfoldable pub with_two : Text → ℤ → ℤ → Text
unfolding strings_builder itoa
with_two name a b =
    strings_builder (name ∷ codes "(" ∷ itoa a ∷ codes "," ∷ itoa b ∷ codes ")" ∷ [])

-- fmt.Sprintf("%s(%d)")
unfoldable pub with_one : Text → ℤ → Text
unfolding strings_builder itoa
with_one name a = strings_builder (name ∷ codes "(" ∷ itoa a ∷ codes ")" ∷ [])

-- fmt.Sprintf("%s(%s)")
unfoldable pub with_text : Text → Text → Text
unfolding strings_builder
with_text name a = strings_builder (name ∷ codes "(" ∷ a ∷ codes ")" ∷ [])

-- `target` if `numberDatatypeMap` has `name`, else an error
unfoldable pub need : List DatatypeRule → Text → Text → Text → Mapped
need rules name origin target =
    if has_number_target name rules then ok (origin, target) else err (no_target origin name)

unfoldable pub map_fraction : List DatatypeRule → ℤ → ℤ → Mapped
unfolding need with_two
map_fraction rules p s =
    let origin = with_two (codes "NUMBER") p s in
    let decimal = codes "DECIMAL" in
    if eqb_ℤ p (pos 38) && ltb_ℤ (pos 30) s
    then need rules decimal origin (with_two decimal (pos 65) (pos 30))
    else if eqb_ℤ p (pos 38) && leb_ℤ s (pos 30)
    then need rules decimal origin (with_two decimal (pos 65) s)
    else if leb_ℤ s (pos 30)
    then need rules decimal origin (with_two decimal p s)
    else need rules decimal origin (with_two decimal p (pos 30))

unfoldable pub map_whole : List DatatypeRule → ℤ → ℤ → Mapped
unfolding need with_two with_one
map_whole rules p s =
    let origin = with_two (codes "NUMBER") p s in
    let decimal = codes "DECIMAL" in
    if leb_ℤ (pos 1) p && ltb_ℤ p (pos 3)
    then need rules (codes "TINYINT") origin (codes "TINYINT")
    else if leb_ℤ (pos 3) p && ltb_ℤ p (pos 5)
    then need rules (codes "SMALLINT") origin (codes "SMALLINT")
    else if leb_ℤ (pos 5) p && ltb_ℤ p (pos 9)
    then need rules (codes "INT") origin (codes "INT")
    else if leb_ℤ (pos 9) p && ltb_ℤ p (pos 19)
    then need rules (codes "BIGINT") origin (codes "BIGINT")
    else if leb_ℤ (pos 19) p && leb_ℤ p (pos 38)
    then need rules decimal origin (with_one decimal p)
    else need rules decimal origin (with_two decimal (pos 65) s)

-- The NUMBER case. A negative scale meets neither case of the inner switch.
unfoldable pub map_number : List DatatypeRule → ℤ → ℤ → Mapped
unfolding lookup map_fraction map_whole
map_number rules p s = elim (lookup (codes "NUMBER") rules) [
  | none ↦ err (no_rule (codes "NUMBER"))
  | some _ ↦
      if ltb_ℤ (pos 0) s
      then map_fraction rules p s
      else if eqb_ℤ s (pos 0)
      then map_whole rules p s
      else ok ([], [])
]
