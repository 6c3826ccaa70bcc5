-- ===== src/Reverse/Keys.antt =====
-- module/reverse/oracle/o2m/rule.go: the texts of the keys of a table. The rows of the dictionary are
-- records. Parameters: package regexp, for the two tests of a check constraint and for the names of
-- columns that are replaced in it.
pub mod Columns
pub mod Foreign
pub mod Check
pub mod Unique
pub mod Normal
use transferdb.Prelude.{
  String, ℕ, suc, ◌-◌, Bool, true, false, ◌&&◌, ◌||◌, not, List, [], ◌∷◌, ◌++◌, map, length, take,
  drop, filter, if◌then◌else◌, Option, none, some, Result, ok, err, panic, ◌>>=◌,
}
use transferdb.Text.{
  Text, codes, text_eq, to_upper, to_lower, equal_fold, trim_space, split, join, fields,
  strings_builder,
}

pub record UniqueKey : Type 0 where
  pub constraint_name : Text
  pub column_list : Text

pub record ForeignKey : Type 0 where
  pub constraint_name : Text
  pub column_list : Text
  pub r_owner : Text
  pub rtable_name : Text
  pub rcolumn_list : Text
  pub delete_rule : Text

pub record CheckKey : Type 0 where
  pub constraint_name : Text
  pub search_condition : Text

pub data KeyError : Type 0 where
  multiple_primary_keys : KeyError
  index_type_unsupported : Text → KeyError
  not_unique : Text → KeyError
  normal_type_unsupported : Text → KeyError
  not_normal : Text → KeyError

-- the keys of a table, and the statements that are left to a user
pub record Indexes : Type 0 where
  pub indexes : List Text
  pub compatible : List Text

-- the three tests on `LowerCaseFieldName`; another value gives no text
unfoldable pub field_case : Text → Text → Text
unfolding equal_fold
field_case mode t =
    if equal_fold mode (codes "0")
    then t
    else if equal_fold mode (codes "2")
    then to_upper t
    else if equal_fold mode (codes "1")
    then to_lower t
    else []

abbrev pub back_quoted : Text → Text
back_quoted t = codes "`" ++ t ++ codes "`"

-- the columns of a list, each between back quotes
unfoldable pub quoted_columns : Text → Text
quoted_columns columns = join (map back_quoted (split columns (codes ","))) (codes ",")

abbrev pub primary_text : Text → Text → Text
primary_text mode columns =
    strings_builder
      (codes "PRIMARY KEY (" ∷ quoted_columns (field_case mode columns) ∷ codes ")" ∷ [])

unfoldable pub gen_table_primary_key : Text → List Text → Result KeyError (List Text)
unfolding field_case quoted_columns
gen_table_primary_key mode [] = ok []
gen_table_primary_key mode (columns ∷ []) = ok (primary_text mode columns ∷ [])
gen_table_primary_key mode (_ ∷ _ ∷ _) = err multiple_primary_keys

abbrev pub unique_key_text : Text → UniqueKey → Text
unique_key_text mode k = strings_builder (
    codes "UNIQUE KEY `"
    ∷ k.constraint_name
    ∷ codes "` ("
    ∷ quoted_columns (field_case mode k.column_list)
    ∷ codes ")"
    ∷ [])

unfoldable pub gen_table_unique_key : Text → List UniqueKey → List Text
unfolding field_case quoted_columns
gen_table_unique_key mode [] = []
gen_table_unique_key mode (k ∷ ks) = unique_key_text mode k ∷ gen_table_unique_key mode ks

abbrev pub foreign_text : Text → ForeignKey → String → String → String → Text
foreign_text mode k before_columns before_reference rule = strings_builder (
    codes "CONSTRAINT `"
    ∷ k.constraint_name
    ∷ codes before_columns
    ∷ field_case mode k.column_list
    ∷ codes ") REFERENCES `"
    ∷ field_case mode k.r_owner
    ∷ codes "`.`"
    ∷ field_case mode k.rtable_name
    ∷ codes before_reference
    ∷ field_case mode k.rcolumn_list
    ∷ codes rule
    ∷ [])

-- the text of a row; the variable `fk` keeps its value for a rule that is none of the three
unfoldable pub foreign_key : Text → Text → ForeignKey → Text
unfolding field_case
foreign_key mode fk k =
    if text_eq k.delete_rule (codes "SET NULL")
    then foreign_text mode k "` FOREIGN KEY(" "`(" ") ON DELETE SET NULL"
    else if text_eq k.delete_rule (codes "CASCADE")
    then foreign_text mode k "` FOREIGN KEY (" "`(" ") ON DELETE CASCADE"
    else if text_eq k.delete_rule [] || text_eq k.delete_rule (codes "NO ACTION")
    then foreign_text mode k "` FOREIGN KEY (" "` (" ")"
    else fk

-- the loop, with the variable `fk`
unfoldable pub foreign_keys_from : Text → Text → List ForeignKey → List Text
unfolding foreign_key
foreign_keys_from mode fk [] = []
foreign_keys_from mode fk (k ∷ ks) =
    let text = foreign_key mode fk k in text ∷ foreign_keys_from mode text ks

unfoldable pub gen_table_foreign_key : Text → List ForeignKey → List Text
unfolding foreign_keys_from
gen_table_foreign_key mode ks = foreign_keys_from mode [] ks

abbrev pub is_and_or : Text → Bool
is_and_or w = equal_fold w (codes "AND") || equal_fold w (codes "OR")

-- `idxArray`: where the conditions of a constraint are joined, and its end
unfoldable pub and_or_indexes : ℕ → List Text → List ℕ
and_or_indexes i [] = i ∷ []
and_or_indexes i (w ∷ ws) =
    let rest = and_or_indexes (suc i) ws in if is_and_or w then i ∷ rest else rest

-- the words from one index to the next
unfoldable pub pieces : List Text → ℕ → List ℕ → List (List Text)
pieces words prev [] = []
pieces words prev (i ∷ is) = take (i - prev) (drop prev words) ∷ pieces words i is

unfoldable pub check_pieces : List Text → List (List Text)
unfolding pieces and_or_indexes
check_pieces words = pieces words 0 (and_or_indexes 0 words)

abbrev pub drop_last : List Text → List Text
drop_last ws = take (length ws - 1) ws

-- the word in front of `d`, if it is AND or OR
unfoldable pub without_first : List Text → Result KeyError (List Text)
without_first [] = panic
without_first (w ∷ ws) = if is_and_or w then ok ws else ok (w ∷ ws)

unfoldable pub last_is : List Text → Result KeyError Bool
last_is [] = panic
last_is (w ∷ []) = ok (is_and_or w)
last_is (w ∷ v ∷ ws) = last_is (v ∷ ws)

unfoldable pub without_last : List Text → Result KeyError (List Text)
unfolding last_is
without_last d = do joined ← last_is d; ok (if joined then drop_last d else d)

module _ (has_and_or : Text → Bool) (is_not_null : Text → Bool)
    (replace_name : Text → Text → Text → Text) where
  -- the names of the columns in a condition
  unfoldable pub rename_columns : Text → List Text → Text → Text
  unfolding field_case
  rename_columns mode [] cond = cond
  rename_columns mode (c ∷ cs) cond =
      rename_columns mode cs (replace_name c (field_case mode c) cond)

  -- `constraintArray`
  unfoldable pub kept_pieces : List (List Text) → List Text
  kept_pieces ps = filter (λ v. not (is_not_null v)) (map (λ p. trim_space (join p (codes " "))) ps)

  abbrev pub check_text : Text → Text → Text
  check_text name cond =
      strings_builder (codes "CONSTRAINT `" ∷ name ∷ codes "` CHECK (" ∷ cond ∷ codes ")" ∷ [])

  -- a constraint of several conditions
  unfoldable pub joined_check : Text → Text → Result KeyError (List Text)
  unfolding check_pieces kept_pieces without_first without_last
  joined_check name s = do
    d ← without_first (fields (join (kept_pieces (check_pieces (fields s))) (codes " ")))
    e ← without_last d
    ok (check_text name (join e (codes " ")) ∷ [])

  unfoldable pub check_key : Text → List Text → CheckKey → Result KeyError (List Text)
  unfolding rename_columns joined_check
  check_key mode columns k =
      let cond = rename_columns mode columns k.search_condition in
      if has_and_or (trim_space cond)
      then joined_check k.constraint_name (trim_space cond)
      else if is_not_null (trim_space cond)
      then ok []
      else ok (check_text k.constraint_name cond ∷ [])

  unfoldable pub gen_table_check_key :
      Text → List Text → List CheckKey → Result KeyError (List Text)
  unfolding check_key
  gen_table_check_key mode columns [] = ok []
  gen_table_check_key mode columns (k ∷ ks) = do
    c ← check_key mode columns k
    rest ← gen_table_check_key mode columns ks
    ok (c ++ rest)

abbrev pub add_index : Text → Indexes → Indexes
add_index t r = record r { indexes = t ∷ r.indexes }

abbrev pub add_compatible : Text → Indexes → Indexes
add_compatible t r = record r { compatible = t ∷ r.compatible }

abbrev pub statement_or : KeyError → Option Text → Result KeyError (Indexes → Indexes)
statement_or e none = err e
statement_or e (some t) = ok (add_compatible t)

-- the loop over the indexes of a table, each put in front of the later ones
unfoldable pub index_loop :
    {A : Type 0} → (A → Result KeyError (Indexes → Indexes)) → List A → Result KeyError Indexes
index_loop index [] = ok (record { indexes = []; compatible = [] })
index_loop index (i ∷ is) = do add ← index i; rest ← index_loop index is; ok (add rest)
