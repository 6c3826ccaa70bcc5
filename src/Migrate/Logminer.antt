-- ===== src/Migrate/Logminer.antt =====
-- module/migrate/sql/oracle/public/logminer.go and scheduler.go: the redo records of a log file are
-- filtered by goroutines and collected by table. The goroutines write to one channel, so `arrive`
-- stands for the order in which their records come out of it. V$LOGMNR_CONTENTS is not modelled.
pub mod Collect
pub mod Checkpoint
use transferdb.Prelude.{
  ℕ, zero, suc, Bool, true, false, List, [], ◌∷◌, ◌++◌, Option, none, some, ltb, leb, if◌then◌else◌,
  Result, ok, err, panic, ◌>>=◌,
}
use transferdb.Text.{Text, codes, text_eq, to_upper, split, strings_builder}
use transferdb.Dict.{Dict, get, set}

pub record Logminer : Type 0 where
  pub scn : ℕ
  pub source_schema : Text
  pub source_table : Text
  pub target_schema : Text
  pub target_table : Text
  pub sql_redo : Text
  pub sql_undo : Text
  pub operation : Text

pub data IncrError : Type 0 where
  reset_flag : IncrError

-- a read of a map[string]uint64: 0 for a missing key
abbrev pub scn_or_zero : Option ℕ → ℕ
scn_or_zero none = 0
scn_or_zero (some n) = n

abbrev pub is_ddl : Logminer → Bool
is_ddl r = text_eq r.operation (codes "DDL")

unfoldable pub set_redo : Text → Logminer → Logminer
set_redo redo r = record r { sql_redo = redo }

-- `splitDDL[0]`, a blank and `splitDDL[1]`
unfoldable pub ddl_words : List Text → Result IncrError Text
ddl_words (a ∷ b ∷ _) = ok (strings_builder (a ∷ codes " " ∷ b ∷ []))
ddl_words (a ∷ []) = panic
ddl_words [] = panic

abbrev pub first_part : List Text → Result IncrError Text
first_part (a ∷ _) = ok a
first_part [] = panic

-- DDL: DROP TABLE, without what follows the first AS, or TRUNCATE TABLE
unfoldable pub send_ddl : Logminer → Result IncrError (List Logminer)
unfolding set_redo ddl_words
send_ddl r = do
  ddl ← ddl_words (split r.sql_redo (codes " "))
  redo ← first_part (split (to_upper r.sql_redo) (codes "AS"))
  ok (
      if text_eq (to_upper ddl) (codes "DROP TABLE")
      then set_redo redo r ∷ []
      else if text_eq (to_upper ddl) (codes "TRUNCATE TABLE")
      then r ∷ []
      else [])

-- what a record that is not filtered by its checkpoint sends
unfoldable pub send : Logminer → Result IncrError (List Logminer)
send r = if is_ddl r then send_ddl r else ok (r ∷ [])

-- one goroutine of `FilterOracleIncrRecord`
unfoldable pub filter_row : Dict ℕ → ℕ → Logminer → Result IncrError (List Logminer)
filter_row scns zero r =
    if leb (scn_or_zero (get (to_upper r.source_table) scns)) r.scn then send r else ok []
filter_row scns (suc zero) r =
    if ltb (scn_or_zero (get (to_upper r.sql_redo) scns)) r.scn then send r else ok []
filter_row scns (suc (suc _)) r = err reset_flag

unfoldable pub filter_rows : Dict ℕ → ℕ → List Logminer → Result IncrError (List Logminer)
filter_rows scns flag [] = ok []
filter_rows scns flag (r ∷ rs) = do
  sent ← filter_row scns flag r
  rest ← filter_rows scns flag rs
  ok (sent ++ rest)

-- the loop that fills `lcMap`
unfoldable pub init_map : List Text → Dict (List Logminer) → Dict (List Logminer)
init_map [] m = m
init_map (t ∷ ts) m = init_map ts (set (to_upper t) [] m)

-- one step of `Job.Schedule`
abbrev pub add_record :
    Option (List Logminer) → Logminer → Dict (List Logminer) → Dict (List Logminer)
add_record none c m = m
add_record (some old) c m = set (to_upper c.source_table) (old ++ c ∷ []) m

-- `Job.Schedule`
unfoldable pub schedule : List Logminer → Dict (List Logminer) → Dict (List Logminer)
schedule [] m = m
schedule (c ∷ cs) m = schedule cs (add_record (get (to_upper c.source_table) m) c m)

module _ (arrive : List Logminer → List Logminer) where
  unfoldable pub filter_oracle_incr_record :
      List Logminer → List Text → Dict ℕ → ℕ → Result IncrError (Dict (List Logminer))
  filter_oracle_incr_record logminers tables scns flag = do
    sent ← filter_rows scns flag logminers
    ok (schedule (arrive sent) (init_map tables []))
