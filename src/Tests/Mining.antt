-- ===== src/Tests/Mining.antt =====
-- Tests of the loop over the log files, and the theorems of the checkpoints at a table of employees.
use mathlib.Core.Bool.{false≢true}
use transferdb.Prelude.{
  false, filter, ap, arith, if◌then◌else◌, ℕ, true, List, [], ◌∷◌, Option, some, ◌≡◌, inl, refl,
  ◌∙◌, sym,
}
use mathlib.Core.List.{Memᴰ}
use transferdb.Text.{Text, codes, text_eq, to_upper, equal_fold}
use transferdb.Dict.{Dict}
use transferdb.Meta.{IncrSyncMeta}
use transferdb.Meta.Incr.{
  of_incr_schema, of_incr_table, update_incr_sync_meta_scn_by_current_redo,
  update_incr_sync_meta_scn_by_archived_log, get_incr_sync_meta_min_global_scn_s_by_schema,
  get_incr_sync_meta_min_table_scn_s_by_schema,
}
use transferdb.Meta.Incr.Moves.{current_redo-raised}
use transferdb.Meta.Incr.Archived.{archived_log-moves}
use transferdb.Migrate.Logminer.{Logminer}
use transferdb.Migrate.Incr.{LogFile, CurrentRedo, IncrState, sync_table_incr_record}
use transferdb.Migrate.Incr.Flag.{KeepsFlag, sync-KeepsFlag}

abbrev emp_at : ℕ → ℕ → IncrSyncMeta
emp_at g t = record {
  db_type_s = codes "ORACLE";
  db_type_t = codes "MYSQL";
  schema_name_s = codes "HR";
  table_name_s = codes "EMP";
  schema_name_t = codes "HR";
  table_name_t = codes "EMP";
  global_scn_s = g;
  table_scn_s = t;
  is_partition = codes "NO";
}

-- a row of another schema for a table of the same name
abbrev sales_row : IncrSyncMeta
sales_row = record (emp_at 5 4) { schema_name_s = codes "SALES" }

abbrev redo_rows : List IncrSyncMeta
redo_rows = emp_at 5 4 ∷ sales_row ∷ []

other_schema :
    (c : IncrSyncMeta)
    → of_incr_table equal_fold
        (codes "oracle")
        (codes "mysql")
        (codes "hr")
        c.table_name_s
        sales_row
      ≡ false
unfolding of_incr_table equal_fold text_eq to_upper
other_schema c = refl

one_row_unique :
    (c r : IncrSyncMeta)
    → Memᴰ c
        (filter (of_incr_schema equal_fold (codes "oracle") (codes "mysql") (codes "hr")) redo_rows)
    → Memᴰ r redo_rows
    → of_incr_table equal_fold (codes "oracle") (codes "mysql") (codes "hr") c.table_name_s r ≡ true
    → c ≡ r
unfolding equal_fold text_eq to_upper
one_row_unique c r (Memᴰ.head e) (Memᴰ.head e') h = e ∙ sym e'
one_row_unique c r (Memᴰ.tail m) k h = elim m [ ]
one_row_unique c r (Memᴰ.head e) (Memᴰ.tail (Memᴰ.head e')) h = absurd (
    false≢true (
      sym (other_schema c)
      ∙ ap (of_incr_table equal_fold (codes "oracle") (codes "mysql") (codes "hr") c.table_name_s)
          (sym e')
      ∙ h))
one_row_unique c r (Memᴰ.head e) (Memᴰ.tail (Memᴰ.tail m)) h = elim m [ ]

current_redo-raised_example :
    update_incr_sync_meta_scn_by_current_redo equal_fold
      (codes "oracle")
      (codes "mysql")
      (codes "hr")
      20
      8
      30
      redo_rows
    ≡ emp_at 8 4 ∷ sales_row ∷ []
unfolding equal_fold text_eq to_upper
current_redo-raised_example =
    current_redo-raised equal_fold (λ a b. refl) (codes "oracle") (codes "mysql") (codes "hr") 20 8
      30 redo_rows one_row_unique

archived_log-moves_example :
    let after =
      update_incr_sync_meta_scn_by_archived_log equal_fold
        (codes "oracle")
        (codes "mysql")
        (codes "hr")
        30
        (codes "EMP" ∷ [])
        (emp_at 5 4 ∷ []) in
    (get_incr_sync_meta_min_global_scn_s_by_schema equal_fold
        (codes "oracle")
        (codes "mysql")
        (codes "hr")
        after
      ≡ 30)
    × (get_incr_sync_meta_min_table_scn_s_by_schema equal_fold
          (codes "oracle")
          (codes "mysql")
          (codes "hr")
          after
        ≡ 30)
unfolding equal_fold text_eq to_upper
archived_log-moves_example =
    archived_log-moves equal_fold (λ a b. refl) (codes "oracle") (codes "mysql") (codes "hr") 30
      (emp_at 5 4 ∷ []) (omega arith) refl

abbrev log_b : LogFile
log_b = record { log_file = codes "b.log"; first_change = codes "8"; next_change = codes "30" }

abbrev one_digit : Text → Option ℕ
one_digit t = if text_eq t (codes "8") then some 8 else some 30

abbrev no_records : LogFile → ℕ → Option (List Logminer)
no_records _ _ = some []

abbrev redo_logs : LogFile → Option (List Text)
redo_logs _ = some (codes "b.log" ∷ [])

abbrev current_b : LogFile → Option CurrentRedo
current_b _ = some (record { first_change = 8; max_scn = 20; file_name = codes "b.log" })

abbrev as_sent : List Logminer → List Logminer
as_sent rs = rs

abbrev applied : Dict (List Logminer) → List IncrSyncMeta → Option (List IncrSyncMeta)
applied _ metas = some metas

abbrev first_state : IncrState
first_state = record { metas = emp_at 5 4 ∷ []; reset_flag = 0 }

sync-KeepsFlag_example : KeepsFlag 0 (
    sync_table_incr_record equal_fold
      (codes "ORACLE")
      (codes "MYSQL")
      (codes "HR")
      one_digit
      no_records
      redo_logs
      current_b
      as_sent
      applied
      (log_b ∷ [])
      first_state)
sync-KeepsFlag_example =
    sync-KeepsFlag equal_fold (codes "ORACLE") (codes "MYSQL") (codes "HR") one_digit no_records
      redo_logs current_b as_sent applied (log_b ∷ []) first_state (inl refl)
