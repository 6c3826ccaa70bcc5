-- ===== src/Migrate/Incr/Flag.antt =====
-- The reset flag: the current redo log is filtered by 0 in its first run and by 1 in those behind it.
use transferdb.Prelude.{
  ℕ, ◌≤◌, arith, Bool, true, false, List, [], ◌∷◌, Option, none, some, if◌then◌else◌, Result, ok,
  err, panic, ◌>>=◌, ◌≡◌, ◌⊎◌, inl, inr, refl,
}
use transferdb.Text.{Text, codes, text_eq, to_upper, split}
use transferdb.Dict.{Dict}
use transferdb.Meta.{IncrSyncMeta}
use transferdb.Migrate.Logminer.{
  Logminer, IncrError, first_part, ddl_words, send_ddl, send, filter_row, filter_rows,
  filter_oracle_incr_record,
}
use transferdb.Migrate.Incr.{
  LogFile, CurrentRedo, IncrState, SyncError, illegal_scn, no_metas, oracle_error, apply_error,
  filter_error, or_sync, or_filter, not_null, LogKind, current_redo, non_current_redo, archived_log,
  log_kind, filter_flag, next_flag, apply_content, process_rows, process_log,
  sync_table_incr_record,
}

-- a result that is no error
abbrev NoError : {E A : Type 0} → Result E A → Type 0
NoError (ok a) = Unit
NoError (err e) = ⊥
NoError panic = Unit

NoError->>= :
    {E A B : Type 0} (m : Result E A) (f : A → Result E B)
    → NoError m
    → ((a : A) → NoError (f a))
    → NoError (m >>= f)
NoError->>= (ok a) f h k = k a
NoError->>= (err e) f h k = absurd h
NoError->>= panic f h k = tt

NoError-if :
    {E A : Type 0} (b : Bool) (x y : Result E A)
    → NoError x
    → NoError y
    → NoError (if b then x else y)
NoError-if true x y h k = h
NoError-if false x y h k = k

ddl_words-NoError : (ws : List Text) → NoError (ddl_words ws)
unfolding ddl_words
ddl_words-NoError [] = tt
ddl_words-NoError (a ∷ []) = tt
ddl_words-NoError (a ∷ b ∷ ws) = tt

first_part-NoError : (ws : List Text) → NoError (first_part ws)
first_part-NoError [] = tt
first_part-NoError (a ∷ ws) = tt

send-NoError : (r : Logminer) → NoError (send r)
unfolding send send_ddl
send-NoError r =
    NoError-if (text_eq r.operation (codes "DDL")) _ _
      (NoError->>= (ddl_words (split r.sql_redo (codes " "))) _
        (ddl_words-NoError (split r.sql_redo (codes " ")))
        (λ ddl.
          NoError->>= (first_part (split (to_upper r.sql_redo) (codes "AS"))) _
            (first_part-NoError (split (to_upper r.sql_redo) (codes "AS"))) (λ redo. tt)))
      tt

-- the two values of the flag
abbrev pub IsFlag : ℕ → Type 0
IsFlag n = (n ≡ 0) ⊎ (n ≡ 1)

filter_row-NoError :
    (scns : Dict ℕ) (flag : ℕ) (r : Logminer) → IsFlag flag → NoError (filter_row scns flag r)
unfolding filter_row
filter_row-NoError scns flag r (inl e) = rw e (NoError-if _ (send r) (ok []) (send-NoError r) tt)
filter_row-NoError scns flag r (inr e) = rw e (NoError-if _ (send r) (ok []) (send-NoError r) tt)

filter_rows-NoError :
    (scns : Dict ℕ) (flag : ℕ) (rs : List Logminer)
    → IsFlag flag
    → NoError (filter_rows scns flag rs)
unfolding filter_rows
filter_rows-NoError scns flag [] h = tt
filter_rows-NoError scns flag (r ∷ rs) h =
    NoError->>= (filter_row scns flag r) _ (filter_row-NoError scns flag r h) (λ sent.
      NoError->>= (filter_rows scns flag rs) _ (filter_rows-NoError scns flag rs h) (λ rest. tt))

filtered-NoError :
    (arrive : List Logminer → List Logminer) (rs : List Logminer) (tables : List Text)
    (scns : Dict ℕ) (flag : ℕ)
    → IsFlag flag
    → NoError (filter_oracle_incr_record arrive rs tables scns flag)
unfolding filter_oracle_incr_record
filtered-NoError arrive rs tables scns flag h =
    NoError->>= (filter_rows scns flag rs) _ (filter_rows-NoError scns flag rs h) (λ sent. tt)

-- the flag keeps its two values and is not lowered; a run does not end by an illegal flag
abbrev pub KeepsFlag : ℕ → Result SyncError IncrState → Type 0
KeepsFlag old (ok st) = IsFlag st.reset_flag × (old ≤ st.reset_flag)
KeepsFlag old (err (illegal_scn t)) = Unit
KeepsFlag old (err no_metas) = Unit
KeepsFlag old (err oracle_error) = Unit
KeepsFlag old (err apply_error) = Unit
KeepsFlag old (err (filter_error e)) = ⊥
KeepsFlag old panic = Unit

KeepsFlag-or_sync :
    {A : Type 0} (e : SyncError) (o : Option A) (old : ℕ) (f : A → Result SyncError IncrState)
    → KeepsFlag old (err e)
    → ((a : A) → KeepsFlag old (f a))
    → KeepsFlag old (or_sync e o >>= f)
KeepsFlag-or_sync e none old f h k = h
KeepsFlag-or_sync e (some a) old f h k = k a

KeepsFlag-not_null :
    (rs : List IncrSyncMeta) (old : ℕ) (f : List IncrSyncMeta → Result SyncError IncrState)
    → ((a : List IncrSyncMeta) → KeepsFlag old (f a))
    → KeepsFlag old (not_null rs >>= f)
KeepsFlag-not_null [] old f k = tt
KeepsFlag-not_null (r ∷ rs) old f k = k (r ∷ rs)

KeepsFlag-or_filter :
    {A : Type 0} (m : Result IncrError A) (old : ℕ) (f : A → Result SyncError IncrState)
    → NoError m
    → ((a : A) → KeepsFlag old (f a))
    → KeepsFlag old (or_filter m >>= f)
KeepsFlag-or_filter (ok a) old f h k = k a
KeepsFlag-or_filter (err e) old f h k = absurd h
KeepsFlag-or_filter panic old f h k = tt

filter_flag-IsFlag : (kind : LogKind) (flag : ℕ) → IsFlag flag → IsFlag (filter_flag kind flag)
filter_flag-IsFlag current_redo flag h = h
filter_flag-IsFlag non_current_redo flag h = inl refl
filter_flag-IsFlag archived_log flag h = inl refl

next_flag-keeps :
    (kind : LogKind) (flag : ℕ)
    → IsFlag flag
    → IsFlag (next_flag kind flag) × (flag ≤ next_flag kind flag)
next_flag-keeps current_redo flag (inl e) = (inr refl, omega arith)
next_flag-keeps current_redo flag (inr e) = (inr refl, omega arith)
next_flag-keeps non_current_redo flag h = (h, omega arith)
next_flag-keeps archived_log flag h = (h, omega arith)

module _ (same : Text → Text → Bool) (db_type_s db_type_t source_schema : Text)
    (parse_uint : Text → Option ℕ) (get_oracle_incr_record : LogFile → ℕ → Option (List Logminer))
    (all_redo_logs : LogFile → Option (List Text)) (current_of : LogFile → Option CurrentRedo)
    (arrive : List Logminer → List Logminer)
    (apply_oracle_incr_record : Dict (List Logminer)
      → List IncrSyncMeta
      → Option (List IncrSyncMeta)) where
  apply_content-KeepsFlag :
      (kind : LogKind) (max_scn start end : ℕ) (tables : List Text) (content : Dict (List Logminer))
      (metas : List IncrSyncMeta) (flag old : ℕ)
      → IsFlag flag × (old ≤ flag)
      → KeepsFlag old (
          apply_content same db_type_s db_type_t source_schema parse_uint get_oracle_incr_record
            all_redo_logs current_of arrive apply_oracle_incr_record kind max_scn start end tables
            content
            (record { metas = metas; reset_flag = flag }))
  unfolding apply_content
  apply_content-KeepsFlag kind max_scn start end tables [] metas flag old h = h
  apply_content-KeepsFlag kind max_scn start end tables (c ∷ content) metas flag old h =
      KeepsFlag-or_sync apply_error (apply_oracle_incr_record (c ∷ content) metas) old _ tt
        (λ ms. h)

  process_rows-KeepsFlag :
      (kind : LogKind) (max_scn start end : ℕ) (tables : List Text) (scns : Dict ℕ)
      (rows : List Logminer) (st : IncrState)
      → IsFlag st.reset_flag
      → KeepsFlag st.reset_flag (
          process_rows same db_type_s db_type_t source_schema parse_uint get_oracle_incr_record
            all_redo_logs current_of arrive apply_oracle_incr_record kind max_scn start end tables
            scns rows st)
  unfolding process_rows
  process_rows-KeepsFlag kind max_scn start end tables scns [] st h = (h, omega arith)
  process_rows-KeepsFlag kind max_scn start end tables scns (r ∷ rows) st h =
      KeepsFlag-or_filter
        (filter_oracle_incr_record arrive (r ∷ rows) tables scns (filter_flag kind st.reset_flag))
        st.reset_flag _
        (filtered-NoError arrive (r ∷ rows) tables scns (filter_flag kind st.reset_flag)
          (filter_flag-IsFlag kind st.reset_flag h))
        (λ content.
          apply_content-KeepsFlag kind max_scn start end tables content st.metas
            (next_flag kind st.reset_flag) st.reset_flag (next_flag-keeps kind st.reset_flag h))

  process_log-KeepsFlag :
      (log : LogFile) (st : IncrState)
      → IsFlag st.reset_flag
      → KeepsFlag st.reset_flag (
          process_log same db_type_s db_type_t source_schema parse_uint get_oracle_incr_record
            all_redo_logs current_of arrive apply_oracle_incr_record log st)
  unfolding process_log
  process_log-KeepsFlag log st h =
      let old = st.reset_flag in
      KeepsFlag-or_sync (illegal_scn log.first_change) (parse_uint log.first_change) old _ tt
        λ start.
          KeepsFlag-or_sync (illegal_scn log.next_change) (parse_uint log.next_change) old _ tt
            λ end. KeepsFlag-not_null _ old _ λ metas.
              KeepsFlag-or_sync oracle_error (get_oracle_incr_record log _) old _ tt λ rows.
                KeepsFlag-or_sync oracle_error (all_redo_logs log) old _ tt λ redo_logs.
                  KeepsFlag-or_sync oracle_error (current_of log) old _ tt λ current.
                    process_rows-KeepsFlag (log_kind redo_logs current log start) current.max_scn
                      start end _ _ rows st h

  KeepsFlag-weaken :
      (old mid : ℕ) (m : Result SyncError IncrState) → old ≤ mid → KeepsFlag mid m → KeepsFlag old m
  KeepsFlag-weaken old mid (ok st) h (k, l) = (k, omega arith)
  KeepsFlag-weaken old mid (err (illegal_scn t)) h k = tt
  KeepsFlag-weaken old mid (err no_metas) h k = tt
  KeepsFlag-weaken old mid (err oracle_error) h k = tt
  KeepsFlag-weaken old mid (err apply_error) h k = tt
  KeepsFlag-weaken old mid (err (filter_error e)) h k = k
  KeepsFlag-weaken old mid panic h k = tt

  KeepsFlag->>= :
      (old : ℕ) (m : Result SyncError IncrState) (f : IncrState → Result SyncError IncrState)
      → KeepsFlag old m
      → ((st : IncrState) → IsFlag st.reset_flag → KeepsFlag st.reset_flag (f st))
      → KeepsFlag old (m >>= f)
  KeepsFlag->>= old (ok st) f (h, one) k = KeepsFlag-weaken old st.reset_flag (f st) one (k st h)
  KeepsFlag->>= old (err (illegal_scn t)) f h k = tt
  KeepsFlag->>= old (err no_metas) f h k = tt
  KeepsFlag->>= old (err oracle_error) f h k = tt
  KeepsFlag->>= old (err apply_error) f h k = tt
  KeepsFlag->>= old (err (filter_error e)) f h k = h
  KeepsFlag->>= old panic f h k = tt

  -- Any number of log files, from a flag of 0 or 1: the flag stays 0 or 1, it is never lowered, and
  -- the run does not end because of an illegal flag.
  pub sync-KeepsFlag :
      (logs : List LogFile) (st : IncrState)
      → IsFlag st.reset_flag
      → KeepsFlag st.reset_flag (
          sync_table_incr_record same db_type_s db_type_t source_schema parse_uint
            get_oracle_incr_record all_redo_logs current_of arrive apply_oracle_incr_record logs st)
  unfolding sync_table_incr_record
  sync-KeepsFlag [] st h = (h, omega arith)
  sync-KeepsFlag (l ∷ logs) st h =
      KeepsFlag->>= st.reset_flag _ _ (process_log-KeepsFlag l st h)
        (λ st'. sync-KeepsFlag logs st')
