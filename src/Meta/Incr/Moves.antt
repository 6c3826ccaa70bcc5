-- ===== src/Meta/Incr/Moves.antt =====
-- What a log file that is done does to the checkpoints.
use transferdb.Prelude.{
  leb, ℕ, Bool, true, false, ◌&&◌, List, [], ◌∷◌, map, filter, ltb, any, any-chosen, any_self,
  same_bool, map_id, map-map, map-congr, if◌then◌else◌, ◌≡◌, refl, sym, ap, ◌∙◌, inl, inr,
  Bool-cases, arith,
}
use mathlib.Core.Bool.{false≢true}
use mathlib.Core.List.{Memᴰ}
use transferdb.Text.{Text, equal_fold}
use transferdb.Meta.{IncrSyncMeta, update_where}
use transferdb.Meta.Collation.{same_upper_self}
use transferdb.Meta.Incr.{
  new_scn, log_file_scn, of_incr_schema, of_incr_table, set_scns, raise_tables,
  update_incr_sync_meta_scn_by_current_redo,
}

module _ (same : Text → Text → Bool) (db_type_s db_type_t source_schema_name : Text) (scn : ℕ) where
  -- the row of a table that was found below the SCN
  abbrev is_low : IncrSyncMeta → IncrSyncMeta → Bool
  is_low c r =
      ltb c.global_scn_s scn
      && of_incr_table same db_type_s db_type_t source_schema_name c.table_name_s r

  abbrev set : IncrSyncMeta → IncrSyncMeta
  set = set_scns same db_type_s db_type_t source_schema_name scn 0

  abbrev raise : List IncrSyncMeta → IncrSyncMeta → IncrSyncMeta
  raise [] r = r
  raise (c ∷ cs) r = raise cs (if is_low c r then set r else r)

  set-set : (r : IncrSyncMeta) → set (set r) ≡ set r
  set-set r = ap (λ n. record r { global_scn_s = n }) (twice scn r.global_scn_s)
    where
      twice : (v old : ℕ) → new_scn v (new_scn v old) ≡ new_scn v old
      twice v old = ground arith

  raise-set : (cs : List IncrSyncMeta) (r : IncrSyncMeta) → raise cs (set r) ≡ set r
  raise-set [] r = refl
  raise-set (c ∷ cs) r = elim (Bool-cases (is_low c (set r))) [
    | inl e ↦ rw (e, set-set r) (raise-set cs r)
    | inr e ↦ rw e (raise-set cs r)
  ]

  raise-any :
      (cs : List IncrSyncMeta) (r : IncrSyncMeta)
      → raise cs r ≡ (if any (λ c. is_low c r) cs then set r else r)
  raise-any [] r = refl
  raise-any (c ∷ cs) r = elim (Bool-cases (is_low c r)) [
    | inl e ↦ rw e (raise-set cs r)
    | inr e ↦ rw e (raise-any cs r)
  ]

  low_rows :
      (b : Bool) (p : IncrSyncMeta → Bool) (rows : List IncrSyncMeta)
      → (if b then update_where p set rows else rows)
        ≡ map (λ r. if b && p r then set r else r) rows
  low_rows true p rows = refl
  low_rows false p rows = sym (map_id rows)

  raise_tables-map :
      (cs rows : List IncrSyncMeta)
      → raise_tables same db_type_s db_type_t source_schema_name scn cs rows ≡ map (raise cs) rows
  unfolding raise_tables
  raise_tables-map [] rows = sym (map_id rows)
  raise_tables-map (c ∷ cs) rows =
      ap (raise_tables same db_type_s db_type_t source_schema_name scn cs) (
        low_rows (ltb c.global_scn_s scn)
          (of_incr_table same db_type_s db_type_t source_schema_name c.table_name_s) rows)
      ∙ raise_tables-map cs _
      ∙ map-map (raise cs) _ rows

  raised_if :
      (b : Bool) (r : IncrSyncMeta)
      → (if b && ltb r.global_scn_s scn then set r else r) ≡ (
          if b
          then record r { global_scn_s = (if ltb r.global_scn_s scn then scn else r.global_scn_s) }
          else r)
  raised_if false r = refl
  raised_if true r = elim (Bool-cases (ltb r.global_scn_s scn)) [
    | inl e ↦ rw e (ap (λ n. record r { global_scn_s = n }) (taken e))
    | inr e ↦ rw e refl
  ]
    where
      taken : ltb r.global_scn_s scn ≡ true → new_scn scn r.global_scn_s ≡ scn
      taken e = ground arith

and_left : (a b : Bool) → (a && b) ≡ true → a ≡ true
and_left true b e = refl
and_left false b e = e

and_right : (a b : Bool) → (a && b) ≡ true → b ≡ true
and_right true b e = e
and_right false b e = absurd (false≢true e)

and_swap : (a b : Bool) → a && (b && true) ≡ b && a
and_swap true true = refl
and_swap true false = refl
and_swap false true = refl
and_swap false false = refl

module _ (same : Text → Text → Bool) (collation : (a b : Text) → same a b ≡ equal_fold a b)
    (db_type_s db_type_t source_schema_name : Text) where
  abbrev pub raised : ℕ → IncrSyncMeta → IncrSyncMeta
  raised scn r =
      if of_incr_schema same db_type_s db_type_t source_schema_name r
      then record r { global_scn_s = (if ltb r.global_scn_s scn then scn else r.global_scn_s) }
      else r

  low_self :
      (scn : ℕ) (r : IncrSyncMeta)
      → is_low same db_type_s db_type_t source_schema_name scn r r
        ≡ of_incr_schema same db_type_s db_type_t source_schema_name r && ltb r.global_scn_s scn
  unfolding of_incr_table
  low_self scn r = rw (same_upper_self same collation r.table_name_s) (
      and_swap (ltb r.global_scn_s scn)
        (of_incr_schema same db_type_s db_type_t source_schema_name r))

  low-chosen :
      (scn : ℕ) (rows : List IncrSyncMeta) (r : IncrSyncMeta)
      → ((c : IncrSyncMeta)
          → Memᴰ c (filter (of_incr_schema same db_type_s db_type_t source_schema_name) rows)
          → of_incr_table same db_type_s db_type_t source_schema_name c.table_name_s r ≡ true
          → c ≡ r)
      → Memᴰ r rows
      → any
          (λ c. is_low same db_type_s db_type_t source_schema_name scn c r)
          (filter (of_incr_schema same db_type_s db_type_t source_schema_name) rows)
        ≡ of_incr_schema same db_type_s db_type_t source_schema_name r && ltb r.global_scn_s scn
  low-chosen scn rows r unique m =
      let low = is_low same db_type_s db_type_t source_schema_name scn in
      let schema = of_incr_schema same db_type_s db_type_t source_schema_name in
      let one : (c : IncrSyncMeta) → Memᴰ c (filter schema rows) → low c r ≡ true → c ≡ r =
        λ c k e. unique c k (and_right (ltb c.global_scn_s scn) _ e) in
      same_bool _ _ (λ e. sym (low_self scn r) ∙ any_self low (filter schema rows) r one e)
        (λ e. any-chosen low schema rows r (low_self scn r ∙ e) (and_left (schema r) _ e) m)

  -- A current redo log raises the SCN of each table of the schema to that of the log, if it is below it,
  -- and changes nothing else, so no SCN falls: for a meta database that compares texts without their
  -- case and that has one row for a table of the schema. The SCN of the log is its start if the log with
  -- the largest SCN ends no later than it, and its end otherwise.
  pub current_redo-raised :
      (last_max start end : ℕ) (rows : List IncrSyncMeta)
      → ((c r : IncrSyncMeta)
          → Memᴰ c (filter (of_incr_schema same db_type_s db_type_t source_schema_name) rows)
          → Memᴰ r rows
          → of_incr_table same db_type_s db_type_t source_schema_name c.table_name_s r ≡ true
          → c ≡ r)
      → update_incr_sync_meta_scn_by_current_redo same db_type_s db_type_t source_schema_name
          last_max start end rows
        ≡ map (raised (if leb last_max end then start else end)) rows
  unfolding update_incr_sync_meta_scn_by_current_redo log_file_scn
  current_redo-raised last_max start end rows unique =
      let scn = log_file_scn last_max start end in
      let schema = of_incr_schema same db_type_s db_type_t source_schema_name in
      raise_tables-map same db_type_s db_type_t source_schema_name scn (filter schema rows) rows
      ∙ map-congr (raise same db_type_s db_type_t source_schema_name scn (filter schema rows))
          (raised scn) rows
          (λ r m.
            raise-any same db_type_s db_type_t source_schema_name scn (filter schema rows) r
            ∙ rw (low-chosen scn rows r (λ c k. unique c r k m) m)
                (raised_if same db_type_s db_type_t source_schema_name scn (schema r) r))
