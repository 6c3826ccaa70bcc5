-- ===== src/Meta/Incr/Archived.antt =====
-- The checkpoints behind an archived log.
use transferdb.Prelude.{
  ℕ, ◌<◌, Bool, true, false, List, [], ◌∷◌, map, filter, any, map_id, map-map, map-congr,
  if◌then◌else◌, ◌≡◌, refl, sym, ◌∙◌, inl, inr, Bool-cases, arith,
}
use mathlib.Core.Bool.{false≢true}
use mathlib.Core.List.{Memᴰ}
use transferdb.Text.{Text, to_upper, equal_fold}
use transferdb.Meta.{IncrSyncMeta, update_where}
use transferdb.Meta.Collation.{same-to_upper, same_self}
use transferdb.Meta.Incr.{
  new_scn, least, of_incr_schema, of_incr_table, set_scns, update_tables,
  update_incr_sync_meta_scn_by_archived_log, get_incr_sync_meta_min_global_scn_s_by_schema,
  get_incr_sync_meta_min_table_scn_s_by_schema,
}

-- a list of one number
abbrev IsConstant : ℕ → List ℕ → Type 0
IsConstant n [] = Unit
IsConstant n (x ∷ xs) = (x ≡ n) × IsConstant n xs

least-constant : (n x : ℕ) (xs : List ℕ) → IsConstant n (x ∷ xs) → least (x ∷ xs) ≡ n
unfolding least
least-constant n x [] (h, _) = h
least-constant n x (y ∷ xs) (h, hs) = omega (arith, least-constant n y xs hs)

abbrev not_empty : List ℕ → Bool
not_empty [] = false
not_empty (x ∷ xs) = true

least-not_empty : (n : ℕ) (xs : List ℕ) → IsConstant n xs → not_empty xs ≡ true → least xs ≡ n
least-not_empty n [] _ h = absurd (false≢true h)
least-not_empty n (x ∷ xs) c _ = least-constant n x xs c

-- a field that an update sets to n on the rows that a test keeps
module _ (n : ℕ) (p : IncrSyncMeta → Bool) (f : IncrSyncMeta → IncrSyncMeta)
    (field : IncrSyncMeta → ℕ) (kept : (r : IncrSyncMeta) → p (f r) ≡ p r)
    (sets : (r : IncrSyncMeta) → p r ≡ true → field (f r) ≡ n) where
  fields-IsConstant : (rows : List IncrSyncMeta) → IsConstant n (map field (filter p (map f rows)))
  fields-IsConstant [] = tt
  fields-IsConstant (r ∷ rows) = elim (Bool-cases (p r)) [
    | inl e ↦ rw (kept r, e) (sets r e, fields-IsConstant rows)
    | inr e ↦ rw (kept r, e) (fields-IsConstant rows)
  ]

  fields-not_empty :
      (rows : List IncrSyncMeta) → not_empty (map field (filter p (map f rows))) ≡ any p rows
  fields-not_empty [] = refl
  fields-not_empty (r ∷ rows) = elim (Bool-cases (p r)) [
    | inl e ↦ rw (kept r, e) refl
    | inr e ↦ rw (kept r, e) (fields-not_empty rows)
  ]

  least-fields :
      (rows : List IncrSyncMeta) → any p rows ≡ true → least (map field (filter p (map f rows))) ≡ n
  least-fields rows h =
      least-not_empty n (map field (filter p (map f rows))) (fields-IsConstant rows)
        (fields-not_empty rows ∙ h)

new_scn-pos : (n old : ℕ) → 0 < n → new_scn n old ≡ n
new_scn-pos n old h = ground arith

module _ (same : Text → Text → Bool) (collation : (a b : Text) → same a b ≡ equal_fold a b)
    (db_type_s db_type_t source_schema_name : Text) (n : ℕ) where
  abbrev of_schema : IncrSyncMeta → Bool
  of_schema = of_incr_schema same db_type_s db_type_t source_schema_name

  abbrev of_table : Text → IncrSyncMeta → Bool
  of_table = of_incr_table same db_type_s db_type_t source_schema_name

  abbrev set : IncrSyncMeta → IncrSyncMeta
  set = set_scns same db_type_s db_type_t source_schema_name n n

  abbrev listed : List Text → IncrSyncMeta → IncrSyncMeta
  listed [] r = r
  listed (t ∷ ts) r = listed ts (if of_table t r then set r else r)

  update_tables-map :
      (ts : List Text) (rows : List IncrSyncMeta)
      → update_tables same db_type_s db_type_t source_schema_name n n ts rows ≡ map (listed ts) rows
  unfolding update_tables
  update_tables-map [] rows = sym (map_id rows)
  update_tables-map (t ∷ ts) rows =
      update_tables-map ts (update_where (of_table t) set rows) ∙ map-map (listed ts) _ rows

  set-set : (r : IncrSyncMeta) → 0 < n → set (set r) ≡ set r
  set-set r h =
      rw (new_scn-pos n r.global_scn_s h, new_scn-pos n r.table_scn_s h, new_scn-pos n n h) refl

  listed-set : (ts : List Text) (r : IncrSyncMeta) → 0 < n → listed ts (set r) ≡ set r
  listed-set [] r h = refl
  listed-set (t ∷ ts) r h = elim (Bool-cases (of_table t (set r))) [
    | inl e ↦ rw (e, set-set r h) (listed-set ts r h)
    | inr e ↦ rw e (listed-set ts r h)
  ]

  listed-any :
      (ts : List Text) (r : IncrSyncMeta)
      → 0 < n
      → listed ts r ≡ (if any (λ t. of_table t r) ts then set r else r)
  listed-any [] r h = refl
  listed-any (t ∷ ts) r h = elim (Bool-cases (of_table t r)) [
    | inl e ↦ rw e (listed-set ts r h)
    | inr e ↦ rw e (listed-any ts r h)
  ]

  -- the tables of a schema are found by their names
  own_table : (r : IncrSyncMeta) → of_schema r ≡ true → of_table (to_upper r.table_name_s) r ≡ true
  unfolding of_incr_table
  own_table r h =
      rw
        (
          h,
          same-to_upper same collation r.table_name_s (to_upper r.table_name_s),
          same-to_upper same collation r.table_name_s r.table_name_s,
          same_self same collation r.table_name_s,
        )
        refl

  abbrev pub schema_tables : List IncrSyncMeta → List Text
  schema_tables rows = map (λ (r : IncrSyncMeta). to_upper r.table_name_s) (filter of_schema rows)

  any-own :
      (rows : List IncrSyncMeta) (r : IncrSyncMeta)
      → of_schema r ≡ true
      → Memᴰ r rows
      → any (λ t. of_table t r) (schema_tables rows) ≡ true
  any-own [] r h m = elim m [ ]
  any-own (c ∷ cs) r h (Memᴰ.head e) = rw (← e, h, own_table r h) refl
  any-own (c ∷ cs) r h (Memᴰ.tail m) = ground (arith, any-own cs r h m)

  any-other :
      (ts : List Text) (r : IncrSyncMeta) → of_schema r ≡ false → any (λ t. of_table t r) ts ≡ false
  unfolding of_incr_table
  any-other [] r h = refl
  any-other (t ∷ ts) r h = rw h (any-other ts r h)

  archived-map :
      (rows : List IncrSyncMeta)
      → 0 < n
      → update_incr_sync_meta_scn_by_archived_log same db_type_s db_type_t source_schema_name n
          (schema_tables rows)
          rows
        ≡ map (λ r. if of_schema r then record r { global_scn_s = n; table_scn_s = n } else r) rows
  unfolding update_incr_sync_meta_scn_by_archived_log
  archived-map rows h =
      update_tables-map (schema_tables rows) rows
      ∙ map-congr (listed (schema_tables rows)) _ rows λ r m.
        listed-any (schema_tables rows) r h ∙ elim (Bool-cases (of_schema r)) [
          | inl e ↦
              rw
                (
                  any-own rows r e m,
                  e,
                  new_scn-pos n r.global_scn_s h,
                  new_scn-pos n r.table_scn_s h,
                )
                refl
          | inr e ↦ rw (any-other (schema_tables rows) r e, e) refl
        ]

  abbrev at_end : IncrSyncMeta → IncrSyncMeta
  at_end r = if of_schema r then record r { global_scn_s = n; table_scn_s = n } else r

  at_end-parts :
      (b : Bool) (r : IncrSyncMeta)
      → let r' = if b then record r { global_scn_s = n; table_scn_s = n } else r in
        (of_schema r' ≡ of_schema r) × (b ≡ true → (r'.global_scn_s ≡ n) × (r'.table_scn_s ≡ n))
  at_end-parts true r = (refl, λ _. (refl, refl))
  at_end-parts false r = (refl, λ e. absurd (false≢true e))

  -- Behind an archived log that ends at an SCN above 0, when the schema has tables and the meta database
  -- compares texts without their case, both the SCN that the next log files are chosen by and the one
  -- that the next records are read from are the end of the log.
  pub archived_log-moves :
      (rows : List IncrSyncMeta)
      → 0 < n
      → any of_schema rows ≡ true
      → let after =
          update_incr_sync_meta_scn_by_archived_log same db_type_s db_type_t source_schema_name n
            (schema_tables rows)
            rows in
        (get_incr_sync_meta_min_global_scn_s_by_schema same db_type_s db_type_t source_schema_name
            after
          ≡ n)
        × (get_incr_sync_meta_min_table_scn_s_by_schema same db_type_s db_type_t source_schema_name
              after
            ≡ n)
  unfolding get_incr_sync_meta_min_global_scn_s_by_schema
      get_incr_sync_meta_min_table_scn_s_by_schema
  archived_log-moves rows h some_table =
      let parts = λ (r : IncrSyncMeta). at_end-parts (of_schema r) r in
      rw (archived-map rows h) (
        least-fields n of_schema at_end (λ r. r.global_scn_s) (λ r. (parts r).0)
            (λ r e. ((parts r).1 e).0) rows some_table,
        least-fields n of_schema at_end (λ r. r.table_scn_s) (λ r. (parts r).0)
            (λ r e. ((parts r).1 e).1) rows some_table,
      )
