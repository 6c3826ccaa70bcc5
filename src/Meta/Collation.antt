-- ===== src/Meta/Collation.antt =====
-- The queries of the meta database under a collation that does not tell case, such as the defaults
-- of MySQL.
use transferdb.Prelude.{Bool, true, false, ◌&&◌, [], ◌∷◌, ◌≡◌, refl, ◌∙◌}
use transferdb.Text.{Text, to_upper, equal_fold, text_eq}
use transferdb.Text.Laws.{to_upper_idem, text_eq_refl}
use transferdb.Meta.{FullSyncMeta, no_full_sync_meta, waiting, running, success, failed}
use transferdb.Meta.Full.{given, of_full_table, full_matches, is_chunk}

-- texts that are no zero values
abbrev pub HasText : Text → Type 0
HasText [] = ⊥
HasText (_ ∷ _) = Unit

pub HasText-to_upper : (t : Text) → HasText t → HasText (to_upper t)
unfolding to_upper
HasText-to_upper [] h = h
HasText-to_upper (c ∷ t) h = tt

pub and-shape :
    (a b c d e s : Bool)
    → (a && b && c && d && true && true && true && true && true && true && true && e && s && true)
      ≡ (a && b && c && d && e) && s
and-shape false b c d e s = refl
and-shape true false c d e s = refl
and-shape true true false d e s = refl
and-shape true true true false e s = refl
and-shape true true true true false s = refl
and-shape true true true true true false = refl
and-shape true true true true true true = refl

module _ (same : Text → Text → Bool) (collation : (a b : Text) → same a b ≡ equal_fold a b) where
  pub same-to_upper : (a b : Text) → same a (to_upper b) ≡ same a b
  unfolding equal_fold
  same-to_upper a b = rw (collation a (to_upper b), collation a b, to_upper_idem b) refl

  pub same_self : (a : Text) → same a a ≡ true
  unfolding equal_fold
  same_self a = collation a a ∙ text_eq_refl (to_upper a)

  pub same_upper_self : (a : Text) → same a (to_upper a) ≡ true
  same_upper_self a = same-to_upper a a ∙ same_self a

  pub given-same : (v x : Text) → HasText v → given same v x ≡ same x v
  given-same [] x h = absurd h
  given-same (c ∷ v) x h = refl

  -- every chunk is found by its own columns
  pub is_chunk_self : (m : FullSyncMeta) → is_chunk same m m ≡ true
  unfolding is_chunk
  is_chunk_self m =
      rw
        (
          same_upper_self m.db_type_s,
          same_upper_self m.db_type_t,
          same_upper_self m.schema_name_s,
          same_upper_self m.table_name_s,
          same_upper_self m.task_mode,
          same_self m.chunk_detail_s,
        )
        refl

  -- the query by a struct with the columns of a table and a status
  pub matches-table :
      (a b c d e s : Text) (r : FullSyncMeta)
      → HasText a
      → HasText b
      → HasText c
      → HasText d
      → HasText e
      → HasText s
      → let q : FullSyncMeta = record no_full_sync_meta {
        db_type_s = a;
        db_type_t = b;
        schema_name_s = c;
        table_name_s = d;
        task_mode = e;
      } in
        full_matches same (record q { task_status = s }) r
        ≡ of_full_table same q r && same r.task_status s
  matches-table a b c d e s r ha hb hc hd he hs =
      rw
        (
          given-same a r.db_type_s ha,
          given-same b r.db_type_t hb,
          given-same c r.schema_name_s hc,
          given-same d r.table_name_s hd,
          given-same e r.task_mode he,
          given-same s r.task_status hs,
          same-to_upper r.db_type_s a,
          same-to_upper r.db_type_t b,
          same-to_upper r.schema_name_s c,
          same-to_upper r.table_name_s d,
          same-to_upper r.task_mode e,
        )
        (and-shape (same r.db_type_s a) (same r.db_type_t b) (same r.schema_name_s c)
          (same r.table_name_s d) (same r.task_mode e) (same r.task_status s))

  pub waiting_is :
      (same waiting waiting ≡ true) × (same waiting failed ≡ false) × (same waiting success ≡ false)
  unfolding equal_fold to_upper text_eq
  waiting_is = (collation waiting waiting, collation waiting failed, collation waiting success)

  pub waiting_is_not_running : same waiting running ≡ false
  unfolding equal_fold to_upper text_eq
  waiting_is_not_running = collation waiting running

  pub failed_is :
      (same failed waiting ≡ false) × (same failed failed ≡ true) × (same failed success ≡ false)
  unfolding equal_fold to_upper text_eq
  failed_is = (collation failed waiting, collation failed failed, collation failed success)

  pub success_is :
      (same success waiting ≡ false) × (same success failed ≡ false) × (same success success ≡ true)
  unfolding equal_fold to_upper text_eq
  success_is = (collation success waiting, collation success failed, collation success success)
