-- ===== src/Reverse/Prefix/Inherited.antt =====
-- Where the collation of a table comes from.
use transferdb.Prelude.{
  Bool, true, false, ◌&&◌, [], ◌∷◌, some, Option-cases, Result, ok, err, panic, ◌>>=◌, ◌≡◌, ◌⊎◌,
  refl, ap, not, ◌∙◌, inl, inr, if◌then◌else◌,
}
use transferdb.Text.{Text, codes, text_eq, strings_builder}
use transferdb.Dict.{Dict, get}
use transferdb.Reverse.Prefix.{
  Collations, SuffixError, table_collation_unsupported, schema_collation_unsupported, own_collation,
  schema_collation, with_names, table_charset, collation_of, table_collation, gen_table_suffix,
  migrate_table_structure_database_collation_map,
}

-- the map of collations gives one for a collation of Oracle and a character set
abbrev pub IsKnown : Text → Text → Text → Type 0
IsKnown collation charset t =
    (m : Dict Text) × (get collation migrate_table_structure_database_collation_map ≡ some m)
    × (get charset m ≡ some t)

collation_of-cases :
    (e : SuffixError) (collation charset : Text)
    → ((t : Text) × IsKnown collation charset t × (collation_of e collation charset ≡ ok t))
      ⊎ ((t : Text) → ¬ IsKnown collation charset t) × (collation_of e collation charset ≡ err e)
unfolding collation_of
collation_of-cases e collation charset =
    elim (Option-cases (get collation migrate_table_structure_database_collation_map)) [
      | inl n ↦ inr (λ t (m, g, _). cc, rw n refl)
      | inr (m, g) ↦ elim (Option-cases (get charset m)) [
        | inl n ↦ inr (λ t (m', g', k). cc, rw (g, n) refl)
        | inr (t, k) ↦ inl (t, (m, g, k), rw (g, k) refl)
      ]
    ]

bind_ok :
    {E A : Type 0} (m : Result E A) (s : A → Result E A) → ((x : A) → s x ≡ ok x) → (m >>= s) ≡ m
bind_ok (ok a) s h = h a
bind_ok (err e) s h = refl
bind_ok panic s h = refl

if_true : {A : Type 0} (b : Bool) (x y : A) → b ≡ true → (if b then x else y) ≡ x
if_true b x y h = rw h refl

oracle_collation-steps :
    (r : Collations)
    → r.oracle_collation ≡ true
    → text_eq r.source_table_name [] ≡ false
    → table_collation r ≡ own_collation r >>= schema_collation r
unfolding table_collation
oracle_collation-steps r o n =
    if_true r.oracle_collation _ _ o
    ∙ bind_ok (own_collation r >>= schema_collation r) (with_names r) (λ x. rw n refl)

own-cases :
    (r : Collations) (own : Bool)
    → text_eq r.source_table_collation [] ≡ own
    → text_eq (if own then r.source_schema_collation else r.source_table_collation) [] ≡ false
    → (own_collation r >>= schema_collation r)
      ≡ collation_of
          (if own
            then schema_collation_unsupported r.source_schema_collation r.source_table_collation
            else table_collation_unsupported r.source_table_collation)
          (if own then r.source_schema_collation else r.source_table_collation)
          (table_charset r)
own-cases r true e h =
    ap (λ m. m >>= schema_collation r) (if_true (text_eq r.source_table_collation []) _ _ e)
    ∙ if_true (text_eq r.source_table_collation [] && not (text_eq r.source_schema_collation [])) _
        _ (rw (e, h) refl)
own-cases r false e h = rw e (bind_ok _ _ (λ x. rw e refl))

-- With collations of Oracle's own, a table that has a name gets its own collation or, if it has none,
-- that of its schema, if one of them is there: the last words name the one that the maps give for it and
-- the database's character set, and if they give none, the error names it.
pub suffix_priority :
    (r : Collations)
    → r.oracle_collation ≡ true
    → text_eq r.source_table_name [] ≡ false
    → let inherits = text_eq r.source_table_collation [] in
      let chosen = if inherits then r.source_schema_collation else r.source_table_collation in
      text_eq chosen [] ≡ false
      → ((t : Text) × IsKnown chosen (table_charset r) t
          × (gen_table_suffix r
              ≡ ok (
                  strings_builder (
                    codes "ENGINE=InnoDB DEFAULT CHARSET="
                    ∷ table_charset r
                    ∷ codes " COLLATE="
                    ∷ t
                    ∷ []))))
        ⊎ ((t : Text) → ¬ IsKnown chosen (table_charset r) t)
          × (gen_table_suffix r
              ≡ err (
                  if inherits
                  then schema_collation_unsupported r.source_schema_collation
                      r.source_table_collation
                  else table_collation_unsupported r.source_table_collation))
unfolding gen_table_suffix
suffix_priority r o n h =
    let inherits = text_eq r.source_table_collation [] in
    let chosen = if inherits then r.source_schema_collation else r.source_table_collation in
    let error =
      if inherits
      then schema_collation_unsupported r.source_schema_collation r.source_table_collation
      else table_collation_unsupported r.source_table_collation in
    rw (oracle_collation-steps r o n ∙ own-cases r inherits refl h)
      elim (collation_of-cases error chosen (table_charset r)) [
        | inl (t, k, e) ↦ inl (t, k, rw e refl)
        | inr (k, e) ↦ inr (k, rw e refl)
      ]
