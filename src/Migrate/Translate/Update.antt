-- ===== src/Migrate/Translate/Update.antt =====
-- What an UPDATE becomes, by the conditions of its redo and its undo statement.
use transferdb.Prelude.{
  suc, false, List, [], ◌∷◌, ◌++◌, append_assoc, append-nil, map, length, All, Option, none, some,
  ok, panic, ◌≡◌, refl, sym, ap, ◌∙◌, Option-cases, inl, inr, arith,
}
use mathlib.Core.List.{Memᴰ}
use mathlib.Core.Path.{subst}
use transferdb.Text.{Text, codes, to_upper, text_eq}
use transferdb.Text.Laws.{to_upper_idem}
use transferdb.Dict.{Dict, get, set}
use transferdb.Dict.Fill.{Holds, AreDistinct, fill, fill-Holds}
use transferdb.Migrate.Stmt.{
  Expr, logic_and, eq, Node, update_stmt, before_data, where_before, where_text, extract_stmt,
}
use transferdb.Migrate.Translate.{
  keys, values_of, replace_sql, delete_sql, parse_stmt, translate_stmt, translate_update,
  translate_oracle_to_my_sql_sql,
}
use transferdb.Migrate.Translate.Insert.{values_of-Holds, parse_stmt-node}

values_of-missing :
    (ks ls : List Text) (k : Text) (m : Dict Text)
    → get k m ≡ none
    → values_of (ks ++ k ∷ ls) m ≡ panic
unfolding values_of
values_of-missing [] ls k m h = rw h refl
values_of-missing (j ∷ ks) ls k m h = elim (Option-cases (get j m)) [
  | inl n ↦ rw n refl
  | inr (v, e) ↦ rw (e, values_of-missing ks ls k m h) refl
]

text_eq_sym : (s t : Text) → text_eq s t ≡ false → text_eq t s ≡ false
unfolding text_eq
text_eq_sym [] [] h = h
text_eq_sym [] (d ∷ t) h = refl
text_eq_sym (c ∷ s) [] h = refl
text_eq_sym (c ∷ s) (d ∷ t) h = ground (arith, text_eq_sym s t)

-- a key that a map does not have is put behind the others
keys-set :
    (k v : Text) (m : Dict Text)
    → All (λ j. text_eq j k ≡ false) (keys m)
    → keys (set k v m) ≡ keys m ++ k ∷ []
unfolding set
keys-set k v [] _ = refl
keys-set k v ((j, x) ∷ m) (n, ns) = rw n (ap (λ ks. j ∷ ks) (keys-set k v m ns))

All-more :
    (k j : Text) (ks : List Text)
    → All (λ i. text_eq i k ≡ false) ks
    → text_eq j k ≡ false
    → All (λ i. text_eq i k ≡ false) (ks ++ j ∷ [])
All-more k j [] _ n = (n, tt)
All-more k j (i ∷ ks) (m, ms) n = (m, All-more k j ks ms n)

new_keys :
    (j : Text) (before ks : List Text)
    → All (λ k. All (λ i. text_eq i k ≡ false) before) ks
    → All (λ k. text_eq k j ≡ false) ks
    → All (λ k. All (λ i. text_eq i k ≡ false) (before ++ j ∷ [])) ks
new_keys j before [] _ _ = tt
new_keys j before (k ∷ ks) (h, hs) (n, ns) =
    (All-more k j before h (text_eq_sym k j n), new_keys j before ks hs ns)

no_keys : (ks : List Text) → All (λ k. All (λ i. text_eq i k ≡ false) []) ks
no_keys [] = tt
no_keys (k ∷ ks) = (tt, no_keys ks)

keys-fill :
    (ks vs : List Text) (m : Dict Text)
    → AreDistinct ks
    → All (λ k. All (λ i. text_eq i k ≡ false) (keys m)) ks
    → length vs ≡ length ks
    → keys (fill ks vs m) ≡ keys m ++ ks
keys-fill [] vs m _ _ _ = sym (append-nil (keys m))
keys-fill (k ∷ ks) [] m _ _ l = absurd (omega (arith, l))
keys-fill (k ∷ ks) (v ∷ vs) m (d, ds) (n, ns) l =
    let put = keys-set k v m n in
    keys-fill ks vs (set k v m) ds
      (subst (λ js. All (λ i. All (λ j. text_eq j i ≡ false) js) ks) (sym put)
        (new_keys k (keys m) ks ns d))
      (omega (arith, l))
    ∙ ap (λ js. js ++ ks) put
    ∙ append_assoc (keys m) (k ∷ []) ks

module _ (parse : Text → Option (List Node)) (restore : Expr → Text) (range : List Text → List Text)
    (redo undo schema table : Text) (w u : Option Expr)
    (parse_redo : parse redo ≡ some (update_stmt w ∷ []))
    (parse_undo : parse undo ≡ some (update_stmt u ∷ [])) where
  node_redo : parse_stmt parse restore range redo ≡ extract_stmt restore (update_stmt w)
  node_redo = parse_stmt-node parse restore range redo (update_stmt w) parse_redo

  node_undo : parse_stmt parse restore range undo ≡ extract_stmt restore (update_stmt u)
  node_undo = parse_stmt-node parse restore range undo (update_stmt u) parse_undo

  -- the columns of the REPLACE
  abbrev pub update_columns : List Text
  update_columns = map to_upper (range (keys (where_before restore w)))

  update_by_values :
      (vs : List Text)
      → Holds update_columns vs (where_before restore u)
      → translate_oracle_to_my_sql_sql parse restore range redo undo schema table
        ≡ ok (
          delete_sql schema table (where_text restore w)
              ∷ replace_sql schema table update_columns vs
              ∷ [],
          codes "UPDATE",
        )
  unfolding translate_oracle_to_my_sql_sql translate_stmt translate_update extract_stmt
  update_by_values vs h =
      rw (node_redo, node_undo, values_of-Holds update_columns vs (where_before restore u) h) refl

  -- An UPDATE whose undo condition has no value for one of the columns, as for a column that becomes
  -- NULL, panics.
  update_to_null :
      (ks ls : List Text) (k : Text)
      → update_columns ≡ ks ++ k ∷ ls
      → get k (where_before restore u) ≡ none
      → translate_oracle_to_my_sql_sql parse restore range redo undo schema table ≡ panic
  unfolding translate_oracle_to_my_sql_sql translate_stmt translate_update extract_stmt
  update_to_null ks ls k c h =
      rw (node_redo, node_undo, c, values_of-missing ks ls k (where_before restore u) h) refl

-- a row, as the two sides of the equations of a condition
abbrev pub Row : Type 0
Row = List (Expr × Expr)

-- the conjunction of an expression with the equations of a row, from the left as the parser reads it
abbrev pub conjunction : Expr → Row → Expr
conjunction c [] = c
conjunction c ((l, r) ∷ es) = conjunction (logic_and c (eq l r)) es

module _ (restore : Expr → Text) where
  abbrev pub column : Expr × Expr → Text
  column e = to_upper (restore e.0)

  abbrev pub value : Expr × Expr → Text
  value e = restore e.1

  before-conjunction :
      (c : Expr) (es : Row) (m : Dict Text)
      → before_data restore (conjunction c es) m
        ≡ fill (map column es) (map value es) (before_data restore c m)
  unfolding before_data
  before-conjunction c [] m = refl
  before-conjunction c ((l, r) ∷ es) m = before-conjunction (logic_and c (eq l r)) es m

  Holds-value :
      (es : Row) (q : Expr × Expr) (m : Dict Text)
      → Holds (map column es) (map value es) m
      → Memᴰ q es
      → get (column q) m ≡ some (value q)
  Holds-value [] q m h k = elim k [ ]
  Holds-value (e ∷ es) q m (h, hs) (Memᴰ.head k) = rw k h
  Holds-value (e ∷ es) q m (h, hs) (Memᴰ.tail k) = Holds-value es q m hs k

  Holds-values :
      (es qs : Row) (m : Dict Text)
      → Holds (map column es) (map value es) m
      → All (λ q. Memᴰ q es) qs
      → Holds (map column qs) (map value qs) m
  Holds-values es [] m h _ = tt
  Holds-values es (q ∷ qs) m h (k, ks) = (Holds-value es q m h k, Holds-values es qs m h ks)

  same_count : (es : Row) → length (map value es) ≡ length (map column es)
  same_count [] = refl
  same_count (e ∷ es) = ap suc (same_count es)

  upper_columns : (es : Row) → map to_upper (map column es) ≡ map column es
  upper_columns [] = refl
  upper_columns (e ∷ es) = rw (to_upper_idem (restore e.0), upper_columns es) refl

  -- For conditions that are conjunctions of equations for columns with different names, an UPDATE becomes
  -- a DELETE by the whole condition of the redo statement and a REPLACE that gives the columns of that
  -- condition, in the order in which their map is read, the values that the undo statement's condition
  -- has for them, if it has an equation for each.
  pub translated_update :
      (parse : Text → Option (List Node)) (range : List Text → List Text)
      (redo undo schema table : Text) (c v c' v' : Expr) (old new qs : Row)
      → parse redo ≡ some (update_stmt (some (conjunction (eq c v) old)) ∷ [])
      → parse undo ≡ some (update_stmt (some (conjunction (eq c' v') new)) ∷ [])
      → AreDistinct (map column ((c, v) ∷ old))
      → AreDistinct (map column ((c', v') ∷ new))
      → range (map column ((c, v) ∷ old)) ≡ map column qs
      → All (λ q. Memᴰ q ((c', v') ∷ new)) qs
      → translate_oracle_to_my_sql_sql parse restore range redo undo schema table
        ≡ ok (
          delete_sql schema table (codes "WHERE " ++ restore (conjunction (eq c v) old))
              ∷ replace_sql schema table (map column qs) (map value qs)
              ∷ [],
          codes "UPDATE",
        )
  unfolding where_before before_data where_text set
  translated_update parse range redo undo schema table c v c' v' old new qs p p' d d' order given =
      let olds : Row = (c, v) ∷ old in
      let news : Row = (c', v') ∷ new in
      let w = some (conjunction (eq c v) old) in
      let u = some (conjunction (eq c' v') new) in
      let columns : map to_upper (range (keys (where_before restore w))) ≡ map column qs =
        ap (λ m. map to_upper (range (keys m))) (before-conjunction (eq c v) old [])
        ∙ ap (λ ks. map to_upper (range ks))
            (keys-fill (map column olds) (map value olds) [] d (no_keys (map column olds))
              (same_count olds))
        ∙ ap (map to_upper) order
        ∙ upper_columns qs in
      let held : Holds (map column news) (map value news) (where_before restore u) =
        subst (Holds (map column news) (map value news))
          (sym (before-conjunction (eq c' v') new []))
          (fill-Holds (map column news) (map value news) [] d' (same_count news)) in
      let found = Holds-values news qs (where_before restore u) held given in
      subst
        (λ ks.
          translate_oracle_to_my_sql_sql parse restore range redo undo schema table
          ≡ ok (
            delete_sql schema table (where_text restore w)
                ∷ replace_sql schema table ks (map value qs)
                ∷ [],
            codes "UPDATE",
          ))
        columns
        (update_by_values parse restore range redo undo schema table w u p p' (map value qs)
          (subst (λ ks. Holds ks (map value qs) (where_before restore u)) (sym columns) found))
