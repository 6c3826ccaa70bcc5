-- ===== src/Check/Indexes.antt =====
-- The indexes that a check asks for.
use transferdb.Prelude.{
  Bool, true, false, ◌&&◌, not, List, [], ◌∷◌, ◌++◌, filter, any, All, Option, none, some, Result,
  ok, err, panic, ◌>>=◌, ◌≡◌, refl, sym, ap, ◌∙◌, ◌⊎◌, inl, inr, Bool-cases, arith,
}
use mathlib.Core.List.{Memᴰ}
use mathlib.Core.List.Memᴰ.{not-nil}
use transferdb.Text.{Text, codes, text_eq, strings_builder}
use transferdb.Common.Diff.{elements, missing, diff_struct_array}
use transferdb.Check.Struct.{CheckError, Diff, Index, index_eq, info_eq}
use transferdb.Check.Statement.{all_statements, create_index, index_statements, unless_equal}
use transferdb.Check.Report.{check_index, reported}

-- an index whose statement depends on what the target has
abbrev pub IsNormal : Index → Type 0
IsNormal i =
    ((i.uniqueness ≡ codes "UNIQUE") × (i.index_type ≡ codes "NORMAL"))
    ⊎ ((i.uniqueness ≡ codes "UNIQUE") × (i.index_type ≡ codes "FUNCTION-BASED NORMAL"))
    ⊎ ((i.uniqueness ≡ codes "NONUNIQUE") × (i.index_type ≡ codes "NORMAL"))

abbrev pub IsThere : Diff → Index → Type 0
IsThere c i = IsNormal i × (any (λ j. info_eq i j) (elements c.my_sql_table_info.indexes) ≡ true)

-- the test for an equal index, with the uniqueness written out
there_by :
    (c : Diff) (i : Index) (u : Text)
    → i.uniqueness ≡ u
    → any (λ j. info_eq i j) (elements c.my_sql_table_info.indexes) ≡ true
    → any
        (λ (j : Index). text_eq u j.uniqueness && text_eq i.index_column j.index_column)
        (elements c.my_sql_table_info.indexes)
      ≡ true
unfolding info_eq
there_by c i u e h =
    ap
      (λ x.
        any (λ (j : Index). text_eq x j.uniqueness && text_eq i.index_column j.index_column)
          (elements c.my_sql_table_info.indexes))
      (sym e)
    ∙ h

normal_statements : (c : Diff) (i : Index) → IsThere c i → index_statements c i ≡ ok []
unfolding index_statements unless_equal info_eq text_eq
normal_statements c i (inl (u, t), e) = rw (u, t, there_by c i (codes "UNIQUE") u e) refl
normal_statements c i (inr (inl (u, t)), e) = rw (u, t, there_by c i (codes "UNIQUE") u e) refl
normal_statements c i (inr (inr (u, t)), e) = rw (u, t, there_by c i (codes "NONUNIQUE") u e) refl

All-there :
    (c : Diff) (is : List Index)
    → All (IsThere c) is
    → all_statements (index_statements c) is ≡ ok []
unfolding all_statements
All-there c [] _ = refl
All-there c (i ∷ is) (h, hs) = rw (normal_statements c i h, All-there c is hs) refl

filter-IsThere :
    (c : Diff) (p : Index → Bool) (is : List Index)
    → All (IsThere c) is
    → All (IsThere c) (filter p is)
filter-IsThere c p [] _ = tt
filter-IsThere c p (i ∷ is) (h, hs) = elim (Bool-cases (p i)) [
  | inl e ↦ rw e (h, filter-IsThere c p is hs)
  | inr e ↦ rw e (filter-IsThere c p is hs)
]

diffs-IsThere :
    (c : Diff) (xs ys : Option (List Index))
    → All (IsThere c) (elements xs)
    → All (IsThere c) (diff_struct_array index_eq xs ys).add_diffs
unfolding diff_struct_array missing
diffs-IsThere c none none h = tt
diffs-IsThere c none (some ys) h = tt
diffs-IsThere c (some xs) none h = h
diffs-IsThere c (some xs) (some ys) h =
    filter-IsThere c (λ a. not (any (λ b. index_eq b a) ys)) xs h

module _ (render : List (List Text) → Text) (c : Diff) where
  -- Indexes that are normal, or unique and on expressions, are found by their columns and their uniqueness
  -- alone: if the target has one for each of the source, whatever its name and its type, the check gives no
  -- text.
  pub check_index_found :
      All (IsThere c) (elements c.oracle_table_info.indexes) → check_index render c ≡ ok []
  unfolding check_index
  check_index_found h =
      rw
        (All-there c
          (diff_struct_array index_eq c.oracle_table_info.indexes
            c.my_sql_table_info.indexes).add_diffs
          (diffs-IsThere c c.oracle_table_info.indexes c.my_sql_table_info.indexes h))
        refl

-- no text without a text
abbrev pub IsReported : {A : Type 0} → Result CheckError (List A) → Type 0
IsReported (ok []) = ⊥
IsReported (ok (_ ∷ _)) = Unit
IsReported (err _) = Unit
IsReported panic = Unit

filter_keeps :
    (p : Index → Bool) (i : Index) (is : List Index) → p i ≡ true → Memᴰ i is → Memᴰ i (filter p is)
filter_keeps p i [] h m = absurd (not-nil m)
filter_keeps p i (j ∷ is) h (Memᴰ.head e) = rw (← e, h) (Memᴰ.head refl)
filter_keeps p i (j ∷ is) h (Memᴰ.tail m) = elim (Bool-cases (p j)) [
  | inl k ↦ rw k (Memᴰ.tail (filter_keeps p i is h m))
  | inr k ↦ rw k (filter_keeps p i is h m)
]

other_types :
    (i : Index) (ys : List Index)
    → All (λ (j : Index). text_eq j.index_type i.index_type ≡ false) ys
    → any (λ b. index_eq b i) ys ≡ false
unfolding index_eq
other_types i [] _ = refl
other_types i (j ∷ ys) (h, hs) = ground (arith, h, other_types i ys hs)

diffs_have :
    (i : Index) (xs ys : Option (List Index))
    → Memᴰ i (elements xs)
    → All (λ (j : Index). text_eq j.index_type i.index_type ≡ false) (elements ys)
    → Memᴰ i (diff_struct_array index_eq xs ys).add_diffs
unfolding diff_struct_array missing
diffs_have i none ys m h = absurd (not-nil m)
diffs_have i (some xs) none m h = m
diffs_have i (some xs) (some ys) m h =
    filter_keeps (λ a. not (any (λ b. index_eq b a) ys)) i xs (ap not (other_types i ys h)) m

append-IsReported :
    (s : Text) (r : Result CheckError (List Text)) → IsReported (r >>= λ rest. ok (s ∷ rest))
append-IsReported s (ok rest) = tt
append-IsReported s (err e) = tt
append-IsReported s panic = tt

behind-IsReported :
    (ss : List Text) (r : Result CheckError (List Text))
    → IsReported r
    → IsReported (r >>= λ rest. ok (ss ++ rest))
behind-IsReported [] (ok rest) h = h
behind-IsReported (s ∷ ss) (ok rest) h = tt
behind-IsReported ss (err e) h = tt
behind-IsReported ss panic h = tt

first-IsReported :
    (m r : Result CheckError (List Text))
    → IsReported r
    → IsReported (m >>= λ s. r >>= λ rest. ok (s ++ rest))
first-IsReported (ok s) r h = behind-IsReported s r h
first-IsReported (err e) r h = tt
first-IsReported panic r h = tt

all-IsReported :
    (c : Diff) (i : Index) (s : Text) (is : List Index)
    → index_statements c i ≡ ok (s ∷ [])
    → Memᴰ i is
    → IsReported (all_statements (index_statements c) is)
unfolding all_statements
all-IsReported c i s [] e m = absurd (not-nil m)
all-IsReported c i s (j ∷ is) e (Memᴰ.head k) =
    rw (← k, e) (append-IsReported s (all_statements (index_statements c) is))
all-IsReported c i s (j ∷ is) e (Memᴰ.tail m) =
    first-IsReported (index_statements c j) (all_statements (index_statements c) is)
      (all-IsReported c i s is e m)

module _ (render : List (List Text) → Text) (c : Diff) where
  text-IsReported :
      (r : Result CheckError (List Text)) (head what suggest : Text)
      → IsReported r
      → IsReported (r >>= λ ss. ok (reported render c head what suggest ss))
  unfolding strings_builder
  text-IsReported (ok (s ∷ ss)) head what suggest h = tt
  text-IsReported (ok []) head what suggest h = h
  text-IsReported (err e) head what suggest h = tt
  text-IsReported panic head what suggest h = tt

  function_statements :
      (i : Index)
      → i.uniqueness ≡ codes "NONUNIQUE"
      → i.index_type ≡ codes "FUNCTION-BASED NORMAL"
      → index_statements c i ≡ ok (create_index c (codes "CREATE INDEX ") i ∷ [])
  unfolding index_statements text_eq
  function_statements i u t = rw (u, t) refl

  -- An index on expressions that is not unique is reported by every check of its table, or the check ends
  -- with an error, as long as no index of the target has the type that Oracle gives it: also when the target
  -- has an index with the same columns.
  pub function_index-IsReported :
      (i : Index)
      → Memᴰ i (elements c.oracle_table_info.indexes)
      → i.uniqueness ≡ codes "NONUNIQUE"
      → i.index_type ≡ codes "FUNCTION-BASED NORMAL"
      → All
          (λ (j : Index). text_eq j.index_type i.index_type ≡ false)
          (elements c.my_sql_table_info.indexes)
      → IsReported (check_index render c)
  unfolding check_index
  function_index-IsReported i m u t h =
      text-IsReported _ (codes " oracle and mysql table indexes\n") (codes "INDEXES")
        (codes "Create Table Index")
        (all-IsReported c i _ _ (function_statements i u t)
          (diffs_have i c.oracle_table_info.indexes c.my_sql_table_info.indexes m h))
