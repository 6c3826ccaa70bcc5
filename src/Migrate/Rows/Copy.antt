-- ===== src/Migrate/Rows/Copy.antt =====
-- The two halves of the copy together: the rows of the query and the rows of the statements.
use transferdb.Prelude.{
  ℕ, suc, ◌<◌, Bool, true, List, [], ◌∷◌, ◌++◌, map, length, Option, none, ◌==◌, All, ok, ◌≡◌, refl,
  ap, ◌∙◌, arith,
}
use transferdb.Text.{Text, codes, join}
use transferdb.Dict.{Dict}
use transferdb.Dict.Fill.{AreDistinct}
use transferdb.Migrate.Statement.{gen_my_sql_insert_sql_stmt_prefix, in_brackets}
use transferdb.Migrate.Rows.{ColumnType, send_first, row_values, batch_rows, process_data}
use transferdb.Migrate.Rows.Batches.{
  rows_of, IsBatch, AreRead, read, get_oracle_table_rows_data-batches,
}
use transferdb.Migrate.Rows.Fill.{quoted, AreTexts, AreTexts-length, row_values-rows_map}

length-map : {A B : Type 0} (f : A → B) (xs : List A) → length (map f xs) ≡ length xs
length-map f [] = refl
length-map f (x ∷ xs) = ap suc (length-map f xs)

map-append : {A B : Type 0} (f : A → B) (xs ys : List A) → map f (xs ++ ys) ≡ map f xs ++ map f ys
map-append f [] ys = refl
map-append f (x ∷ xs) ys = ap (λ t. f x ∷ t) (map-append f xs ys)

rows_of-map :
    {A B : Type 0} (f : A → B) (bs : List (List A)) → rows_of (map (map f) bs) ≡ map f (rows_of bs)
rows_of-map f [] = refl
rows_of-map f (b ∷ bs) = rw (rows_of-map f bs, map-append f b (rows_of bs))

IsBatch-map :
    {A B : Type 0} (f : A → B) (size : ℕ) (bs : List (List A))
    → All (IsBatch size) bs
    → All (IsBatch size) (map (map f) bs)
IsBatch-map f size [] _ = tt
IsBatch-map f size (b ∷ bs) ((lo, hi), hs) =
    ((rw (length-map f b) lo, rw (length-map f b) hi), IsBatch-map f size bs hs)

All-left : {A : Type 0} (P : A → Type 0) (xs ys : List A) → All P (xs ++ ys) → All P xs × All P ys
All-left P [] ys h = (tt, h)
All-left P (x ∷ xs) ys (p, h) = let (l, r) = All-left P xs ys h in ((p, l), r)

same-length : {a b : ℕ} → a ≡ b → (a == b) ≡ true
same-length h = ground arith

-- a row with a value for each column
abbrev IsFull : List Text → Dict Text → Type 0
IsFull ks m = (length (row_values ks m) == length ks) ≡ true

-- the statement of a batch of rows
abbrev pub insert_rows : Text → List (List Text) → Text
insert_rows start batch = start ++ join (map in_brackets batch) (codes ",")

batch_rows-full :
    (ks : List Text) (b : List (Dict Text))
    → All (IsFull ks) b
    → batch_rows ks b ≡ ok (map in_brackets (map (row_values ks) b))
unfolding batch_rows
batch_rows-full ks [] _ = refl
batch_rows-full ks (m ∷ b) (h, hs) = rw (h, batch_rows-full ks b hs)

module _ (schema table : Text) (ks : List Text) (safe_mode : Bool) where
  abbrev start : Text
  start = gen_my_sql_insert_sql_stmt_prefix schema table ks safe_mode

  process_data-step :
      (b : List (Dict Text)) (bs : List (List (Dict Text))) (rows : List Text)
      → batch_rows ks b ≡ ok rows
      → process_data schema table ks safe_mode (b ∷ bs)
        ≡ send_first (start ++ join rows (codes ",")) (process_data schema table ks safe_mode bs)
  unfolding process_data
  process_data-step b bs rows h = ground arith

  process_data-full :
      (bs : List (List (Dict Text)))
      → All (IsFull ks) (rows_of bs)
      → process_data schema table ks safe_mode bs
        ≡ record { sent = map (insert_rows start) (map (map (row_values ks)) bs); error = none }
  unfolding process_data send_first
  process_data-full [] _ = refl
  process_data-full (b ∷ bs) h =
      let (hb, hs) = All-left (IsFull ks) b (rows_of bs) h in
      process_data-step b bs (map in_brackets (map (row_values ks) b)) (batch_rows-full ks b hb)
      ∙ ap (send_first (insert_rows start (map (row_values ks) b))) (process_data-full bs hs)

module _ (number_text : Text → Text → Option Text) (encode decode : Text → Text → Option Text)
    (source_charset target_charset : Text) (beyond : ℕ → Bool) (cols : List ColumnType) where
  -- the texts of the values of every row
  abbrev pub AreTables : List (List (Option Text)) → List (List Text) → Type 0
  AreTables [] [] = Unit
  AreTables (r ∷ rows) (vs ∷ vss) =
      AreTexts number_text encode decode source_charset target_charset beyond cols r vs
      × AreTables rows vss
  AreTables _ _ = ⊥

  -- the maps of the rows, all full, with the values of the rows
  read-maps :
      (rows : List (List (Option Text))) (vss : List (List Text))
      → AreDistinct (map quoted cols)
      → AreTables rows vss
      → (maps : List (Dict Text)) × AreRead number_text encode decode source_charset target_charset
          beyond cols rows maps
        × All (IsFull (map quoted cols)) maps
        × (map (row_values (map quoted cols)) maps ≡ vss)
  read-maps [] [] _ _ = ([], tt, tt, refl)
  read-maps [] (vs ∷ vss) _ bad = absurd bad
  read-maps (r ∷ rows) [] _ bad = absurd bad
  read-maps (r ∷ rows) (vs ∷ vss) d (h, hs) =
      let ks = map quoted cols in
      let (m, e, v) =
        row_values-rows_map number_text encode decode source_charset target_charset beyond cols r vs
          d h in
      let (maps, es, full, vs_eq) = read-maps rows vss d hs in
      let n : length (row_values ks m) ≡ length ks =
        ap length v
        ∙ AreTexts-length number_text encode decode source_charset target_charset beyond cols r vs
            h in
      (m ∷ maps, (e, es), (same-length n, full), rw (v, vs_eq) refl)

  -- The copy of a chunk whose values are all converted: for columns with different names and a batch
  -- size but 0, the statements insert exactly the rows of the query, in their order; each statement
  -- has a row and at most `size` of them, and neither half of the copy ends with an error.
  pub copied_rows :
      (schema table : Text) (safe_mode : Bool) (size : ℕ) (rows : List (List (Option Text)))
      (vss : List (List Text))
      → 0 < size
      → AreDistinct (map quoted cols)
      → AreTables rows vss
      → (batches : List (List (List Text))) × (rows_of batches ≡ vss)
        × All (IsBatch size) batches
        × ((read number_text encode decode source_charset target_charset beyond cols size rows
              []).error
            ≡ none)
        × (process_data schema table
              (map quoted cols)
              safe_mode
              (read number_text encode decode source_charset target_charset beyond cols size rows
                []).sent
            ≡ record {
              sent =
                  map
                    (insert_rows
                      (gen_my_sql_insert_sql_stmt_prefix schema table (map quoted cols) safe_mode))
                    batches;
              error = none;
            })
  copied_rows schema table safe_mode size rows vss h d hs =
      let ks = map quoted cols in
      let (maps, es, full, vs_eq) = read-maps rows vss d hs in
      let bs =
        (read number_text encode decode source_charset target_charset beyond cols size rows
          []).sent in
      let (no_error, all_rows, sizes) =
        get_oracle_table_rows_data-batches number_text encode decode source_charset target_charset
          beyond cols size rows maps h es in
      (
        map (map (row_values ks)) bs,
        rows_of-map (row_values ks) bs ∙ ap (map (row_values ks)) all_rows ∙ vs_eq,
        IsBatch-map (row_values ks) size bs sizes,
        no_error,
        process_data-full schema table ks safe_mode bs (rw all_rows full),
      )
