-- ===== src/Migrate/Rows/Fill.antt =====
-- The map of a row, and its values in the order of the columns.
use transferdb.Prelude.{ℕ, suc, Bool, List, [], ◌∷◌, map, length, Option, ok, ◌≡◌, refl, ap, arith}
use transferdb.Text.{Text, codes, strings_builder}
use transferdb.Dict.{Dict, set}
use transferdb.Dict.Fill.{fill, AreDistinct, Holds, fill-Holds}
use transferdb.Migrate.Rows.{ColumnType, value_text, rows_map, row_values}

-- the name of a column in back quotes
abbrev pub quoted : ColumnType → Text
quoted c = strings_builder (codes "`" ∷ c.name ∷ codes "`" ∷ [])

row_values-Holds : (ks vs : List Text) (m : Dict Text) → Holds ks vs m → row_values ks m ≡ vs
unfolding row_values
row_values-Holds [] [] m _ = refl
row_values-Holds [] (v ∷ vs) m bad = absurd bad
row_values-Holds (k ∷ ks) [] m bad = absurd bad
row_values-Holds (k ∷ ks) (v ∷ vs) m (h, hs) = let ih = row_values-Holds ks vs m hs in ground arith

module _ (number_text : Text → Text → Option Text) (encode decode : Text → Text → Option Text)
    (source_charset target_charset : Text) (beyond : ℕ → Bool) where
  -- the values of a row have these texts
  abbrev pub AreTexts : List ColumnType → List (Option Text) → List Text → Type 0
  AreTexts [] [] [] = Unit
  AreTexts (c ∷ cs) (raw ∷ raws) (v ∷ vs) =
      (value_text number_text encode decode source_charset target_charset beyond c raw ≡ ok v)
      × AreTexts cs raws vs
  AreTexts _ _ _ = ⊥

  pub AreTexts-length :
      (cs : List ColumnType) (raws : List (Option Text)) (vs : List Text)
      → AreTexts cs raws vs
      → length vs ≡ length (map quoted cs)
  AreTexts-length [] [] [] _ = refl
  AreTexts-length [] [] (v ∷ vs) bad = absurd bad
  AreTexts-length [] (raw ∷ raws) vs bad = absurd bad
  AreTexts-length (c ∷ cs) [] vs bad = absurd bad
  AreTexts-length (c ∷ cs) (raw ∷ raws) [] bad = absurd bad
  AreTexts-length (c ∷ cs) (raw ∷ raws) (v ∷ vs) (_, h) = ap suc (AreTexts-length cs raws vs h)

  rows_map-fill :
      (cs : List ColumnType) (raws : List (Option Text)) (vs : List Text) (m : Dict Text)
      → AreTexts cs raws vs
      → rows_map number_text encode decode source_charset target_charset beyond cs raws m
        ≡ ok (fill (map quoted cs) vs m)
  unfolding rows_map
  rows_map-fill [] [] [] m _ = refl
  rows_map-fill [] [] (v ∷ vs) m bad = absurd bad
  rows_map-fill [] (raw ∷ raws) vs m bad = absurd bad
  rows_map-fill (c ∷ cs) [] vs m bad = absurd bad
  rows_map-fill (c ∷ cs) (raw ∷ raws) [] m bad = absurd bad
  rows_map-fill (c ∷ cs) (raw ∷ raws) (v ∷ vs) m (h, hs) =
      rw h (rows_map-fill cs raws vs (set (quoted c) v m) hs)

  -- The values of a row come back from its map: for columns with different names, the map of the row
  -- holds the text of each value under the name of its column in back quotes.
  pub row_values-rows_map :
      (cs : List ColumnType) (raws : List (Option Text)) (vs : List Text)
      → AreDistinct (map quoted cs)
      → AreTexts cs raws vs
      → (m : Dict Text) × (rows_map number_text encode decode source_charset target_charset beyond
            cs raws []
          ≡ ok m)
        × (row_values (map quoted cs) m ≡ vs)
  row_values-rows_map cs raws vs d h =
      let ks = map quoted cs in
      (
        fill ks vs [],
        rows_map-fill cs raws vs [] h,
        row_values-Holds ks vs (fill ks vs [])
            (fill-Holds ks vs [] d (AreTexts-length cs raws vs h)),
      )
