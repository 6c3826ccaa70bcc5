-- ===== src/Migrate/Rows/Batches.antt =====
-- The batches of a query that is read without an error.
use transferdb.Prelude.{
  ℕ, ◌+◌, ◌≤◌, ◌<◌, Bool, true, false, List, [], ◌∷◌, ◌++◌, append_assoc, length, length-append,
  Option, none, ◌==◌, All, ok, ◌≡◌, refl, sym, ap, arith, Bool-cases, inl, inr,
}
use transferdb.Text.{Text}
use transferdb.Dict.{Dict}
use transferdb.Migrate.Rows.{ColumnType, Sent, send_first, rows_map, get_oracle_table_rows_data}

-- the rows of the batches, one after another
abbrev pub rows_of {ℓ} : {A : Type ℓ} → List (List A) → List A
rows_of [] = []
rows_of (b ∷ bs) = b ++ rows_of bs

-- a batch has a row and at most `size` of them
abbrev pub IsBatch : {A : Type 0} → ℕ → List A → Type 0
IsBatch size b = (0 < length b) × (length b ≤ size)

equal-size : (a b : ℕ) → (a == b) ≡ true → a ≡ b
equal-size a b h = ground arith

below-size : (a b : ℕ) → a ≤ b → (a == b) ≡ false → a < b
below-size a b le h = ground arith

module _ (number_text : Text → Text → Option Text) (encode decode : Text → Text → Option Text)
    (source_charset target_charset : Text) (beyond : ℕ → Bool) (cols : List ColumnType) where
  -- the rows are read as these maps
  abbrev pub AreRead : List (List (Option Text)) → List (Dict Text) → Type 0
  AreRead [] [] = Unit
  AreRead [] (m ∷ ms) = ⊥
  AreRead (r ∷ rows) [] = ⊥
  AreRead (r ∷ rows) (m ∷ ms) =
      (rows_map number_text encode decode source_charset target_charset beyond cols r [] ≡ ok m)
      × AreRead rows ms

  abbrev pub read : ℕ → List (List (Option Text)) → List (Dict Text) → Sent (List (Dict Text))
  read =
      get_oracle_table_rows_data number_text encode decode source_charset target_charset beyond cols

  -- what is read, with the rows `tmp` of the batch begun
  abbrev Reads : ℕ → Sent (List (Dict Text)) → List (Dict Text) → Type 0
  Reads size s rows = (s.error ≡ none) × (rows_of s.sent ≡ rows) × All (IsBatch size) s.sent

  Reads-send_first :
      (size : ℕ) (b maps : List (Dict Text)) (s : Sent (List (Dict Text)))
      → IsBatch size b
      → Reads size s maps
      → Reads size (send_first b s) (b ++ maps)
  unfolding send_first
  Reads-send_first size b maps s h (e, r, a) = (e, ap (λ t. b ++ t) r, (h, a))

  read-full :
      (size : ℕ) (raws : List (Option Text)) (rows : List (List (Option Text))) (m : Dict Text)
      (tmp : List (Dict Text))
      → rows_map number_text encode decode source_charset target_charset beyond cols raws [] ≡ ok m
      → (length (tmp ++ m ∷ []) == size) ≡ true
      → read size (raws ∷ rows) tmp ≡ send_first (tmp ++ m ∷ []) (read size rows [])
  unfolding get_oracle_table_rows_data
  read-full size raws rows m tmp e h = ground arith

  read-more :
      (size : ℕ) (raws : List (Option Text)) (rows : List (List (Option Text))) (m : Dict Text)
      (tmp : List (Dict Text))
      → rows_map number_text encode decode source_charset target_charset beyond cols raws [] ≡ ok m
      → (length (tmp ++ m ∷ []) == size) ≡ false
      → read size (raws ∷ rows) tmp ≡ read size rows (tmp ++ m ∷ [])
  unfolding get_oracle_table_rows_data
  read-more size raws rows m tmp e h = ground arith

  read-from :
      (size : ℕ) (rows : List (List (Option Text))) (maps tmp : List (Dict Text))
      → AreRead rows maps
      → length tmp < size
      → Reads size (read size rows tmp) (tmp ++ maps)
  unfolding get_oracle_table_rows_data
  read-from size [] [] [] _ h = (refl, refl, tt)
  read-from size [] [] (r ∷ tmp) _ h = (refl, refl, ((omega arith, omega (arith, h)), tt))
  read-from size [] (m ∷ maps) tmp bad h = absurd bad
  read-from size (raws ∷ rows) [] tmp bad h = absurd bad
  read-from size (raws ∷ rows) (m ∷ maps) tmp (e, es) h =
      let b = tmp ++ m ∷ [] in
      let len : length b ≡ length tmp + 1 = length-append tmp (m ∷ []) in
      rw (sym (append_assoc tmp (m ∷ []) maps)) (elim (Bool-cases (length b == size)) [
        | inl f ↦
            let full = equal-size (length b) size f in
            rw (read-full size raws rows m tmp e f) (
              Reads-send_first size b maps (read size rows [])
                (omega (arith, len), omega (arith, full))
                (read-from size rows maps [] es (omega (arith, h))))
        | inr f ↦
            rw (read-more size raws rows m tmp e f)
              (read-from size rows maps b es (below-size (length b) size (omega (arith, len, h)) f))
      ])

  -- Where every row is read, all rows are sent, in their order and without an error, and every batch
  -- has a row and at most `size` of them, for every size but 0.
  pub get_oracle_table_rows_data-batches :
      (size : ℕ) (rows : List (List (Option Text))) (maps : List (Dict Text))
      → 0 < size
      → AreRead rows maps
      → (read size rows []).error ≡ none
        × (rows_of (read size rows []).sent ≡ maps)
        × All (IsBatch size) (read size rows []).sent
  get_oracle_table_rows_data-batches size rows maps h es = read-from size rows maps [] es h
