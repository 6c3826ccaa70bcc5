-- ===== src/Reverse/Tables/Selection.antt =====
-- Which tables are selected.
use transferdb.Prelude.{
  Bool, true, false, not, ◌&&◌, List, [], ◌∷◌, map, All, filter, ok, ◌≡◌, refl, ap, Bool-cases, inl,
  inr, arith,
}
use transferdb.Text.{Text, text_eq, to_upper}
use transferdb.Text.Laws.{text_eq→≡}
use transferdb.Common.Sets.{is_contain_string, filter_difference_string_items}
use transferdb.Filter.{Matcher, parse, match_table}
use transferdb.Reverse.Tables.{chosen_tables}

abbrev pub AreUpper : List Text → Type 0
AreUpper = All (λ t. to_upper t ≡ t)

pub map-upper : (xs : List Text) → AreUpper xs → map to_upper xs ≡ xs
map-upper [] _ = refl
map-upper (x ∷ xs) (h, hs) = rw (h, map-upper xs hs) refl

pub is_contain_string-filter :
    (p : Text → Bool) (xs : List Text) (k : Text)
    → is_contain_string (filter p xs) k ≡ (is_contain_string xs k && p k)
unfolding is_contain_string
is_contain_string-filter p [] k = refl
is_contain_string-filter p (x ∷ xs) k =
    let ih = is_contain_string-filter p xs k in
    elim (Bool-cases (text_eq x k)) [
      | inl e ↦ let same = ap p (text_eq→≡ x k e) in ground arith
      | inr e ↦ ground arith
    ]

pub not-both : (a b : Bool) → (a && not (a && b)) ≡ (a && not b)
not-both true b = refl
not-both false b = refl

pub filter-AreUpper : (p : Text → Bool) (xs : List Text) → AreUpper xs → AreUpper (filter p xs)
filter-AreUpper p [] h = tt
filter-AreUpper p (x ∷ xs) (h, hs) = elim (Bool-cases (p x)) [
  | inl e ↦ rw e (h, filter-AreUpper p xs hs)
  | inr e ↦ rw e (filter-AreUpper p xs hs)
]

module _ (compiles : Text → Bool) (matches : Text → Text → Bool)
    (difference : List Text → List Text → List Text)
    (is_difference : (xs ys : List Text) (k : Text)
      → is_contain_string (difference xs ys) k
        ≡ (is_contain_string xs k && not (is_contain_string ys k))) where
  is_contain_string-difference :
      (p : Text → Bool) (xs : List Text) (k : Text)
      → AreUpper xs
      → is_contain_string (filter_difference_string_items difference xs (filter p xs)) k
        ≡ (is_contain_string xs k && not (p k))
  unfolding filter_difference_string_items
  is_contain_string-difference p xs k h =
      rw
        (
          map-upper xs h,
          map-upper (filter p xs) (filter-AreUpper p xs h),
          is_difference xs (filter p xs) k,
          is_contain_string-filter p xs k,
        )
        (not-both (is_contain_string xs k) (p k))

  -- The same patterns select complementary tables as an include list and as an exclude list: of the
  -- tables of the schema, whose names are in upper case, the one selects those that a pattern matches
  -- and the other those that none matches.
  pub include_or_exclude :
      (pattern : Text) (patterns tables : List Text) (f : List Matcher)
      → parse compiles (pattern ∷ patterns) ≡ ok f
      → AreUpper tables
      → (included : List Text) × (excluded : List Text) × (chosen_tables compiles matches difference
            (pattern ∷ patterns)
            []
            tables
          ≡ ok included)
        × (chosen_tables compiles matches difference [] (pattern ∷ patterns) tables ≡ ok excluded)
        × ((k : Text)
            → (is_contain_string included k
                ≡ (is_contain_string tables k && match_table matches f k))
              × (is_contain_string excluded k
                  ≡ (is_contain_string tables k && not (match_table matches f k))))
  unfolding chosen_tables
  include_or_exclude pattern patterns tables f h up =
      let p = match_table matches f in
      (
        filter p tables,
        filter_difference_string_items difference tables (filter p tables),
        rw h refl,
        rw h refl,
        λ k. (is_contain_string-filter p tables k, is_contain_string-difference p tables k up),
      )
