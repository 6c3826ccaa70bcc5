-- ===== src/Reverse/Index/Placed.antt =====
-- The rows of the two loops over indexes, each a key or a statement.
use transferdb.Prelude.{
  String, Bool, true, false, ◌&&◌, ◌||◌, not, List, [], ◌∷◌, map, All, filter, Option, none, some,
  Result, ok, ◌≡◌, refl, ◌⊎◌, inl, inr, Bool-cases,
}
use mathlib.Core.Bool.{false≢true, true≢false}
use mathlib.Core.List.{filter_map}
use transferdb.Text.{Text, codes, text_eq, equal_fold}
use transferdb.Text.Laws.{text_eq→≡}
use transferdb.Reverse.Keys.{KeyError, Indexes, add_index, add_compatible, index_loop}
use transferdb.Reverse.Keys.Unique.{
  UniqueIndex, unique_text, unique_statement, unique_index, gen_table_unique_index,
}
use transferdb.Reverse.Keys.Normal.{
  NormalIndex, key_index, normal_statement, normal_index, gen_table_normal_index,
}

module _ {A : Type 0} (is_key : A → Bool) (key : A → Text) (statement : A → Option Text)
    (index : A → Result KeyError (Indexes → Indexes)) where
  -- a row that gives a key or a statement, never both
  abbrev IsPlaced : A → Type 0
  IsPlaced i =
      ((is_key i ≡ true) × (statement i ≡ none) × (index i ≡ ok (add_index (key i))))
      ⊎ ((is_key i ≡ false)
          × ((t : Text) × ((statement i ≡ some t) × (index i ≡ ok (add_compatible t)))))

  index_loop-lists :
      (is : List A)
      → All IsPlaced is
      → index_loop index is
        ≡ ok (record { indexes = map key (filter is_key is); compatible = filter_map statement is })
  unfolding index_loop filter_map
  index_loop-lists [] _ = refl
  index_loop-lists (i ∷ is) (inl (k, s, e), hs) = rw (e, s, k, index_loop-lists is hs) refl
  index_loop-lists (i ∷ is) (inr (k, (t, (s, e))), hs) = rw (e, s, k, index_loop-lists is hs) refl

abbrev pub is_of : Text → String → Bool
is_of t name = text_eq t (codes name)

-- the types of index that the code knows
abbrev pub known_unique : Text → Bool
known_unique t = is_of t "NORMAL" || (is_of t "FUNCTION-BASED NORMAL" || is_of t "NORMAL/REV")

abbrev pub known_normal : Text → Bool
known_normal t =
    is_of t "NORMAL"
    || (is_of t "FUNCTION-BASED NORMAL"
        || (is_of t "BITMAP"
            || (is_of t "FUNCTION-BASED BITMAP" || (is_of t "DOMAIN" || is_of t "NORMAL/REV"))))

abbrev pub is_unique_row : UniqueIndex → Bool
is_unique_row i =
    (not (text_eq i.table_name []) && equal_fold i.uniqueness (codes "UNIQUE"))
    && known_unique i.index_type

abbrev pub is_normal_row : NormalIndex → Bool
is_normal_row i =
    (not (text_eq i.table_name []) && equal_fold i.uniqueness (codes "NONUNIQUE"))
    && known_normal i.index_type

normal_type : (t : Text) → text_eq t (codes "NORMAL") ≡ true → t ≡ codes "NORMAL"
normal_type t h = text_eq→≡ t (codes "NORMAL") h

split_and : (a b : Bool) → (a && b) ≡ true → (a ≡ true) × (b ≡ true)
split_and true b h = (refl, h)
split_and false b h = absurd (false≢true h)

or_left : (a b : Bool) → (a || b) ≡ true → a ≡ false → b ≡ true
or_left true b h e = absurd (true≢false e)
or_left false b h e = h

unique_none :
    (mode schema table : Text) (i : UniqueIndex)
    → i.index_type ≡ codes "NORMAL"
    → unique_statement mode schema table i ≡ none
unfolding unique_statement text_eq
unique_none mode schema table i e = rw e refl

normal_none :
    (mode schema table : Text) (i : NormalIndex)
    → i.index_type ≡ codes "NORMAL"
    → normal_statement mode schema table i ≡ none
unfolding normal_statement text_eq
normal_none mode schema table i e = rw e refl

unique_some :
    (mode schema table : Text) (i : UniqueIndex)
    → (is_of i.index_type "FUNCTION-BASED NORMAL" || is_of i.index_type "NORMAL/REV") ≡ true
    → (t : Text) × (unique_statement mode schema table i ≡ some t)
unfolding unique_statement
unique_some mode schema table i h = elim (Bool-cases (is_of i.index_type "FUNCTION-BASED NORMAL")) [
  | inl a ↦ rw a (_, refl)
  | inr a ↦ rw (a, or_left (is_of i.index_type "FUNCTION-BASED NORMAL") _ h a) (_, refl)
]

normal_some :
    (mode schema table : Text) (i : NormalIndex)
    → (is_of i.index_type "FUNCTION-BASED NORMAL"
        || (is_of i.index_type "BITMAP"
            || (is_of i.index_type "FUNCTION-BASED BITMAP"
                || (is_of i.index_type "DOMAIN" || is_of i.index_type "NORMAL/REV"))))
      ≡ true
    → (t : Text) × (normal_statement mode schema table i ≡ some t)
unfolding normal_statement
normal_some mode schema table i h = elim (Bool-cases (is_of i.index_type "FUNCTION-BASED NORMAL")) [
  | inl a ↦ rw a (_, refl)
  | inr a ↦ elim (Bool-cases (is_of i.index_type "BITMAP")) [
    | inl b ↦ rw (a, b) (_, refl)
    | inr b ↦ elim (Bool-cases (is_of i.index_type "FUNCTION-BASED BITMAP")) [
      | inl c ↦ rw (a, b, c) (_, refl)
      | inr c ↦ elim (Bool-cases (is_of i.index_type "DOMAIN")) [
        | inl d ↦ rw (a, b, c, d) (_, refl)
        | inr d ↦
            rw
              (
                a,
                b,
                c,
                d,
                or_left (is_of i.index_type "DOMAIN") _
                    (or_left (is_of i.index_type "FUNCTION-BASED BITMAP") _
                      (or_left (is_of i.index_type "BITMAP") _
                        (or_left (is_of i.index_type "FUNCTION-BASED NORMAL") _ h a) b)
                      c)
                    d,
              )
              (_, refl)
      ]
    ]
  ]
]

All-map :
    {A : Type 0} {P Q : A → Type 0} → ((x : A) → P x → Q x) → (xs : List A) → All P xs → All Q xs
All-map f [] _ = tt
All-map f (x ∷ xs) (h, hs) = (f x h, All-map f xs hs)

module _ (mode schema table : Text) where
  unique_row-IsPlaced :
      (i : UniqueIndex)
      → is_unique_row i ≡ true
      → IsPlaced
          (λ j. is_of j.index_type "NORMAL")
          (unique_text mode)
          (unique_statement mode schema table)
          (unique_index mode schema table)
          i
  unfolding unique_index
  unique_row-IsPlaced i h =
      let (g, ts) =
        split_and (not (text_eq i.table_name []) && equal_fold i.uniqueness (codes "UNIQUE"))
          (known_unique i.index_type) h in
      elim (Bool-cases (is_of i.index_type "NORMAL")) [
        | inl b ↦
            inl (b, unique_none mode schema table i (normal_type i.index_type b), rw (g, b) refl)
        | inr b ↦
            let (t, e) =
              unique_some mode schema table i (or_left (is_of i.index_type "NORMAL") _ ts b) in
            inr (b, (t, (e, rw (g, b, e) refl)))
      ]

  normal_row-IsPlaced :
      (i : NormalIndex)
      → is_normal_row i ≡ true
      → IsPlaced
          (λ j. is_of j.index_type "NORMAL")
          (key_index mode)
          (normal_statement mode schema table)
          (normal_index mode schema table)
          i
  unfolding normal_index
  normal_row-IsPlaced i h =
      let (g, ts) =
        split_and (not (text_eq i.table_name []) && equal_fold i.uniqueness (codes "NONUNIQUE"))
          (known_normal i.index_type) h in
      elim (Bool-cases (is_of i.index_type "NORMAL")) [
        | inl b ↦
            inl (b, normal_none mode schema table i (normal_type i.index_type b), rw (g, b) refl)
        | inr b ↦
            let (t, e) =
              normal_some mode schema table i (or_left (is_of i.index_type "NORMAL") _ ts b) in
            inr (b, (t, (e, rw (g, b, e) refl)))
      ]

  pub unique_lists :
      (is : List UniqueIndex)
      → All (λ i. is_unique_row i ≡ true) is
      → gen_table_unique_index mode schema table is
        ≡ ok (record {
          indexes = map (unique_text mode) (filter (λ i. is_of i.index_type "NORMAL") is);
          compatible = filter_map (unique_statement mode schema table) is;
        })
  unfolding gen_table_unique_index
  unique_lists is h =
      index_loop-lists _ _ _ (unique_index mode schema table) is (All-map unique_row-IsPlaced is h)

  pub normal_lists :
      (is : List NormalIndex)
      → All (λ i. is_normal_row i ≡ true) is
      → gen_table_normal_index mode schema table is
        ≡ ok (record {
          indexes = map (key_index mode) (filter (λ i. is_of i.index_type "NORMAL") is);
          compatible = filter_map (normal_statement mode schema table) is;
        })
  unfolding gen_table_normal_index
  normal_lists is h =
      index_loop-lists _ _ _ (normal_index mode schema table) is (All-map normal_row-IsPlaced is h)
