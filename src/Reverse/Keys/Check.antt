-- ===== src/Reverse/Keys/Check.antt =====
-- The conditions of a check constraint.
use transferdb.Prelude.{
  ◌||◌, if◌then◌else◌, append_assoc, append-nil, ℕ, suc, ◌+◌, ◌-◌, Bool, true, List, [], ◌∷◌, ◌++◌,
  All, length, take, drop, panic, ◌≡◌, refl, sym, ap, ◌∙◌, inl, inr, Bool-cases, arith, drop-drop,
}
use transferdb.Text.{equal_fold, Text, codes, trim_space, join, fields, fields_loop}
use transferdb.Reverse.Keys.{
  CheckKey, is_and_or, and_or_indexes, pieces, check_pieces, without_first, kept_pieces,
  rename_columns, joined_check, check_key,
}

-- the words cut in front of each AND and OR; the words of the condition that is being read come first
unfoldable pub cut_in_front : List Text → List Text → List (List Text)
cut_in_front condition [] = condition ∷ []
cut_in_front condition (w ∷ ws) =
    let joined = cut_in_front (w ∷ []) ws in
    let more = cut_in_front (condition ++ w ∷ []) ws in
    if equal_fold w (codes "AND") || equal_fold w (codes "OR") then condition ∷ joined else more

take-append : (xs ys : List Text) → take (length xs) (xs ++ ys) ≡ xs
take-append [] ys = refl
take-append (x ∷ xs) ys = ap (λ t. x ∷ t) (take-append xs ys)

drop-append : (xs ys : List Text) → drop (length xs) (xs ++ ys) ≡ ys
drop-append [] ys = refl
drop-append (x ∷ xs) ys = drop-append xs ys

length_more : (xs : List Text) (w : Text) → length (xs ++ w ∷ []) ≡ suc (length xs)
length_more [] w = refl
length_more (x ∷ xs) w = ap suc (length_more xs w)

take-all : (xs : List Text) → take (length xs) xs ≡ xs
take-all [] = refl
take-all (x ∷ xs) = ap (λ t. x ∷ t) (take-all xs)

-- The words from `prev` on are a condition that is read up to `i`, and the rest.
pieces-cut_in_front :
    (words : List Text) (prev i : ℕ) (condition ws : List Text)
    → drop prev words ≡ condition ++ ws
    → prev + length condition ≡ i
    → pieces words prev (and_or_indexes i ws) ≡ cut_in_front condition ws
unfolding pieces and_or_indexes cut_in_front
pieces-cut_in_front words prev i condition [] e l =
    let n : i - prev ≡ length condition = omega (arith, l) in
    rw (e, n, append-nil condition, take-all condition) refl
pieces-cut_in_front words prev i condition (w ∷ ws) e l = elim (Bool-cases (is_and_or w)) [
  | inl b ↦
      let n : i - prev ≡ length condition = omega (arith, l) in
      let rest : drop i words ≡ w ∷ ws =
        sym (drop-drop prev (length condition) i words l)
        ∙ ap (drop (length condition)) e
        ∙ drop-append condition (w ∷ ws) in
      rw (b, e, n, take-append condition (w ∷ ws))
        (ap (λ t. condition ∷ t)
          (pieces-cut_in_front words i (suc i) (w ∷ []) ws rest (omega arith)))
  | inr b ↦
      let longer : prev + length (condition ++ w ∷ []) ≡ suc i =
        omega (arith, length_more condition w, l) in
      rw b (
        pieces-cut_in_front words prev (suc i) (condition ++ w ∷ []) ws
          (e ∙ sym (append_assoc condition (w ∷ []) ws)) longer)
]

-- The conditions that the indexes cut a check constraint into are its words cut in front of each AND
-- and OR, in any case of their letters, and nowhere else, as a scan from the first word to the last
-- finds them.
pub check_pieces-cut_in_front : (words : List Text) → check_pieces words ≡ cut_in_front [] words
unfolding check_pieces
check_pieces-cut_in_front words = pieces-cut_in_front words 0 0 [] words refl (omega arith)

module _ (has_and_or : Text → Bool) (is_not_null : Text → Bool)
    (replace_name : Text → Text → Text → Text) where
  none_kept :
      (ps : List (List Text))
      → All (λ p. is_not_null (trim_space (join p (codes " "))) ≡ true) ps
      → kept_pieces has_and_or is_not_null replace_name ps ≡ []
  unfolding kept_pieces
  none_kept [] _ = refl
  none_kept (p ∷ ps) (h, hs) = rw h (none_kept ps hs)

  joined-panic :
      (name s : Text)
      → All (λ p. is_not_null (trim_space (join p (codes " "))) ≡ true) (check_pieces (fields s))
      → joined_check has_and_or is_not_null replace_name name s ≡ panic
  unfolding joined_check without_first join fields fields_loop
  joined-panic name s h = rw (none_kept (check_pieces (fields s)) h) refl

  -- A constraint of several conditions that are all IS NOT NULL ends the program: no condition is kept,
  -- and the first word of none is asked for.
  check_key-panic :
      (mode : Text) (columns : List Text) (k : CheckKey)
      → has_and_or (
          trim_space
            (rename_columns has_and_or is_not_null replace_name mode columns k.search_condition))
        ≡ true
      → All
          (λ p. is_not_null (trim_space (join p (codes " "))) ≡ true)
          (check_pieces (
            fields (
              trim_space (
                rename_columns has_and_or is_not_null replace_name mode columns
                  k.search_condition))))
      → check_key has_and_or is_not_null replace_name mode columns k ≡ panic
  unfolding check_key
  check_key-panic mode columns k h hs =
      rw (check_key, h)
        (joined-panic k.constraint_name
          (trim_space
            (rename_columns has_and_or is_not_null replace_name mode columns k.search_condition))
          hs)
