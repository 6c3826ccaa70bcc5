-- ===== src/Tests/Shared.antt =====
-- Tests of common/strings.go, and its theorems at concrete texts.
use transferdb.Prelude.{
  ℕ, List, [], ◌∷◌, ◌++◌, map, length, replicate, some, Bool, false, ok, ◌/◌, ◌-◌, ◌*◌, ◌≡◌, refl,
  arith,
}
use transferdb.Text.{Text, codes, itoa_ℕ, atoi}
use transferdb.Common.Split.{
  split_multiple_slice, split_loop, segment_at, slice, slice_from, divide,
}
use transferdb.Common.Split.Pieces.{split_multiple_slice_parts}
use mathlib.Core.List.{flatten}
use transferdb.Common.Escape.{
  is_punct_or_symbol_ascii, is_special, escape_rune, special_letters_using_my_sql,
}
use transferdb.Common.Escape.RoundTrip.{inside, read_my_sql, read-special_letters_using_my_sql}

abbrev five : List ℕ
five = 1 ∷ 2 ∷ 3 ∷ 4 ∷ 5 ∷ []

abbrev ascii_only : ℕ → Bool
ascii_only _ = false

test_split : split_multiple_slice five 2 ≡ ok ((1 ∷ 2 ∷ []) ∷ (3 ∷ 4 ∷ 5 ∷ []) ∷ [])
unfolding split_multiple_slice divide split_loop segment_at slice slice_from
test_split = refl

test_escape : special_letters_using_my_sql ascii_only (codes "it's 5%") ≡ codes "it\\'s\\ 5%"
unfolding special_letters_using_my_sql escape_rune is_special is_punct_or_symbol_ascii
test_escape = unfold transferdb.Text.is_space in refl

split_multiple_slice_parts_example :
    (segments : List (List ℕ)) × (split_multiple_slice five 2 ≡ ok segments)
    × (flatten segments ≡ five)
    × (map length segments
        ≡ replicate 1 (length five / 2) ++ (length five - 1 * (length five / 2)) ∷ [])
split_multiple_slice_parts_example = split_multiple_slice_parts five 1 (omega arith)

read-special_letters_using_my_sql_example :
    read_my_sql inside
      (special_letters_using_my_sql ascii_only (codes "O'Neil\\n") ++ b'\'' ∷ codes ",1)")
    ≡ some (codes "O'Neil\\n", codes ",1)")
read-special_letters_using_my_sql_example =
    read-special_letters_using_my_sql ascii_only (codes "O'Neil\\n") (codes ",1)") refl
