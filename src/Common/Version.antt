-- ===== src/Common/Version.antt =====
-- common/strings.go, `VersionOrdinal`: a text for a version, which compares as the numbers in it do. Every
-- group of digits gets its length in front, and a zero at its start is left out.
pub mod Order
use transferdb.Prelude.{
  ℕ, ◌+◌, ◌%◌, Bool, true, false, [], ◌∷◌, ◌++◌, Option, none, some, ◌==◌, ltb, ◌&&◌, if◌then◌else◌,
}
use transferdb.Text.{Text, is_digit}

-- a group of digits: its length, a byte, and the digits
abbrev pub Group : Type 0
Group = ℕ × Text

abbrev pub flush : Option Group → Text
flush none = []
flush (some (n, ds)) = n ∷ ds

abbrev pub starts_with_zero : Text → Bool
starts_with_zero [] = false
starts_with_zero (d ∷ _) = d == b'0'

abbrev pub replace_first : ℕ → Text → Text
replace_first b [] = b ∷ []
replace_first b (_ ∷ ds) = b ∷ ds

-- The guard of the panic compares a byte plus one, which wraps around, with 255, and never holds.
unfoldable pub add_digit : ℕ → Option Group → Group
add_digit b none = (1, b ∷ [])
add_digit b (some (n, ds)) =
    if n == 1 && starts_with_zero ds then (n, replace_first b ds) else ((n + 1) % 256, ds ++ b ∷ [])

unfoldable pub ordinal_loop : Option Group → Text → Text
unfolding add_digit
ordinal_loop group [] = flush group
ordinal_loop group (b ∷ s) =
    let digit = ordinal_loop (some (add_digit b group)) s in
    let other = ordinal_loop none s in if is_digit b then digit else flush group ++ b ∷ other

unfoldable pub version_ordinal : Text → Text
unfolding ordinal_loop
version_ordinal version = ordinal_loop none version

-- the order of strings, by their bytes
unfoldable pub text_ltb : Text → Text → Bool
text_ltb _ [] = false
text_ltb [] (_ ∷ _) = true
text_ltb (x ∷ xs) (y ∷ ys) =
    let rest = text_ltb xs ys in if ltb x y then true else if x == y then rest else false
