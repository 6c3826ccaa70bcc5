-- ===== src/Filter/Parser.antt =====
-- filter/parser.go, the loop of `parsePattern` over the characters of a pattern.
use transferdb.Prelude.{
  ℕ, zero, suc, ◌+◌, Bool, true, false, ◌||◌, ◌&&◌, [], ◌∷◌, ◌++◌, Option, none, some, leb, ◌==◌,
  if◌then◌else◌, take, Result, ok, err, ◌-◌,
}
use transferdb.Text.{Text, codes}

pub data FilterError : Type 0 where
  bad_class : FilterError
  unexpected : ℕ → FilterError
  bad_regexp : Text → FilterError

abbrev pub is_ascii_alphanumeric : ℕ → Bool
is_ascii_alphanumeric b =
    leb b'0' b && leb b b'9' || leb b'a' b && leb b b'z' || leb b'A' b && leb b b'Z'

-- what `wildcardPatternBuilder` starts with
abbrev pub prefix : Text
prefix = codes "(?i)(^|([\\s\\t\\n]+))"

abbrev after : ℕ → Option ℕ → Option ℕ
after k none = none
after k (some n) = some (n + k)

abbrev either : Option ℕ → Option ℕ → Option ℕ
either none o = o
either (some n) o = some n

-- The repeated group of `wildcardRangeRegexp` and the bracket behind it: how many characters they
-- take, if they match. A backslash takes the next character along, which is no letter or digit.
unfoldable pub class_items : Bool → Text → Option ℕ
class_items seen [] = none
class_items seen (c ∷ []) = if c == b']' && seen then some 1 else none
class_items seen (c ∷ d ∷ s) =
    let pair = after 2 (class_items true s) in
    let single = after 1 (class_items true (d ∷ s)) in
    if c == b']'
    then if seen then some 1 else none
    else if c == b'\\'
    then if is_ascii_alphanumeric d then none else pair
    else single

-- `wildcardRangeRegexp.FindStringIndex` at a bracket; the text begins behind it. The expression
-- takes a leading ! by itself where it can, and as a member of the class where it must.
unfoldable pub wildcard_range : Text → Option ℕ
unfolding class_items
wildcard_range [] = none
wildcard_range (c ∷ s) =
    let as_member = after 1 (class_items false (c ∷ s)) in
    let negated = either (after 2 (class_items false s)) as_member in
    if c == b'!' then negated else as_member

-- what the loop writes for a class: `line[i:end]`, with a leading ! or ^ translated
unfoldable pub class_text : Text → Text
class_text [] = []
class_text (b ∷ []) = b ∷ []
class_text (b ∷ c ∷ s) =
    if c == b'!' then codes "[^" ++ s else if c == b'^' then codes "[\\^" ++ s else b ∷ c ∷ s

abbrev pub is_literal_char : ℕ → Bool
is_literal_char c = c == b'$' || c == b'_' || is_ascii_alphanumeric c || leb 0x80 c

-- The loop with `skip` characters of a class still to pass. It returns the two builders and the
-- flag `isLiteralString`.
unfoldable pub parse_from : ℕ → Text → Text → Text → Bool → Result FilterError (Text × Text × Bool)
unfolding wildcard_range class_text
parse_from skip [] literal pattern flag = ok (literal, pattern, flag)
parse_from (suc skip) (c ∷ s) literal pattern flag = parse_from skip s literal pattern flag
parse_from zero (c ∷ s) literal pattern flag =
    let backslash = parse_from 0 s literal (pattern ++ codes "\\") false in
    let dot = parse_from 0 s literal (pattern ++ codes ".") false in
    let star = parse_from 0 s literal (pattern ++ codes ".*") false in
    let class : Result FilterError (Text × Text × Bool) = elim (wildcard_range s) [
      | none ↦ err bad_class
      | some n ↦ parse_from (n - 1) s literal (pattern ++ class_text (take n (c ∷ s))) false
    ] in
    let plain = parse_from 0 s (literal ++ c ∷ []) (pattern ++ c ∷ []) flag in
    if c == b'\\'
    then backslash
    else if c == b'.'
    then dot
    else if c == b'*'
    then star
    else if c == b'?'
    then dot
    else if c == b'['
    then class
    else if is_literal_char c
    then plain
    else err (unexpected c)

unfoldable pub parse_loop : Text → Text → Text → Bool → Result FilterError (Text × Text × Bool)
unfolding parse_from
parse_loop line literal pattern flag = parse_from 0 line literal pattern flag
