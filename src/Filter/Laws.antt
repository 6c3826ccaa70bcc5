-- ===== src/Filter/Laws.antt =====
-- What a pattern means: plain texts and illegal characters.
use transferdb.Prelude.{
  ℕ, Bool, true, false, ◌||◌, [], ◌∷◌, ◌++◌, All, ok, err, ◌==◌, ◌≡◌, ◌∙◌, ◌↔◌, sym, ap, arith,
  append_assoc, append-nil,
}
use transferdb.Text.{Text, to_upper}
use transferdb.Text.Laws.{text_eq_iff}
use transferdb.Filter.Parser.{unexpected, is_literal_char, parse_from, parse_loop, prefix}
use transferdb.Filter.{Matcher, string_matcher, parse_pattern, match_string}

abbrev pub IsLiteral : Text → Type 0
IsLiteral = All (λ c. is_literal_char c ≡ true)

abbrev is_wild : ℕ → Bool
is_wild c = c == b'\\' || c == b'.' || c == b'*' || c == b'?' || c == b'['

literal-not-wild : (c : ℕ) → is_literal_char c ≡ true → is_wild c ≡ false
literal-not-wild c h = ground arith

parse_from-char :
    (c : ℕ) (s literal pattern : Text) (flag : Bool)
    → is_literal_char c ≡ true
    → parse_from 0 (c ∷ s) literal pattern flag
      ≡ parse_from 0 s (literal ++ c ∷ []) (pattern ++ c ∷ []) flag
unfolding parse_from
parse_from-char c s literal pattern flag h =
    let w : is_wild c ≡ false = literal-not-wild c h in ground arith

parse_from-bad :
    (c : ℕ) (s literal pattern : Text) (flag : Bool)
    → is_literal_char c ≡ false
    → is_wild c ≡ false
    → parse_from 0 (c ∷ s) literal pattern flag ≡ err (unexpected c)
unfolding parse_from
parse_from-bad c s literal pattern flag h w = ground arith

-- the characters of a plain text go to both builders
parse_from-literal :
    (s rest literal pattern : Text) (flag : Bool)
    → IsLiteral s
    → parse_from 0 (s ++ rest) literal pattern flag
      ≡ parse_from 0 rest (literal ++ s) (pattern ++ s) flag
parse_from-literal [] rest literal pattern flag h = rw (append-nil literal, append-nil pattern)
parse_from-literal (c ∷ s) rest literal pattern flag (h, hs) =
    parse_from-char c (s ++ rest) literal pattern flag h
    ∙ parse_from-literal s rest (literal ++ c ∷ []) (pattern ++ c ∷ []) flag hs
    ∙ rw (append_assoc literal (c ∷ []) s, append_assoc pattern (c ∷ []) s)

parse_loop-literal :
    (s : Text) → IsLiteral s → parse_loop s [] prefix true ≡ ok (s, prefix ++ s, true)
unfolding parse_loop parse_from
parse_loop-literal s h =
    ap (λ t. parse_from 0 t [] prefix true) (sym (append-nil s))
    ∙ parse_from-literal s [] [] prefix true h

parse_loop-unexpected :
    (s rest : Text) (c : ℕ)
    → IsLiteral s
    → is_literal_char c ≡ false
    → is_wild c ≡ false
    → parse_loop (s ++ c ∷ rest) [] prefix true ≡ err (unexpected c)
unfolding parse_loop
parse_loop-unexpected s rest c h hc hw =
    parse_from-literal s (c ∷ rest) [] prefix true h
    ∙ parse_from-bad c rest s (prefix ++ s) true hc hw

-- A pattern of plain characters alone is compared as it is, whatever the expressions compile to and
-- match: it takes a name exactly if the two have one upper case.
match-literal :
    (compiles : Text → Bool) (matches : Text → Text → Bool) (s name : Text)
    → IsLiteral s
    → (m : Matcher) × (parse_pattern compiles s ≡ ok m)
      × ((match_string matches m name ≡ true) ↔ (to_upper s ≡ to_upper name))
unfolding match_string parse_pattern
match-literal compiles matches s name h =
    (string_matcher s, rw (parse_loop-literal s h), text_eq_iff (to_upper s) (to_upper name))

-- A character that is neither plain nor one of \\ . * ? [ is refused behind every plain text.
pub parse_pattern-unexpected :
    (compiles : Text → Bool) (s rest : Text) (c : ℕ)
    → IsLiteral s
    → is_literal_char c ≡ false
    → is_wild c ≡ false
    → parse_pattern compiles (s ++ c ∷ rest) ≡ err (unexpected c)
unfolding parse_pattern
parse_pattern-unexpected compiles s rest c h hc hw = rw (parse_loop-unexpected s rest c h hc hw)
