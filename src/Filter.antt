-- ===== src/Filter.antt =====
-- Package filter: the table filters of the configuration. A pattern is a text without wildcards,
-- compared without case, or it becomes a regular expression. Package regexp is a parameter: whether
-- an expression compiles, and whether it matches a name. Patterns and names are read as characters.
pub mod Parser
pub mod Laws
pub mod Never
use transferdb.Prelude.{
  ℕ, Bool, true, false, ◌||◌, List, [], ◌∷◌, ◌++◌, if◌then◌else◌, Result, ok, err, panic, ◌>>=◌,
}
use transferdb.Text.{Text, codes, text_eq, to_upper}
use transferdb.Filter.Parser.{FilterError, bad_regexp, parse_loop, prefix}

-- `matcher` and its implementations; an expression stands as its text
pub data Matcher : Type 0 where
  string_matcher : Text → Matcher
  true_matcher : Matcher
  regexp_matcher : Text → Matcher

module _ (compiles : Text → Bool) where
  -- `newRegexpMatcher`
  unfoldable pub new_regexp_matcher : Text → Result FilterError Matcher
  unfolding text_eq
  new_regexp_matcher pat =
      if text_eq pat (codes "(?i)(^|([\\s\\t\\n]+))(.*$)")
      then ok true_matcher
      else if compiles pat
      then ok (regexp_matcher pat)
      else err (bad_regexp pat)

  -- `parsePattern`
  unfoldable pub parse_pattern : Text → Result FilterError Matcher
  parse_pattern line = do
    (literal, pattern, is_literal) ← parse_loop line [] prefix true
    if is_literal then ok (string_matcher literal) else new_regexp_matcher (pattern ++ codes "$")

  -- `Parse`: the rules of all patterns, or the first error
  unfoldable pub parse : List Text → Result FilterError (List Matcher)
  parse [] = ok []
  parse (arg ∷ args) = do m ← parse_pattern arg; rules ← parse args; ok (m ∷ rules)

module _ (matches : Text → Text → Bool) where
  unfoldable pub match_string : Matcher → Text → Bool
  unfolding text_eq to_upper
  match_string (string_matcher m) name = text_eq (to_upper m) (to_upper name)
  match_string true_matcher name = true
  match_string (regexp_matcher pat) name = matches pat name

  unfoldable pub match_table : List Matcher → Text → Bool
  match_table [] table = false
  match_table (rule ∷ f) table = if match_string rule table then true else match_table f table
