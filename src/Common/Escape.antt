-- ===== src/Common/Escape.antt =====
-- common/strings.go, `SpecialLettersUsingMySQL` and `SpecialLettersUsingOracle`: texts that become
-- the inside of a quoted literal. Package unicode's tables beyond ASCII are a parameter.
pub mod RoundTrip
use transferdb.Prelude.{
  ℕ, Bool, true, false, ◌||◌, ◌&&◌, not, [], ◌∷◌, ◌++◌, leb, ltb, ◌==◌, if◌then◌else◌,
}
use transferdb.Text.{Text, is_space}

-- unicode.IsPunct || unicode.IsSymbol on ASCII: what is printable and no letter, digit or space
unfoldable pub is_punct_or_symbol_ascii : ℕ → Bool
is_punct_or_symbol_ascii r =
    leb b'!' r && leb r b'/'
    || leb b':' r && leb r b'@'
    || leb b'[' r && leb r b'`'
    || leb b'{' r && leb r b'~'

module _ (punct_or_symbol_beyond : ℕ → Bool) where
  unfoldable pub is_special : ℕ → Bool
  unfolding is_punct_or_symbol_ascii is_space
  is_special r =
      (if ltb r 128 then is_punct_or_symbol_ascii r else punct_or_symbol_beyond r) || is_space r

  -- what one round appends to `chars`
  unfoldable pub escape_rune : ℕ → Text
  escape_rune r =
      if is_special r then if r == b'%' || r == b'_' then r ∷ [] else b'\\' ∷ r ∷ [] else r ∷ []

  unfoldable pub special_letters_using_my_sql : Text → Text
  special_letters_using_my_sql [] = []
  special_letters_using_my_sql (r ∷ bs) = escape_rune r ++ special_letters_using_my_sql bs

unfoldable pub special_letters_using_oracle : Text → Text
special_letters_using_oracle [] = []
special_letters_using_oracle (r ∷ bs) =
    (if r == b'\'' then b'\'' ∷ r ∷ [] else r ∷ []) ++ special_letters_using_oracle bs
