-- ===== src/Common/Escape/RoundTrip.antt =====
-- How MySQL and Oracle read a literal, and the escaped text of one.
use transferdb.Prelude.{
  ℕ, Bool, true, false, not, [], ◌∷◌, ◌++◌, Option, none, some, ◌==◌, if◌then◌else◌, ◌≡◌, ◌≢◌, refl,
  arith, append_assoc, ◌||◌, Bool-cases, ==_iff, inl, inr, ◌⊎◌,
}
use mathlib.Core.Option
use transferdb.Text.{Text}
use transferdb.Common.Escape.{
  is_special, escape_rune, special_letters_using_my_sql, special_letters_using_oracle,
}

-- The escape sequences of a MySQL literal: \0 \b \n \r \t \Z, and \% and \_ keep their backslash;
-- behind any other backslash a character stands for itself.
unfoldable pub my_sql_escape : ℕ → Text
my_sql_escape c =
    if c == b'0'
    then 0 ∷ []
    else if c == b'b'
    then 8 ∷ []
    else if c == b'n'
    then 10 ∷ []
    else if c == b'r'
    then 13 ∷ []
    else if c == b't'
    then 9 ∷ []
    else if c == b'Z'
    then 26 ∷ []
    else if c == b'%' || c == b'_'
    then b'\\' ∷ c ∷ []
    else c ∷ []

-- How far the reader of a literal is: in the text, behind a backslash, or behind a quote.
pub data Mode : Type 0 where
  inside escaped quoted : Mode

-- The text of a literal, and what follows its closing quote. A doubled quote is a quote.
unfoldable pub read_my_sql : Mode → Text → Option (Text × Text)
read_my_sql inside [] = none
read_my_sql escaped [] = none
read_my_sql quoted [] = some ([], [])
read_my_sql inside (c ∷ s) =
    let slash = read_my_sql escaped s in
    let quote = read_my_sql quoted s in
    let plain = Option.map (λ (t, rest). (c ∷ t, rest)) (read_my_sql inside s) in
    if c == b'\\' then slash else if c == b'\'' then quote else plain
read_my_sql escaped (c ∷ s) =
    Option.map (λ (t, rest). (my_sql_escape c ++ t, rest)) (read_my_sql inside s)
read_my_sql quoted (c ∷ s) =
    let again = Option.map (λ (t, rest). (b'\'' ∷ t, rest)) (read_my_sql inside s) in
    if c == b'\'' then again else some ([], c ∷ s)

-- no quote follows
abbrev pub ends_literal : Text → Bool
ends_literal [] = true
ends_literal (c ∷ _) = not (c == b'\'')

module _ (beyond : ℕ → Bool) where
  special_escape :
      (c : ℕ)
      → is_special beyond c ≡ true
      → (c == b'%' || c == b'_') ≡ false
      → my_sql_escape c ≡ c ∷ []
  unfolding is_special my_sql_escape
  special_escape c h n = ground arith

  plain-ne : (c : ℕ) → is_special beyond c ≡ false → (c ≢ b'\\') × (c ≢ b'\'')
  unfolding is_special
  plain-ne c h = ground arith

  escape_rune-special :
      (c : ℕ)
      → is_special beyond c ≡ true
      → (c == b'%' || c == b'_') ≡ false
      → escape_rune beyond c ≡ b'\\' ∷ c ∷ []
  unfolding escape_rune
  escape_rune-special c h n = ground arith

  escape_rune-plain :
      (c : ℕ)
      → (is_special beyond c ≡ false) ⊎ ((c == b'%' || c == b'_') ≡ true)
      → escape_rune beyond c ≡ c ∷ []
  unfolding escape_rune
  escape_rune-plain c h = ground arith

  read_plain :
      (c : ℕ) (s : Text)
      → c ≢ b'\\'
      → c ≢ b'\''
      → read_my_sql inside (c ∷ s) ≡ Option.map (λ (t, rest). (c ∷ t, rest)) (read_my_sql inside s)
  unfolding read_my_sql
  read_plain c s h k = ground arith

  read-escape_rune :
      (c : ℕ) (s : Text)
      → read_my_sql inside (escape_rune beyond c ++ s)
        ≡ Option.map (λ (t, rest). (c ∷ t, rest)) (read_my_sql inside s)
  unfolding read_my_sql
  read-escape_rune c s = elim (Bool-cases (is_special beyond c)) [
    | inr plain ↦
        let (slash, quote) = plain-ne c plain in
        rw (escape_rune-plain c (inl plain)) (read_plain c s slash quote)
    | inl special ↦ elim (Bool-cases (c == b'%' || c == b'_')) [
      | inl wild ↦
          rw (escape_rune-plain c (inr wild)) (read_plain c s (ground arith) (ground arith))
      | inr n ↦ rw (escape_rune-special c special n, special_escape c special n)
    ]
  ]

  read_rest : (rest : Text) → ends_literal rest ≡ true → read_my_sql quoted rest ≡ some ([], rest)
  unfolding read_my_sql
  read_rest [] h = refl
  read_rest (c ∷ rest) h = ground arith

  -- MySQL reads the escaped form of every text, put between quotes, as that text, and stops at the
  -- closing quote: no character of the text ends the literal early or is lost.
  pub read-special_letters_using_my_sql :
      (s rest : Text)
      → ends_literal rest ≡ true
      → read_my_sql inside (special_letters_using_my_sql beyond s ++ b'\'' ∷ rest) ≡ some (s, rest)
  unfolding special_letters_using_my_sql
  read-special_letters_using_my_sql [] rest h = unfold read_my_sql in read_rest rest h
  read-special_letters_using_my_sql (c ∷ s) rest h = rw (
    append_assoc (escape_rune beyond c) (special_letters_using_my_sql beyond s) (b'\'' ∷ rest),
    read-escape_rune c _,
    read-special_letters_using_my_sql s rest h,
  )

-- The text of an Oracle literal, and what follows it: only a doubled quote is special.
unfoldable pub read_oracle : Mode → Text → Option (Text × Text)
read_oracle inside [] = none
read_oracle escaped [] = none
read_oracle quoted [] = some ([], [])
read_oracle inside (c ∷ s) =
    let quote = read_oracle quoted s in
    let plain = Option.map (λ (t, rest). (c ∷ t, rest)) (read_oracle inside s) in
    if c == b'\'' then quote else plain
read_oracle escaped (c ∷ s) = none
read_oracle quoted (c ∷ s) =
    let again = Option.map (λ (t, rest). (b'\'' ∷ t, rest)) (read_oracle inside s) in
    if c == b'\'' then again else some ([], c ∷ s)

read_oracle_rest :
    (rest : Text) → ends_literal rest ≡ true → read_oracle quoted rest ≡ some ([], rest)
unfolding read_oracle
read_oracle_rest [] h = refl
read_oracle_rest (c ∷ rest) h = ground arith

read_oracle_plain :
    (c : ℕ) (s : Text) {r : Text × Text}
    → (c == b'\'') ≡ false
    → read_oracle inside s ≡ some r
    → read_oracle inside (c ∷ s) ≡ some (c ∷ r.0, r.1)
unfolding read_oracle
read_oracle_plain c s h k = rw h (rw k)

read_oracle_quote :
    (c : ℕ) (s : Text) {r : Text × Text}
    → (c == b'\'') ≡ true
    → read_oracle inside s ≡ some r
    → read_oracle inside (b'\'' ∷ c ∷ s) ≡ some (c ∷ r.0, r.1)
unfolding read_oracle
read_oracle_quote c s h k = let e : c ≡ b'\'' = (==_iff c b'\'').0 h in rw e (rw k)

-- Oracle reads the escaped form of every text, put between quotes, as that text, and stops at the
-- closing quote.
pub read-special_letters_using_oracle :
    (s rest : Text)
    → ends_literal rest ≡ true
    → read_oracle inside (special_letters_using_oracle s ++ b'\'' ∷ rest) ≡ some (s, rest)
unfolding special_letters_using_oracle
read-special_letters_using_oracle [] rest h = unfold read_oracle in read_oracle_rest rest h
read-special_letters_using_oracle (c ∷ s) rest h = elim (Bool-cases (c == b'\'')) [
  | inl quote ↦ rw quote (read_oracle_quote c _ quote (read-special_letters_using_oracle s rest h))
  | inr plain ↦ rw plain (read_oracle_plain c _ plain (read-special_letters_using_oracle s rest h))
]
