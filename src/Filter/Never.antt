-- ===== src/Filter/Never.antt =====
-- The special case for * in `newRegexpMatcher`.
use transferdb.Prelude.{
  ℕ, zero, suc, ◌-◌, Bool, true, false, [], ◌∷◌, ◌++◌, append_assoc, append-nil, take, Option, none,
  some, if◌then◌else◌, Result, ok, err, panic, ◌>>=◌, ◌==◌, ◌≡◌, ◌≢◌, refl, sym, arith,
}
use transferdb.Text.{Text, codes, text_eq}
use transferdb.Filter.Parser.{
  FilterError, bad_class, unexpected, is_literal_char, parse_from, parse_loop, prefix,
  wildcard_range, class_text,
}
use transferdb.Filter.{string_matcher, true_matcher, new_regexp_matcher, parse_pattern}

-- no opening bracket first
abbrev Starts : Text → Type 0
Starts [] = Unit
Starts (d ∷ t) = (d == b'(') ≡ false

-- the prefix, and no opening bracket behind it
abbrev Builds : Text → Type 0
Builds pattern = (t : Text) × (pattern ≡ prefix ++ t) × Starts t

abbrev Good : Result FilterError (Text × Text × Bool) → Type 0
Good (ok (literal, pattern, flag)) = Builds pattern
Good (err e) = Unit
Good panic = Unit

Builds-append : (pattern u : Text) → Builds pattern → Starts u → Builds (pattern ++ u)
Builds-append pattern u ([], e, _) h = (u, rw e (append_assoc prefix [] u), h)
Builds-append pattern u (d ∷ t, e, k) h = (d ∷ (t ++ u), rw e (append_assoc prefix (d ∷ t) u), k)

class_text-Starts :
    (c : ℕ) (n : ℕ) (s : Text) → (c == b'[') ≡ true → Starts (class_text (take n (c ∷ s)))
unfolding class_text
class_text-Starts c zero s h = tt
class_text-Starts c (suc zero) s h = ground arith
class_text-Starts c (suc (suc n)) [] h = ground arith
class_text-Starts c (suc (suc n)) (d ∷ s) h = ground arith

literal-Starts : (c : ℕ) → is_literal_char c ≡ true → Starts (c ∷ [])
literal-Starts c h = ground arith

-- the branches of one round
abbrev Run : Type 0
Run = Result FilterError (Text × Text × Bool)

Good-round :
    (b₁ b₂ b₃ b₄ b₅ b₆ : Bool) (x y z v u : Run) (e : FilterError)
    → Good x
    → Good y
    → Good z
    → (b₅ ≡ true → Good v)
    → (b₆ ≡ true → Good u)
    → Good (
        if b₁
        then x
        else if b₂
        then y
        else if b₃
        then z
        else if b₄
        then y
        else if b₅
        then v
        else if b₆
        then u
        else err e)
Good-round true b₂ b₃ b₄ b₅ b₆ x y z v u e hx hy hz hv hu = hx
Good-round false true b₃ b₄ b₅ b₆ x y z v u e hx hy hz hv hu = hy
Good-round false false true b₄ b₅ b₆ x y z v u e hx hy hz hv hu = hz
Good-round false false false true b₅ b₆ x y z v u e hx hy hz hv hu = hy
Good-round false false false false true b₆ x y z v u e hx hy hz hv hu = hv refl
Good-round false false false false false true x y z v u e hx hy hz hv hu = hu refl
Good-round false false false false false false x y z v u e hx hy hz hv hu = tt

Good-class :
    (o : Option ℕ) (f : ℕ → Result FilterError (Text × Text × Bool))
    → ((n : ℕ) → Good (f n))
    → Good (elim o [ none ↦ err bad_class | some n ↦ f n ])
Good-class none f h = tt
Good-class (some n) f h = h n

parse_from-Good :
    (skip : ℕ) (s literal pattern : Text) (flag : Bool)
    → Builds pattern
    → Good (parse_from skip s literal pattern flag)
unfolding parse_from
parse_from-Good skip [] literal pattern flag h = h
parse_from-Good (suc skip) (c ∷ s) literal pattern flag h =
    parse_from-Good skip s literal pattern flag h
parse_from-Good zero (c ∷ s) literal pattern flag h =
    let pushed : (u : Text) → Starts u → Good (parse_from 0 s literal (pattern ++ u) false) =
      λ u k. parse_from-Good 0 s literal (pattern ++ u) false (Builds-append pattern u h k) in
    let text_of = λ (n : ℕ). class_text (take n (c ∷ s)) in
    let class_run = λ (n : ℕ). parse_from (n - 1) s literal (pattern ++ text_of n) false in
    Good-round (c == b'\\') (c == b'.') (c == b'*') (c == b'?') (c == b'[') (is_literal_char c)
      (parse_from 0 s literal (pattern ++ codes "\\") false)
      (parse_from 0 s literal (pattern ++ codes ".") false)
      (parse_from 0 s literal (pattern ++ codes ".*") false)
      (elim (wildcard_range s) [ none ↦ err bad_class | some n ↦ class_run n ])
      (parse_from 0 s (literal ++ c ∷ []) (pattern ++ c ∷ []) flag) (unexpected c)
      (pushed (codes "\\") refl) (pushed (codes ".") refl) (pushed (codes ".*") refl)
      (λ e. Good-class (wildcard_range s) class_run λ n.
        parse_from-Good (n - 1) s literal (pattern ++ text_of n) false
          (Builds-append pattern (text_of n) h (class_text-Starts c n s e)))
      λ e.
        parse_from-Good 0 s (literal ++ c ∷ []) (pattern ++ c ∷ []) flag
          (Builds-append pattern (c ∷ []) h (literal-Starts c e))

not_special : (t : Text) → Starts t → text_eq (t ++ codes "$") (codes "(.*$)") ≡ false
unfolding text_eq
not_special [] h = refl
not_special (d ∷ t) h = ground arith

no_special :
    (t : Text)
    → Starts t
    → text_eq (prefix ++ (t ++ codes "$")) (codes "(?i)(^|([\\s\\t\\n]+))(.*$)") ≡ false
unfolding text_eq
no_special t h = not_special t h

new_regexp_matcher-compiled :
    (compiles : Text → Bool) (pattern : Text)
    → text_eq pattern (codes "(?i)(^|([\\s\\t\\n]+))(.*$)") ≡ false
    → new_regexp_matcher compiles pattern ≢ ok true_matcher
unfolding new_regexp_matcher
new_regexp_matcher-compiled compiles pattern h = ground arith

new_regexp_matcher-Builds :
    (compiles : Text → Bool) (pattern : Text)
    → Builds pattern
    → new_regexp_matcher compiles (pattern ++ codes "$") ≢ ok true_matcher
new_regexp_matcher-Builds compiles pattern (t, e, k) =
    new_regexp_matcher-compiled compiles (pattern ++ codes "$")
      (rw (e, append_assoc prefix t (codes "$")) (no_special t k))

-- what `parsePattern` makes of the builders
finish :
    (compiles : Text → Bool) (r : Result FilterError (Text × Text × Bool))
    → Good r
    → (r >>= λ (literal, pattern, flag).
        if flag
        then ok (string_matcher literal)
        else new_regexp_matcher compiles (pattern ++ codes "$"))
      ≢ ok true_matcher
finish compiles (ok (literal, pattern, true)) h = λ e. cc
finish compiles (ok (literal, pattern, false)) h = new_regexp_matcher-Builds compiles pattern h
finish compiles (err e) h = λ e. cc
finish compiles panic h = λ e. cc

-- No pattern gives the matcher that accepts every name, not even *, which becomes an expression.
parse_pattern-true_matcher :
    (compiles : Text → Bool) (line : Text) → parse_pattern compiles line ≢ ok true_matcher
unfolding parse_pattern parse_loop
parse_pattern-true_matcher compiles line =
    finish compiles (parse_from 0 line [] prefix true)
      (parse_from-Good 0 line [] prefix true ([], sym (append-nil prefix), tt))
