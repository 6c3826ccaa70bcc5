-- ===== src/Reverse/DefaultValue/Brackets.antt =====
-- What happens to a default value in brackets, such as ('6') or (sysdate ).
use transferdb.Prelude.{
  ℕ, suc, ◌+◌, ◌-◌, ◌<◌, true, false, List, [], ◌∷◌, ◌++◌, some, length, take, drop, leb, ◌&&◌, ◌≡◌,
  ◌≢◌, refl, ap, ◌∙◌, arith, ok, append_assoc, length-append,
}
use transferdb.Text.{Text, codes, is_space, trim_space, last_index, equal_fold}
use transferdb.Text.Spaces.{IsBlank, Lacks, trim_space-one, last_index-append, index-append}
use transferdb.Reverse.DefaultValue.{
  ColumnDefaultval, GlobalDefaultval, slice, strip_first, strip_later, strip_brackets, apply_rules,
  load_column_default_value_rule,
}

blank-Lacks : (x : ℕ) (w : Text) → is_space x ≡ false → IsBlank w → Lacks x w
blank-Lacks x [] h hw = tt
blank-Lacks x (c ∷ w) h (hc, hw) = ((λ e. cc), blank-Lacks x w h hw)

take-append_length : (s t : Text) → take (length s) (s ++ t) ≡ s
take-append_length [] t = refl
take-append_length (c ∷ s) t = rw (take-append_length s t)

drop-append_length : (s t : Text) → drop (length s) (s ++ t) ≡ t
drop-append_length [] t = refl
drop-append_length (c ∷ s) t = drop-append_length s t

take-append_one : (s : Text) (c : ℕ) (t : Text) → take (length s + 1) (s ++ c ∷ t) ≡ s ++ c ∷ []
take-append_one [] c t = refl
take-append_one (d ∷ s) c t =
    let e : length (d ∷ s) + 1 ≡ suc (length s + 1) = omega arith in rw (e, take-append_one s c t)

length_pos : (s : Text) → s ≢ [] → 0 < length s
length_pos [] n = absurd (n refl)
length_pos (c ∷ s) n = omega arith

-- `s[lo:hi]` of a text cut in three
slice-middle :
    (s t u : Text) (lo hi : ℕ)
    → lo ≡ length s
    → hi ≡ length s + length t
    → slice (s ++ (t ++ u)) lo hi ≡ ok t
unfolding slice
slice-middle s t u lo hi hl hh =
    let n : hi - lo ≡ length t = omega arith in
    let in_range : (leb lo hi && leb hi (length (s ++ (t ++ u)))) ≡ true =
      ground (arith, length-append s (t ++ u), length-append t u) in
    rw (in_range, n, hl, drop-append_length s (t ++ u), take-append_length t u)

module _ (b w : Text) (blank : IsBlank w) where
  closing : trim_space (b')' ∷ w) ≡ codes ")"
  closing = trim_space-one [] w b')' tt blank (unfold is_space in refl)

  strip_first-blank :
      (name : Text) → strip_first name (b'(' ∷ (b ++ b')' ∷ w)) (suc (length b)) ≡ ok b
  unfolding strip_first equal_fold
  strip_first-blank name = ground (
    arith,
    slice-middle (b'(' ∷ []) b (b')' ∷ w) 1 (suc (length b)) refl (omega arith),
    closing,
    drop-append_length b (b')' ∷ w),
    length-append b (b')' ∷ w),
  )

  strip_later-blank :
      (u : Text)
      → IsBlank u
      → strip_later (u ++ b'(' ∷ (b ++ b')' ∷ w)) (length u) (length u + suc (length b))
        ≡ ok (b'(' ∷ b)
  unfolding strip_later equal_fold
  strip_later-blank u hu =
      let opening : trim_space (u ++ b'(' ∷ []) ≡ codes "(" =
        trim_space-one u [] b'(' hu tt (unfold is_space in refl) in
      rw (take-append_one u b'(' (b ++ b')' ∷ w), opening)
        (slice-middle u (b'(' ∷ b) (b')' ∷ w) (length u) (length u + suc (length b)) refl refl)

  -- A default value ( b ) with blanks behind the bracket at most loses both brackets, and nothing
  -- of b, before the rules are applied.
  load_bracketed :
      (name : Text) (columns : List ColumnDefaultval) (globals : List GlobalDefaultval)
      → load_column_default_value_rule name (b'(' ∷ (b ++ b')' ∷ w)) columns globals
        ≡ ok (apply_rules name b columns globals)
  unfolding load_column_default_value_rule strip_brackets
  load_bracketed name columns globals = ground (
    arith,
    last_index-append (b'(' ∷ b) w b')' (blank-Lacks b')' w (unfold is_space in refl) blank),
    index-append [] (b ++ b')' ∷ w) b'(' tt,
    strip_first-blank name,
  )

  -- With blanks in front of the opening bracket as well, that bracket stays and the closing one is
  -- lost.
  load_indented :
      (name u : Text) (columns : List ColumnDefaultval) (globals : List GlobalDefaultval)
      → IsBlank u
      → u ≢ []
      → load_column_default_value_rule name (u ++ b'(' ∷ (b ++ b')' ∷ w)) columns globals
        ≡ ok (apply_rules name (b'(' ∷ b) columns globals)
  unfolding load_column_default_value_rule strip_brackets
  load_indented name u columns globals hu n =
      let last : last_index (u ++ b'(' ∷ (b ++ b')' ∷ w)) b')' ≡ some (length u + suc (length b)) =
        rw (← append_assoc u (b'(' ∷ b) (b')' ∷ w)) (
          last_index-append (u ++ b'(' ∷ b) w b')'
            (blank-Lacks b')' w (unfold is_space in refl) blank)
          ∙ ap some (length-append u (b'(' ∷ b))) in
      ground (
        arith,
        last,
        index-append u (b ++ b')' ∷ w) b'(' (blank-Lacks b'(' u (unfold is_space in refl) hu),
        strip_later-blank u hu,
        length_pos u n,
      )
