-- ===== src/Text/Laws.antt =====
-- Laws of the text functions.
use transferdb.Prelude.{◌≡◌, ◌↔◌, refl, true, [], ◌∷◌, arith}
use transferdb.Text.{Text, text_eq, to_upper, equal_fold}

pub text_eq→≡ : (s t : Text) → text_eq s t ≡ true → s ≡ t
unfolding text_eq
text_eq→≡ [] [] h = refl
text_eq→≡ [] (d ∷ t) h = cc
text_eq→≡ (c ∷ s) [] h = cc
text_eq→≡ (c ∷ s) (d ∷ t) h = ground (arith, text_eq→≡ s t)

pub text_eq_refl : (s : Text) → text_eq s s ≡ true
unfolding text_eq
text_eq_refl [] = refl
text_eq_refl (c ∷ s) = ground (arith, text_eq_refl s)

pub text_eq_iff : (s t : Text) → (text_eq s t ≡ true) ↔ (s ≡ t)
text_eq_iff s t = (text_eq→≡ s t, λ e. rw e (text_eq_refl t))

pub to_upper_idem : (s : Text) → to_upper (to_upper s) ≡ to_upper s
unfolding to_upper
to_upper_idem [] = refl
to_upper_idem (c ∷ s) = ground (arith, to_upper_idem s)

pub equal_fold_iff : (s t : Text) → (equal_fold s t ≡ true) ↔ (to_upper s ≡ to_upper t)
unfolding equal_fold
equal_fold_iff s t = text_eq_iff (to_upper s) (to_upper t)
