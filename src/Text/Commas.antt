-- ===== src/Text/Commas.antt =====
-- Texts that are cut at commas.
use transferdb.Prelude.{
  ℕ, suc, ◌+◌, false, List, [], ◌∷◌, ◌++◌, All, length, ◌==◌, ◌≡◌, refl, sym, ap, ◌∙◌, arith,
  append_assoc, append-nil, if◌then◌else◌,
}
use transferdb.Text.{Text, codes, split, split_loop, join, has_prefix}

abbrev pub HasNoComma : Text → Type 0
HasNoComma = All (λ c. (c == b',') ≡ false)

split_loop-other :
    (c : ℕ) (s cur : Text)
    → (c == b',') ≡ false
    → split_loop (codes ",") 0 cur (c ∷ s) ≡ split_loop (codes ",") 0 (cur ++ c ∷ []) s
unfolding split_loop has_prefix
split_loop-other c s cur h = ground arith

split_loop-word :
    (p rest cur : Text)
    → HasNoComma p
    → split_loop (codes ",") 0 cur (p ++ rest) ≡ split_loop (codes ",") 0 (cur ++ p) rest
unfolding split_loop has_prefix
split_loop-word [] rest cur _ = ap (λ c. split_loop (codes ",") 0 c rest) (sym (append-nil cur))
split_loop-word (c ∷ p) rest cur (h, hs) =
    split_loop-other c (p ++ rest) cur h
    ∙ split_loop-word p rest (cur ++ c ∷ []) hs
    ∙ ap (λ t. split_loop (codes ",") 0 t rest) (append_assoc cur (c ∷ []) p)

split_loop-comma :
    (cur s : Text) → split_loop (codes ",") 0 cur (b',' ∷ s) ≡ cur ∷ split_loop (codes ",") 0 [] s
unfolding split_loop has_prefix
split_loop-comma cur s = refl

-- the names of a joined list
split_loop-join :
    (n : Text) (ns : List Text)
    → All HasNoComma (n ∷ ns)
    → split_loop (codes ",") 0 [] (join (n ∷ ns) (codes ",")) ≡ n ∷ ns
unfolding join split_loop
split_loop-join n [] (h, _) =
    ap (split_loop (codes ",") 0 []) (sym (append-nil n)) ∙ split_loop-word n [] [] h ∙ refl
split_loop-join n (m ∷ ns) (h, hs) =
    split_loop-word n (codes "," ++ join (m ∷ ns) (codes ",")) [] h
    ∙ split_loop-comma n (join (m ∷ ns) (codes ","))
    ∙ ap (λ t. n ∷ t) (split_loop-join m ns hs)

pub split-join :
    (n : Text) (ns : List Text)
    → All HasNoComma (n ∷ ns)
    → split (join (n ∷ ns) (codes ",")) (codes ",") ≡ n ∷ ns
unfolding split
split-join n ns h = split_loop-join n ns h

unfoldable pub commas : Text → ℕ
commas [] = 0
commas (c ∷ s) = (if c == b',' then 1 else 0) + commas s

length-split_loop : (s cur : Text) → length (split_loop (codes ",") 0 cur s) ≡ suc (commas s)
unfolding split_loop commas has_prefix
length-split_loop [] cur = refl
length-split_loop (c ∷ s) cur =
    ground (arith, length-split_loop s [], length-split_loop s (cur ++ c ∷ []))

-- a text has one part more than commas
pub length-split : (s : Text) → length (split s (codes ",")) ≡ suc (commas s)
unfolding split
length-split s = length-split_loop s []

pub commas-append : (s t : Text) → commas (s ++ t) ≡ commas s + commas t
unfolding commas
commas-append [] t = omega arith
commas-append (c ∷ s) t = omega (arith, commas-append s t)

unfoldable pub all_commas : List Text → ℕ
unfolding commas
all_commas [] = 0
all_commas (v ∷ vs) = commas v + all_commas vs

-- a joined list has a comma between its texts beside theirs
pub commas-join :
    (v : Text) (vs : List Text)
    → commas (join (v ∷ vs) (codes ",")) ≡ length vs + all_commas (v ∷ vs)
unfolding join all_commas
commas-join v [] = omega arith
commas-join v (w ∷ vs) =
    let one : commas (codes ",") ≡ 1 = unfold commas in refl in
    omega (
      arith,
      commas-append v (codes "," ++ join (w ∷ vs) (codes ",")),
      commas-append (codes ",") (join (w ∷ vs) (codes ",")),
      commas-join w vs,
      one,
    )
