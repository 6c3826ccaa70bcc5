-- ===== src/Dict/Fill.antt =====
-- Writing a list of values under a list of names, and reading them back.
use transferdb.Prelude.{false, List, [], ◌∷◌, length, some, All, ◌≡◌, refl, ◌∙◌, arith}
use transferdb.Text.{Text, text_eq}
use transferdb.Text.Laws.{text_eq_refl}
use transferdb.Dict.{Dict, get, set}
use transferdb.Dict.Laws.{get-set}

abbrev pub AreDistinct : List Text → Type 0
AreDistinct [] = Unit
AreDistinct (k ∷ ks) = All (λ j. text_eq j k ≡ false) ks × AreDistinct ks

abbrev pub fill : List Text → List Text → Dict Text → Dict Text
fill [] vs m = m
fill (k ∷ ks) [] m = m
fill (k ∷ ks) (v ∷ vs) m = fill ks vs (set k v m)

get-fill :
    (k : Text) (ks vs : List Text) (m : Dict Text)
    → All (λ j. text_eq j k ≡ false) ks
    → get k (fill ks vs m) ≡ get k m
get-fill k [] vs m _ = refl
get-fill k (j ∷ ks) [] m _ = refl
get-fill k (j ∷ ks) (v ∷ vs) m (n, ns) =
    get-fill k ks vs (set j v m) ns ∙ get-set j k v m ∙ rw n refl

-- the map has these values at these names
abbrev pub Holds : List Text → List Text → Dict Text → Type 0
Holds [] [] m = Unit
Holds [] (v ∷ vs) m = ⊥
Holds (k ∷ ks) [] m = ⊥
Holds (k ∷ ks) (v ∷ vs) m = (get k m ≡ some v) × Holds ks vs m

pub fill-Holds :
    (ks vs : List Text) (m : Dict Text)
    → AreDistinct ks
    → length vs ≡ length ks
    → Holds ks vs (fill ks vs m)
fill-Holds [] [] m _ _ = tt
fill-Holds [] (v ∷ vs) m _ e = absurd (omega (arith, e))
fill-Holds (k ∷ ks) [] m _ e = absurd (omega (arith, e))
fill-Holds (k ∷ ks) (v ∷ vs) m (d, ds) e = (
  get-fill k ks vs (set k v m) d ∙ get-set k k v m ∙ rw (text_eq_refl k) refl,
  fill-Holds ks vs (set k v m) ds (omega (arith, e)),
)
