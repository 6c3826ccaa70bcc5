-- ===== src/Dict/Laws.antt =====
-- Reading a map after a write.
use transferdb.Prelude.{◌≡◌, refl, [], ◌∷◌, some, arith, if◌then◌else◌}
use transferdb.Text.{Text, text_eq}
use transferdb.Text.Laws.{text_eq_iff}
use transferdb.Dict.{Dict, get, set}

pub get-set {ℓ} :
    {V : Type ℓ} (k j : Text) (v : V) (m : Dict V)
    → get j (set k v m) ≡ (if text_eq k j then some v else get j m)
unfolding get set
get-set k j v [] = refl
get-set k j v ((i, w) ∷ m) =
    ground (arith, text_eq_iff k j, text_eq_iff i k, text_eq_iff i j, get-set k j v m)
