-- ===== src/Dict.antt =====
-- Go's map[string]V as an association list, with the law that its users need.
pub mod Laws
pub mod Fill
use transferdb.Prelude.{Bool, List, [], ◌∷◌, Option, none, some, if◌then◌else◌}
use transferdb.Text.{Text, text_eq}

abbrev pub Dict {ℓ} : Type ℓ → Type ℓ
Dict V = List (Text × V)

module _ {ℓ} {V : Type ℓ} where
  unfoldable pub get : Text → Dict V → Option V
  get k [] = none
  get k ((j, v) ∷ m) = if text_eq j k then some v else get k m

  unfoldable pub set : Text → V → Dict V → Dict V
  set k v [] = (k, v) ∷ []
  set k v ((j, w) ∷ m) = if text_eq j k then (j, v) ∷ m else (j, w) ∷ set k v m
