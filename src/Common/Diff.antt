-- ===== src/Common/Diff.antt =====
-- common/strings.go, `DiffStructArray`, for slices: what the first has and the second has not. No list
-- stands for a nil slice, and `eq` is the equality of the elements, which Go derives from their fields.
use transferdb.Prelude.{
  Bool, true, false, ◌&&◌, not, List, [], ◌∷◌, filter, any, Option, none, some,
}

pub record Diffs {ℓ} (A : Type ℓ) : Type ℓ where
  pub add_diffs : List A
  pub remove_diffs : List A
  pub is_ok : Bool

module _ {ℓ} {A : Type ℓ} where
  abbrev pub elements : Option (List A) → List A
  elements none = []
  elements (some xs) = xs

  abbrev pub has_none : List A → Bool
  has_none [] = true
  has_none (_ ∷ _) = false

  -- the result at the end of the function
  abbrev pub with_diffs : List A → List A → Diffs A
  with_diffs add remove = record {
    add_diffs = add;
    remove_diffs = remove;
    is_ok = has_none add && has_none remove;
  }

  module _ (eq : A → A → Bool) where
    -- the elements of the first that are no key of the map of the second
    unfoldable pub missing : List A → List A → List A
    missing xs ys = filter (λ a. not (any (λ b. eq b a) ys)) xs

    unfoldable pub diff_struct_array : Option (List A) → Option (List A) → Diffs A
    unfolding missing
    diff_struct_array none none = with_diffs [] []
    diff_struct_array none (some ys) = with_diffs [] ys
    diff_struct_array (some xs) none = with_diffs xs []
    diff_struct_array (some xs) (some ys) = with_diffs (missing xs ys) []
