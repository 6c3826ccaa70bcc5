-- ===== src/Reverse/Keys/Foreign.antt =====
-- The foreign keys of a table do not depend on each other.
use transferdb.Prelude.{Bool, true, false, ◌||◌, List, [], ◌∷◌, map, All, if◌then◌else◌, ◌≡◌, refl}
use mathlib.Core.Bool.{false≢true}
use transferdb.Text.{Text, codes, text_eq}
use transferdb.Reverse.Keys.{ForeignKey, foreign_key, foreign_keys_from, gen_table_foreign_key}

-- a rule that Oracle gives
abbrev pub is_known_rule : Text → Bool
is_known_rule t =
    text_eq t (codes "SET NULL")
    || text_eq t (codes "CASCADE")
    || text_eq t []
    || text_eq t (codes "NO ACTION")

branches :
    (a b c d : Bool) (x y z fk : Text)
    → (a || b || c || d) ≡ true
    → (if a then x else if b then y else if c || d then z else fk)
      ≡ (if a then x else if b then y else if c || d then z else [])
branches true b c d x y z fk h = refl
branches false true c d x y z fk h = refl
branches false false true d x y z fk h = refl
branches false false false true x y z fk h = refl
branches false false false false x y z fk h = absurd (false≢true h)

foreign_key-known :
    (mode fk : Text) (k : ForeignKey)
    → is_known_rule k.delete_rule ≡ true
    → foreign_key mode fk k ≡ foreign_key mode [] k
unfolding foreign_key
foreign_key-known mode fk k h =
    branches (text_eq k.delete_rule (codes "SET NULL")) (text_eq k.delete_rule (codes "CASCADE"))
      (text_eq k.delete_rule []) (text_eq k.delete_rule (codes "NO ACTION")) _ _ _ fk h

foreign_keys_from-map :
    (mode fk : Text) (ks : List ForeignKey)
    → All (λ k. is_known_rule k.delete_rule ≡ true) ks
    → foreign_keys_from mode fk ks ≡ map (foreign_key mode []) ks
unfolding foreign_keys_from
foreign_keys_from-map mode fk [] _ = refl
foreign_keys_from-map mode fk (k ∷ ks) (h, hs) =
    rw (foreign_key-known mode fk k h, foreign_keys_from-map mode (foreign_key mode [] k) ks hs)
      refl

-- For rules that Oracle gives (no rule, NO ACTION, CASCADE, SET NULL), the variable that the loop keeps
-- has no effect: each foreign key is made from its own row, in the order of the rows.
gen_table_foreign_key-map :
    (mode : Text) (ks : List ForeignKey)
    → All (λ k. is_known_rule k.delete_rule ≡ true) ks
    → gen_table_foreign_key mode ks ≡ map (foreign_key mode []) ks
unfolding gen_table_foreign_key
gen_table_foreign_key-map mode ks h = foreign_keys_from-map mode [] ks h
