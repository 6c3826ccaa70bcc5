-- ===== src/Meta/Groups.antt =====
-- database/meta/meta.go, `ArrayStructGroupsOf`: the rows that are created are cut into batches.
use transferdb.Prelude.{
  ℕ, zero, suc, ◌+◌, ◌/◌, ◌*◌, ◌%◌, ◌<◌, List, [], ◌∷◌, ◌++◌, Option, none, some, length, take,
  drop, leb, ◌==◌, true, false, if◌then◌else◌, ◌≡◌, refl, sym, ap, ◌∙◌, take-append-drop, drop-drop,
  append-nil, inl, inr, Bool-cases, arith,
}
use native.Mathlib.Nat.{div-add-mod}
use transferdb.Migrate.Rows.Batches.{rows_of}

unfoldable pub quantity : ℕ → ℕ → ℕ
quantity max num = if max % num == 0 then max / num else max / num + 1

whole-suc :
    (max num d r : ℕ) → num * d + r ≡ max → (r == 0) ≡ true → num < max → (k : ℕ) × (d ≡ suc k)
whole-suc max num zero r e b l = absurd (ground arith)
whole-suc max num (suc k) r e b l = (k, refl)

quantity-suc : (max num : ℕ) → num < max → (k : ℕ) × (quantity max num ≡ suc k)
unfolding quantity
quantity-suc max num l = elim (Bool-cases (max % num == 0)) [
  | inl b ↦ rw b (whole-suc max num (max / num) (max % num) (div-add-mod max num) b l)
  | inr b ↦ rw b (max / num, omega arith)
]

≢-== : (num : ℕ) → 0 < num → (num == 0) ≡ false
≢-== num h = ground arith

module _ {A : Type 0} where
  -- the rounds that are left; the last one takes the rest
  unfoldable pub group_loop : ℕ → ℕ → ℕ → List A → List (List A)
  group_loop zero num start fsm = []
  group_loop (suc zero) num start fsm = drop start fsm ∷ []
  group_loop (suc (suc n)) num start fsm =
      take num (drop start fsm) ∷ group_loop (suc n) num (start + num) fsm

  -- none for a division by zero
  unfoldable pub array_struct_groups_of : List A → ℕ → Option (List (List A))
  unfolding group_loop quantity
  array_struct_groups_of fsm num =
      if leb (length fsm) num
      then some (fsm ∷ [])
      else if num == 0
      then none
      else some (group_loop (quantity (length fsm) num) num 0 fsm)

  group_loop-rows :
      (n num start : ℕ) (fsm : List A) → rows_of (group_loop (suc n) num start fsm) ≡ drop start fsm
  unfolding group_loop
  group_loop-rows zero num start fsm = append-nil (drop start fsm)
  group_loop-rows (suc n) num start fsm =
      ap (λ t. take num (drop start fsm) ++ t)
        (group_loop-rows n num (start + num) fsm ∙ sym (drop-drop start num (start + num) fsm refl))
      ∙ take-append-drop num (drop start fsm)

  -- Rows that are cut into batches of some size are all in the batches, in their order.
  pub array_struct_groups_of-rows :
      (fsm : List A) (num : ℕ)
      → 0 < num
      → (gs : List (List A)) × ((array_struct_groups_of fsm num ≡ some gs) × (rows_of gs ≡ fsm))
  unfolding array_struct_groups_of
  array_struct_groups_of-rows fsm num h = elim (Bool-cases (leb (length fsm) num)) [
    | inl b ↦ rw b (fsm ∷ [], (refl, append-nil fsm))
    | inr b ↦
        let (k, e) = quantity-suc (length fsm) num (ground arith) in
        rw (b, ≢-== num h, e) (group_loop (suc k) num 0 fsm, (refl, group_loop-rows k num 0 fsm))
  ]
