-- ===== src/Reverse/TypeMap/Number/Capacity.antt =====
-- The NUMBER case: what the MySQL type that is chosen can hold, beside what the Oracle type holds.
use transferdb.Prelude.{
  ℕ, suc, ◌-◌, ◌^◌, ◌≤◌, ◌<◌, min, List, [], none, ok, ℤ, negsuc, ◌≡◌, ◌≢◌, refl, inl, inr, arith,
  zero,
}
use transferdb.Text.{codes}
use transferdb.Reverse.TypeMap.{DatatypeRule, lookup, map_number}
use native.Mathlib.Nat.{le_refl, le_trans, pow-le-pow_right}
use native.Mathlib.Decide.{dec_lt, ℕ_discrete}
use transferdb.Reverse.TypeMap.Number.{
  Target, tinyint, smallint, int, bigint, decimal, bound, fraction, IsLegal, HasTargets, Chosen,
}
use transferdb.Reverse.TypeMap.Number.Choice.{
  whole_tinyint, whole_smallint, whole_int, whole_bigint, whole_decimal, fraction_decimal,
}

ten_pow_le : (p k m : ℕ) → p ≤ k → 10 ^ k ≤ m → 10 ^ (p - 0) ≤ m
ten_pow_le p k m h fits = le_trans (pow-le-pow_right (omega arith) (omega arith)) fits

module _ (rules : List DatatypeRule) (has : HasTargets rules) where
  whole_choice :
      (p : ℕ)
      → 1 ≤ p
      → p ≤ 38
      → (t : Target) × Chosen rules p 0 t × (10 ^ (p - 0) ≤ bound t) × IsLegal t
  whole_choice p lo hi = elim (dec_lt p 3) [
    | yes a ↦ (
      tinyint,
      whole_tinyint rules has p lo a,
      ten_pow_le p 2 (2 ^ 7) (omega arith) (omega arith),
      tt,
    )
    | no a ↦ elim (dec_lt p 5) [
      | yes b ↦ (
        smallint,
        whole_smallint rules has p (omega arith) b,
        ten_pow_le p 4 (2 ^ 15) (omega arith) (omega arith),
        tt,
      )
      | no b ↦ elim (dec_lt p 9) [
        | yes c ↦ (
          int,
          whole_int rules has p (omega arith) c,
          ten_pow_le p 8 (2 ^ 31) (omega arith) (omega arith),
          tt,
        )
        | no c ↦ elim (dec_lt p 19) [
          | yes d ↦ (
            bigint,
            whole_bigint rules has p (omega arith) d,
            ten_pow_le p 18 (2 ^ 63) (omega arith) (omega arith),
            tt,
          )
          | no d ↦ (
            decimal p 0,
            whole_decimal rules has p (omega arith) hi,
            le_refl (10 ^ (p - 0)),
            omega arith,
          )
        ]
      ]
    ]
  ]

  fraction_choice :
      (p s : ℕ)
      → 0 < s
      → (t : Target) × Chosen rules p s t
        × (fraction t ≡ min s 30)
        × (p ≤ 38 → 10 ^ (p - s) ≤ bound t)
        × (p ≤ 38 → s ≤ p → IsLegal t)
        × (p < s → s ≤ 30 → p ≢ 38 → ¬ IsLegal t)
  fraction_choice p s lo = elim (ℕ_discrete p 38) [
    | yes e ↦ (
      decimal 65 (min s 30),
      fraction_decimal rules has p s 65 (min s 30) lo (inl (e, refl)) refl,
      refl,
      λ h. pow-le-pow_right (omega arith) (omega arith),
      λ h k. omega arith,
      λ h k n. absurd (n e),
    )
    | no n ↦ (
      decimal p (min s 30),
      fraction_decimal rules has p s p (min s 30) lo (inr (n, refl)) refl,
      refl,
      λ h. pow-le-pow_right (omega arith) (omega arith),
      λ h k. omega arith,
      λ h k _ legal. omega arith,
    )
  ]

  -- For every precision that Oracle allows and every scale from 0 up to the precision, a rule list that
  -- names all targets gives NUMBER(p,s) a type that holds every whole part of p - s digits, and min s 30
  -- digits behind the point.
  pub number_capacity :
      (p s : ℕ)
      → 1 ≤ p
      → p ≤ 38
      → s ≤ p
      → (t : Target) × Chosen rules p s t × (10 ^ (p - s) ≤ bound t) × (min s 30 ≤ fraction t)
  number_capacity p zero lo hi h =
      let (t, chosen, fits, _) = whole_choice p lo hi in (t, chosen, fits, omega arith)
  number_capacity p (suc s) lo hi h =
      let (t, chosen, digits, fits, _, _) = fraction_choice p (suc s) (omega arith) in
      (t, chosen, fits hi, omega arith)

  -- Where the scale is no larger than the precision, the type keeps MySQL's limits on DECIMAL.
  pub number-IsLegal :
      (p s : ℕ) → 1 ≤ p → p ≤ 38 → s ≤ p → (t : Target) × Chosen rules p s t × IsLegal t
  number-IsLegal p zero lo hi h =
      let (t, chosen, _, legal) = whole_choice p lo hi in (t, chosen, legal)
  number-IsLegal p (suc s) lo hi h =
      let (t, chosen, _, _, legal, _) = fraction_choice p (suc s) (omega arith) in
      (t, chosen, legal hi h)

  -- Oracle also allows a scale above the precision. For every such scale up to 30 the type that is
  -- chosen breaks MySQL's limits: it has more digits behind the point than in all.
  number_illegal : (p s : ℕ) → p < s → s ≤ 30 → (t : Target) × Chosen rules p s t × ¬ IsLegal t
  number_illegal p s h k =
      let (t, chosen, _, _, _, illegal) = fraction_choice p s (omega arith) in
      (t, chosen, illegal h k (omega arith))

-- A negative scale gives two empty types and no error, whatever the rules for NUMBER are.
pub number_negative :
    (rules : List DatatypeRule) (p : ℤ) (s : ℕ)
    → lookup (codes "NUMBER") rules ≢ none
    → map_number rules p (negsuc s) ≡ ok ([], [])
unfolding map_number
number_negative rules p s known = ground arith
