-- ===== src/Reverse/TypeMap/Number.antt =====
-- The NUMBER case: the MySQL types that can be chosen, what they hold, and MySQL's limits on them.
pub mod Choice
pub mod Capacity
use transferdb.Prelude.{
  ℕ, suc, ◌-◌, ◌^◌, ◌≤◌, ◌<◌, min, true, List, [], none, ok, ℤ, pos, negsuc, ◌≡◌, ◌≢◌, refl, ◌∙◌,
  ◌⊎◌, inl, inr, arith, zero,
}
use transferdb.Text.{Text, codes}
use transferdb.Reverse.TypeMap.{
  DatatypeRule, lookup, has_number_target, with_two, with_one, need, map_fraction, map_whole,
  map_number,
}
use native.Mathlib.Nat.{le_refl, le_trans, pow-le-pow_right}
use native.Mathlib.Decide.{dec_lt, ℕ_discrete}

-- The numeric types of MySQL that the code names.
pub data Target : Type 0 where
  tinyint smallint int bigint : Target
  decimal : ℕ → ℕ → Target

-- How a type is written. A DECIMAL with no digits behind the point is DECIMAL(M) or DECIMAL(M,0).
pub data IsWritten : Target → Text → Type 0 where
  as_tinyint : IsWritten tinyint (codes "TINYINT")
  as_smallint : IsWritten smallint (codes "SMALLINT")
  as_int : IsWritten int (codes "INT")
  as_bigint : IsWritten bigint (codes "BIGINT")
  as_decimal : (m d : ℕ) → IsWritten (decimal m d) (with_two (codes "DECIMAL") (pos m) (pos d))
  as_whole : (m : ℕ) → IsWritten (decimal m 0) (with_one (codes "DECIMAL") (pos m))

-- The whole parts that a type holds lie below this: 2 ^ 7 for a signed byte, and so on.
abbrev pub bound : Target → ℕ
bound tinyint = 2 ^ 7
bound smallint = 2 ^ 15
bound int = 2 ^ 31
bound bigint = 2 ^ 63
bound (decimal m d) = 10 ^ (m - d)

-- the digits behind the point
abbrev pub fraction : Target → ℕ
fraction (decimal m d) = d
fraction _ = 0

-- MySQL's limits: 65 digits, 30 of them behind the point, and no more behind it than in all.
abbrev pub IsLegal : Target → Type 0
IsLegal (decimal m d) = (1 ≤ m) × (m ≤ 65) × (d ≤ 30) × (d ≤ m)
IsLegal _ = Unit

-- The rules name NUMBER and all five targets.
pub record HasTargets (rules : List DatatypeRule) : Type 0 where
  pub known : lookup (codes "NUMBER") rules ≢ none
  pub tinyint_known : has_number_target (codes "TINYINT") rules ≡ true
  pub smallint_known : has_number_target (codes "SMALLINT") rules ≡ true
  pub int_known : has_number_target (codes "INT") rules ≡ true
  pub bigint_known : has_number_target (codes "BIGINT") rules ≡ true
  pub decimal_known : has_number_target (codes "DECIMAL") rules ≡ true

-- `t` is chosen for NUMBER(p,s), with no error.
abbrev pub Chosen : List DatatypeRule → ℕ → ℕ → Target → Type 0
Chosen rules p s t =
    (written : Text) × (map_number rules (pos p) (pos s)
      ≡ ok (with_two (codes "NUMBER") (pos p) (pos s), written))
    × IsWritten t written
