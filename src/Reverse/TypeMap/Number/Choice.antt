-- ===== src/Reverse/TypeMap/Number/Choice.antt =====
-- The NUMBER case: which type is chosen at each precision and scale.
use transferdb.Prelude.{ℕ, ◌≤◌, ◌<◌, min, true, List, ok, pos, ◌≡◌, ◌≢◌, refl, ◌∙◌, ◌⊎◌, arith}
use transferdb.Text.{Text, codes}
use transferdb.Reverse.TypeMap.{
  DatatypeRule, has_number_target, with_two, with_one, need, map_fraction, map_whole, map_number,
}
use transferdb.Reverse.TypeMap.Number.{
  tinyint, smallint, int, bigint, decimal, as_tinyint, as_smallint, as_int, as_bigint, as_decimal,
  as_whole, HasTargets, Chosen,
}

module _ (rules : List DatatypeRule) (has : HasTargets rules) where
  map_number-whole :
      (p s : ℕ) → s ≡ 0 → map_number rules (pos p) (pos s) ≡ map_whole rules (pos p) (pos s)
  unfolding map_number
  map_number-whole p s h = ground (arith, has.known)

  map_number-fraction :
      (p s : ℕ) → 0 < s → map_number rules (pos p) (pos s) ≡ map_fraction rules (pos p) (pos s)
  unfolding map_number
  map_number-fraction p s h = ground (arith, has.known)

  need_known :
      (name origin written : Text)
      → has_number_target name rules ≡ true
      → need rules name origin written ≡ ok (origin, written)
  unfolding need
  need_known name origin written h = ground arith

  pub whole_tinyint : (p : ℕ) → 1 ≤ p → p < 3 → Chosen rules p 0 tinyint
  unfolding map_whole
  whole_tinyint p lo hi = (
    codes "TINYINT",
    map_number-whole p 0 refl
        ∙ ground (
          arith,
          need_known (codes "TINYINT") (with_two (codes "NUMBER") (pos p) (pos 0)) (codes "TINYINT")
              has.tinyint_known,
        ),
    as_tinyint,
  )

  pub whole_smallint : (p : ℕ) → 3 ≤ p → p < 5 → Chosen rules p 0 smallint
  unfolding map_whole
  whole_smallint p lo hi = (
    codes "SMALLINT",
    map_number-whole p 0 refl
        ∙ ground (
          arith,
          need_known (codes "SMALLINT") (with_two (codes "NUMBER") (pos p) (pos 0))
              (codes "SMALLINT") has.smallint_known,
        ),
    as_smallint,
  )

  pub whole_int : (p : ℕ) → 5 ≤ p → p < 9 → Chosen rules p 0 int
  unfolding map_whole
  whole_int p lo hi = (
    codes "INT",
    map_number-whole p 0 refl
        ∙ ground (
          arith,
          need_known (codes "INT") (with_two (codes "NUMBER") (pos p) (pos 0)) (codes "INT")
              has.int_known,
        ),
    as_int,
  )

  pub whole_bigint : (p : ℕ) → 9 ≤ p → p < 19 → Chosen rules p 0 bigint
  unfolding map_whole
  whole_bigint p lo hi = (
    codes "BIGINT",
    map_number-whole p 0 refl
        ∙ ground (
          arith,
          need_known (codes "BIGINT") (with_two (codes "NUMBER") (pos p) (pos 0)) (codes "BIGINT")
              has.bigint_known,
        ),
    as_bigint,
  )

  pub whole_decimal : (p : ℕ) → 19 ≤ p → p ≤ 38 → Chosen rules p 0 (decimal p 0)
  unfolding map_whole
  whole_decimal p lo hi = (
    with_one (codes "DECIMAL") (pos p),
    map_number-whole p 0 refl
        ∙ ground (
          arith,
          need_known (codes "DECIMAL") (with_two (codes "NUMBER") (pos p) (pos 0))
              (with_one (codes "DECIMAL") (pos p)) has.decimal_known,
        ),
    as_whole p,
  )

  pub fraction_decimal :
      (p s m d : ℕ)
      → 0 < s
      → (p ≡ 38) × (m ≡ 65) ⊎ (p ≢ 38) × (m ≡ p)
      → d ≡ min s 30
      → Chosen rules p s (decimal m d)
  unfolding map_fraction
  fraction_decimal p s m d lo hm hd = (
    with_two (codes "DECIMAL") (pos m) (pos d),
    map_number-fraction p s lo
        ∙ ground (
          arith,
          need_known (codes "DECIMAL") (with_two (codes "NUMBER") (pos p) (pos s))
              (with_two (codes "DECIMAL") (pos m) (pos d)) has.decimal_known,
        ),
    as_decimal m d,
  )
