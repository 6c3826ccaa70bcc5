-- ===== src/Compare/Chunk/Cover.antt =====
-- Which chunk a row of the target falls into.
use transferdb.Prelude.{
  ℕ, ◌+◌, Bool, true, false, ◌||◌, ◌&&◌, List, [], ◌∷◌, ◌++◌, map, Option, none, some,
  if◌then◌else◌, ◌≡◌, refl, ap, ◌∙◌, arith,
}
use transferdb.Text.{Text, codes, strings_builder}
use transferdb.Meta.Compare.{DataCompareMeta}
use transferdb.Compare.Chunk.{Config, Chunk, meta_row, boundary_rows, chunk_rows}

-- how many conditions of a list hold
unfoldable pub hits : {A : Type 0} → (A → Bool) → List A → ℕ
hits p [] = 0
hits p (x ∷ xs) = (if p x then 1 else 0) + hits p xs

hits-append :
    {A : Type 0} (p : A → Bool) (xs ys : List A) → hits p (xs ++ ys) ≡ hits p xs + hits p ys
unfolding hits
hits-append p [] ys = omega arith
hits-append p (x ∷ xs) ys = omega (arith, hits-append p xs ys)

hits-map :
    {A B : Type 0} (p : B → Bool) (f : A → B) (xs : List A)
    → hits p (map f xs) ≡ hits (λ x. p (f x)) xs
unfolding hits
hits-map p f [] = refl
hits-map p f (x ∷ xs) = ap (λ n. (if p (f x) then 1 else 0) + n) (hits-map p f xs)

-- A column of the target whose values but NULL are of type V, and how the database tests a condition on it.
module _ {V : Type 0} (holds : Text → Option V → Bool) (column start end : Text)
    (below above : V → Bool) where
  -- The documented meaning of a comparison, which NULL never passes; the start is not above the end.
  abbrev pub IsEvaluated : Type 0
  IsEvaluated =
      ((v : V) → holds (strings_builder (column ∷ codes " < " ∷ start ∷ [])) (some v) ≡ below v)
      × ((v : V) → holds (strings_builder (column ∷ codes " > " ∷ end ∷ [])) (some v) ≡ above v)
      × ((v : V) → (below v && above v) ≡ false)
      × (holds (strings_builder (column ∷ codes " < " ∷ start ∷ [])) none ≡ false)
      × (holds (strings_builder (column ∷ codes " > " ∷ end ∷ [])) none ≡ false)

  one_side :
      (a b : Bool)
      → (a && b) ≡ false
      → (if a then 1 else 0) + ((if b then 1 else 0) + 0) ≡ (if a || b then 1 else 0)
  one_side true true h = cc
  one_side true false h = refl
  one_side false true h = refl
  one_side false false h = refl

  -- Where the database compares values as documented and the start is not above the end, a row of the target
  -- is compared once for each of Oracle's ranges that it falls into, and once more if its value is below the
  -- start or above the end: so a value outside of all ranges on either side is compared once, also when the
  -- source has no value that low or that high. A row whose value is NULL is compared in none of the chunks
  -- that are added to Oracle's ranges.
  pub chunks_cover :
      (cfg : Config) (c : Chunk) (cmds : List Text)
      → IsEvaluated
      → ((v : V)
          → hits
              (λ (r : DataCompareMeta). holds r.where_range (some v))
              (chunk_rows cfg c column cmds ((start, end) ∷ []))
            ≡ hits (λ cmd. holds cmd (some v)) cmds + (if below v || above v then 1 else 0))
        × (hits
              (λ (r : DataCompareMeta). holds r.where_range none)
              (chunk_rows cfg c column cmds ((start, end) ∷ []))
            ≡ hits (λ cmd. holds cmd none) cmds)
  unfolding chunk_rows boundary_rows
  chunks_cover cfg c cmds (lo, hi, apart, lo', hi') = (
    (λ v.
        covered (some v)
        ∙ (rw (lo v, hi v)
            (ap (λ n. hits (λ cmd. holds cmd (some v)) cmds + n)
              (one_side (below v) (above v) (apart v))))),
    covered none ∙ (rw (lo', hi') (omega arith)),
  )
    where
      covered :
          (v : Option V)
          → hits
              (λ (r : DataCompareMeta). holds r.where_range v)
              (chunk_rows cfg c column cmds ((start, end) ∷ []))
            ≡ hits (λ cmd. holds cmd v) cmds
              + ((if holds (strings_builder (column ∷ codes " < " ∷ start ∷ [])) v then 1 else 0)
                  + ((if holds (strings_builder (column ∷ codes " > " ∷ end ∷ [])) v then 1 else 0)
                      + 0))
      covered v =
          unfold hits in
          hits-append (λ (r : DataCompareMeta). holds r.where_range v)
            (map (λ cmd. meta_row cfg c c.source_column_info c.target_column_info column cmd) cmds)
            (boundary_rows cfg c column end ((start, end) ∷ []))
          ∙ ap
              (λ n.
                n
                + hits (λ (r : DataCompareMeta). holds r.where_range v)
                    (boundary_rows cfg c column end ((start, end) ∷ [])))
              (hits-map (λ (r : DataCompareMeta). holds r.where_range v)
                (λ cmd. meta_row cfg c c.source_column_info c.target_column_info column cmd) cmds)
