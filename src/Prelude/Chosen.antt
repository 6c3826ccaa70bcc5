-- ===== src/Prelude/Chosen.antt =====
-- Lists that a test chooses from: filters, maps under a condition, and the elements that match one.
use Prim.Native.Nat.{◌+◌, ◌-◌}
use mathlib.Core.Path.{◌≡◌, refl, sym, ap, subst}
use mathlib.Core.Bool.{Bool, true, false, not, ◌&&◌, ◌||◌, false≢true}
use mathlib.Core.Logic.{inl, inr}
use mathlib.Core.List.{List, [], ◌∷◌, ◌++◌, map, Memᴰ}
use mathlib.Core.List.Memᴰ.{not-nil}
use transferdb.Prelude.Tests.{if◌then◌else◌, Bool-cases}
use transferdb.Prelude.Lists.{filter, length}
use native.Mathlib.Omega.{arith}

module _ {ℓ} {A : Type ℓ} where
  abbrev pub any : (A → Bool) → List A → Bool
  any p [] = false
  any p (x ∷ xs) = if p x then true else any p xs

  pub any-append : (p : A → Bool) (xs ys : List A) → any p (xs ++ ys) ≡ any p xs || any p ys
  any-append p [] ys = refl
  any-append p (x ∷ xs) ys = ground (arith, any-append p xs ys)

  if_mem :
      (b : Bool) (x y : A) (ys zs : List A)
      → (Memᴰ x zs → Memᴰ x ys)
      → Memᴰ x (if b then y ∷ zs else zs)
      → Memᴰ x (y ∷ ys)
  if_mem true x y ys zs f (Memᴰ.head e) = Memᴰ.head e
  if_mem true x y ys zs f (Memᴰ.tail m) = Memᴰ.tail (f m)
  if_mem false x y ys zs f m = Memᴰ.tail (f m)

  pub filter_mem : (p : A → Bool) (x : A) (xs : List A) → Memᴰ x (filter p xs) → Memᴰ x xs
  filter_mem p x [] m = absurd (not-nil m)
  filter_mem p x (y ∷ ys) m = if_mem (p y) x y ys (filter p ys) (filter_mem p x ys) m

  pub filter-congr :
      (p q : A → Bool) (rows : List A) → ((r : A) → p r ≡ q r) → filter p rows ≡ filter q rows
  filter-congr p q [] h = refl
  filter-congr p q (r ∷ rows) h = rw (h r, filter-congr p q rows h) refl

  pub map_id : (xs : List A) → map (λ x. x) xs ≡ xs
  map_id [] = refl
  map_id (x ∷ xs) = ap (λ t. x ∷ t) (map_id xs)

  pub map-map : (f g : A → A) (xs : List A) → map f (map g xs) ≡ map (λ x. f (g x)) xs
  map-map f g [] = refl
  map-map f g (x ∷ xs) = ap (λ t. f (g x) ∷ t) (map-map f g xs)

  pub map-congr :
      (f g : A → A) (xs : List A) → ((x : A) → Memᴰ x xs → f x ≡ g x) → map f xs ≡ map g xs
  map-congr f g [] h = refl
  map-congr f g (x ∷ xs) h =
      rw (h x (Memᴰ.head refl), map-congr f g xs (λ y m. h y (Memᴰ.tail m))) refl

  -- the rows that a test keeps after a map are those that another keeps before it
  pub length-filter-map :
      (p q : A → Bool) (f : A → A) (rows : List A)
      → ((r : A) → Memᴰ r rows → p (f r) ≡ q r)
      → length (filter p (map f rows)) ≡ length (filter q rows)
  length-filter-map p q f [] h = refl
  length-filter-map p q f (r ∷ rows) h =
      ground (arith, h r (Memᴰ.head refl), length-filter-map p q f rows (λ x m. h x (Memᴰ.tail m)))

  length-filter-sum :
      (i b : A → Bool) (rows : List A)
      → length (filter (λ r. i r && not (b r)) rows) + length (filter (λ r. i r && b r) rows)
        ≡ length (filter i rows)
  length-filter-sum i b [] = omega arith
  length-filter-sum i b (r ∷ rows) = ground (arith, length-filter-sum i b rows)

  pub length-filter-split :
      (i b : A → Bool) (rows : List A)
      → length (filter (λ r. i r && not (b r)) rows)
        ≡ length (filter i rows) - length (filter (λ r. i r && b r) rows)
  length-filter-split i b rows = omega (arith, length-filter-sum i b rows)

pub same_bool : (a b : Bool) → (a ≡ true → b ≡ true) → (b ≡ true → a ≡ true) → a ≡ b
same_bool true b f g = sym (f refl)
same_bool false true f g = g refl
same_bool false false f g = refl

-- A relation `m` that only an element itself has to it: the chosen elements match it if it is chosen.
module _ {ℓ} {A : Type ℓ} (m : A → A → Bool) where
  pub any-filter :
      (p : A → Bool) (rows : List A) (r : A)
      → ((c : A) → Memᴰ c rows → m c r ≡ true → c ≡ r)
      → any (λ c. m c r) (filter p rows) ≡ true
      → p r ≡ true
  any-filter p [] r h e = absurd (false≢true e)
  any-filter p (c ∷ cs) r h e = elim (Bool-cases (p c)) [
    | inl pc ↦ elim (Bool-cases (m c r)) [
      | inl k ↦ rw (← h c (Memᴰ.head refl) k) pc
      | inr k ↦ any-filter p cs r (λ x k'. h x (Memᴰ.tail k')) (ground arith)
    ]
    | inr pc ↦ any-filter p cs r (λ x k. h x (Memᴰ.tail k)) (ground arith)
  ]

  pub any-chosen :
      (p : A → Bool) (rows : List A) (r : A)
      → m r r ≡ true
      → p r ≡ true
      → Memᴰ r rows
      → any (λ c. m c r) (filter p rows) ≡ true
  any-chosen p [] r self pr k = absurd (not-nil k)
  any-chosen p (c ∷ cs) r self pr (Memᴰ.head e) = rw (← e, pr, self) refl
  any-chosen p (c ∷ cs) r self pr (Memᴰ.tail k) = ground (arith, any-chosen p cs r self pr k)

  pub any-test :
      (p : A → Bool) (rows : List A) (r : A)
      → m r r ≡ true
      → ((c : A) → Memᴰ c rows → m c r ≡ true → c ≡ r)
      → Memᴰ r rows
      → any (λ c. m c r) (filter p rows) ≡ p r
  any-test p rows r self unique k =
      same_bool _ _ (any-filter p rows r unique) (λ e. any-chosen p rows r self e k)

  pub any_self :
      (cs : List A) (r : A)
      → ((c : A) → Memᴰ c cs → m c r ≡ true → c ≡ r)
      → any (λ c. m c r) cs ≡ true
      → m r r ≡ true
  any_self [] r h e = absurd (false≢true e)
  any_self (c ∷ cs) r h e = elim (Bool-cases (m c r)) [
    | inl k ↦ subst (λ x. m x r ≡ true) (h c (Memᴰ.head refl) k) k
    | inr k ↦ any_self cs r (λ x k'. h x (Memᴰ.tail k')) (ground arith)
  ]
