-- ===== src/Common/Split/Pieces.antt =====
-- The segments that the loop cuts, described without indices: pieces of one length, then the rest.
use transferdb.Prelude.{
  ℕ, zero, suc, ◌+◌, ◌-◌, ◌*◌, ◌/◌, ◌≤◌, ◌<◌, List, [], ◌∷◌, ◌++◌, length, take, drop, ok, panic,
  ◌≡◌, ◌≢◌, refl, ap, ◌∙◌, arith, take-append-drop, length-drop, length-take, map, replicate,
  append-nil,
}
use transferdb.Common.Split.{slice, slice_from, segment_at, split_loop, split_multiple_slice}
use native.Mathlib.Nat.{zero-add, add-zero, suc-add, zero-mul, mul-div-le, div_self, div-eq-sub-div}
use mathlib.Core.List.{flatten}

quotient_pos : (n m : ℕ) → 0 < m → m ≤ n → 1 ≤ n / m
quotient_pos n m h k = omega (arith, div-eq-sub-div h k)

replicate_last : (k v : ℕ) → replicate k v ++ v ∷ [] ≡ replicate (suc k) v
replicate_last zero v = refl
replicate_last (suc k) v = ap (λ xs. v ∷ xs) (replicate_last k v)

module _ {A : Type 0} where
  -- `n` pieces: all but the last have `q` elements
  abbrev pub pieces : ℕ → ℕ → List A → List (List A)
  pieces q zero xs = []
  pieces q (suc zero) xs = xs ∷ []
  pieces q (suc (suc n)) xs = take q xs ∷ pieces q (suc n) (drop q xs)

  drop-add : (n m : ℕ) (xs : List A) → drop n (drop m xs) ≡ drop (m + n) xs
  drop-add n zero xs = rw zero-add
  drop-add zero (suc m) [] = rw add-zero
  drop-add (suc n) (suc m) [] = rw suc-add
  drop-add n (suc m) (x ∷ xs) = rw (drop-add n m xs, suc-add)

  drop-suc-mul : (q j : ℕ) (xs : List A) → drop (suc j * q) xs ≡ drop q (drop (j * q) xs)
  drop-suc-mul q j xs = let e : suc j * q ≡ j * q + q = omega arith in rw (e, drop-add q (j * q) xs)

  segment_at-last :
      (arr : List A) (q finish j end : ℕ)
      → suc j ≡ finish
      → j + end ≤ length arr
      → segment_at arr q finish (suc j) end ≡ ok (drop (j + end) arr)
  unfolding segment_at slice_from
  segment_at-last arr q finish j end h k =
      let lo : suc j - 1 + end ≡ j + end = omega arith in rw lo (ground arith)

  segment_at-middle :
      (arr : List A) (q finish j end : ℕ)
      → suc j ≢ finish
      → j + end ≡ j * q
      → suc j * q ≤ length arr
      → segment_at arr q finish (suc j) end ≡ ok (take q (drop (j * q) arr))
  unfolding segment_at slice
  segment_at-middle arr q finish j end n h k =
      let lo : suc j - 1 + end ≡ j * q = omega arith in
      let width : suc j * q - j * q ≡ q = omega arith in
      rw lo (ground (arith, ap (λ w. take w (drop (j * q) arr)) width))

  split_loop_step :
      (arr : List A) (q finish left i end : ℕ) (piece : List A) (rest : List (List A))
      → segment_at arr q finish i end ≡ ok piece
      → split_loop arr q finish left (suc i) (i * q - i) ≡ ok rest
      → split_loop arr q finish (suc left) i end ≡ ok (piece ∷ rest)
  unfolding split_loop
  split_loop_step arr q finish left i end piece rest h k =
      let next : i + 1 ≡ suc i = omega arith in rw (h, next, k)

  -- `j` pieces are cut, and `left` rounds remain after this one.
  split_loop-pieces :
      (arr : List A) (q finish left j end : ℕ)
      → suc j + left ≡ finish
      → j + end ≡ j * q
      → 1 ≤ q
      → finish * q ≤ length arr
      → split_loop arr q finish (suc left) (suc j) end ≡ ok (pieces q (suc left) (drop (j * q) arr))
  split_loop-pieces arr q finish zero j end e h hq fits =
      split_loop_step arr q finish zero (suc j) end _ []
        (segment_at-last arr q finish j end (omega arith) (omega (arith, ap (λ t. t * q) e))
          ∙ ap (λ k. ok (drop k arr)) h)
        (unfold split_loop in refl)
  split_loop-pieces arr q finish (suc left) j end e h hq fits =
      let product : suc j * q + suc left * q ≡ finish * q = rw (← e) (omega arith) in
      split_loop_step arr q finish (suc left) (suc j) end _ _
        (segment_at-middle arr q finish j end (omega arith) h (omega arith))
        (split_loop-pieces arr q finish left (suc j) (suc j * q - suc j) (omega arith) (grind arith)
            hq fits
          ∙ ap (λ xs. ok (pieces q (suc left) xs)) (drop-suc-mul q j arr))

  flatten-pieces : (q n : ℕ) (xs : List A) → flatten (pieces q (suc n) xs) ≡ xs
  unfolding flatten
  flatten-pieces q zero xs = append-nil xs
  flatten-pieces q (suc n) xs = rw (flatten-pieces q n (drop q xs), take-append-drop q xs)

  -- the lengths of the pieces
  sizes-pieces :
      (q n : ℕ) (xs : List A)
      → n * q ≤ length xs
      → map length (pieces q (suc n) xs) ≡ replicate n q ++ (length xs - n * q) ∷ []
  sizes-pieces q zero xs h = let e : length xs - zero * q ≡ length xs = omega arith in rw e
  sizes-pieces q (suc n) xs h =
      let first : length (take q xs) ≡ q = omega (arith, length-take q xs) in
      let rest : length (drop q xs) - n * q ≡ length xs - suc n * q =
        omega (arith, length-drop q xs) in
      rw (first, sizes-pieces q n (drop q xs) (omega (arith, length-drop q xs)), rest)

  cut_all :
      (arr : List A) (q n : ℕ)
      → 1 ≤ q
      → suc n * q ≤ length arr
      → split_loop arr q (suc n) (suc n) 1 0 ≡ ok (pieces q (suc n) arr)
  cut_all arr q n hq h =
      split_loop-pieces arr q (suc n) n 0 0 (omega arith) (omega arith) hq h
      ∙ ap (λ k. ok (pieces q (suc n) (drop k arr))) (zero-mul q)

  -- For a number of segments between 1 and the length, the segments make up the slice in order, and
  -- all but the last have the quotient of the length by that number as their length.
  pub split_multiple_slice_parts :
      (arr : List A) (n : ℕ)
      → suc n ≤ length arr
      → (segments : List (List A)) × (split_multiple_slice arr (suc n) ≡ ok segments)
        × (flatten segments ≡ arr)
        × (map length segments
            ≡ replicate n (length arr / suc n) ++ (length arr - n * (length arr / suc n)) ∷ [])
  unfolding split_multiple_slice
  split_multiple_slice_parts arr n h =
      let q : ℕ = length arr / suc n in
      let fits : suc n * q ≤ length arr = mul-div-le (length arr) (suc n) in
      let hq : 1 ≤ q = quotient_pos (length arr) (suc n) (omega arith) h in
      (
        pieces q (suc n) arr,
        ground (arith, cut_all arr q n hq fits),
        flatten-pieces q n arr,
        sizes-pieces q n arr (omega arith),
      )

  -- Asked for more segments than there are elements, the code makes one segment of each element.
  pub split_multiple_slice_singles :
      (arr : List A) (num : ℕ)
      → length arr < num
      → arr ≢ []
      → (segments : List (List A)) × (split_multiple_slice arr num ≡ ok segments)
        × (flatten segments ≡ arr)
        × (map length segments ≡ replicate (length arr) 1)
  unfolding split_multiple_slice
  split_multiple_slice_singles [] num h n = absurd (n refl)
  split_multiple_slice_singles (x ∷ xs) num h n =
      let k = length xs in
      let one : suc k / suc k ≡ 1 = div_self (omega arith) in
      (
        pieces 1 (suc k) (x ∷ xs),
        ground (arith, one, cut_all (x ∷ xs) 1 k (omega arith) (omega arith)),
        flatten-pieces 1 k (x ∷ xs),
        sizes-pieces 1 k (x ∷ xs) (omega arith)
            ∙ ap (λ (t : ℕ). replicate k 1 ++ t ∷ []) (omega arith)
            ∙ replicate_last k 1,
      )

  -- Asked for a segment of nothing, the code divides by zero.
  pub split_multiple_slice_empty : (num : ℕ) → 0 < num → split_multiple_slice {A = A} [] num ≡ panic
  unfolding split_multiple_slice
  split_multiple_slice_empty num h = ground arith
