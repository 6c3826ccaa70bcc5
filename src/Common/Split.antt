-- ===== src/Common/Split.antt =====
-- common/strings.go, `SplitMultipleSlice` and `SplitMultipleStringSlice`: a slice is cut into a
-- number of segments, the last of which takes the rest. A panic is a slice bound out of range or
-- the division by zero.
pub mod Pieces
use transferdb.Prelude.{
  ℕ, zero, suc, ◌+◌, ◌-◌, ◌*◌, ◌/◌, List, [], ◌∷◌, length, take, drop, ltb, leb, ◌==◌,
  if◌then◌else◌, ◌&&◌, Result, ok, err, panic, ◌>>=◌, Bool, true, false,
}
use transferdb.Text.{Text}

-- x / y of Go
unfoldable pub divide : ℕ → ℕ → Result ⊥ ℕ
divide x y = if y == 0 then panic else ok (x / y)

module _ {ℓ} {A : Type ℓ} where
  -- arr[lo:hi] and arr[lo:]
  unfoldable pub slice : List A → ℕ → ℕ → Result ⊥ (List A)
  slice arr lo hi =
      if leb lo hi && leb hi (length arr) then ok (take (hi - lo) (drop lo arr)) else panic

  unfoldable pub slice_from : List A → ℕ → Result ⊥ (List A)
  slice_from arr lo = if leb lo (length arr) then ok (drop lo arr) else panic

  -- what one round appends
  unfoldable pub segment_at : List A → ℕ → ℕ → ℕ → ℕ → Result ⊥ (List A)
  segment_at arr quantity finish i end =
      if i == finish then slice_from arr (i - 1 + end) else slice arr (i - 1 + end) (i * quantity)

  -- The loop `for i := 1; i <= finish; i++` with `left` rounds to go.
  unfoldable pub split_loop : List A → ℕ → ℕ → ℕ → ℕ → ℕ → Result ⊥ (List (List A))
  unfolding segment_at slice slice_from
  split_loop arr quantity finish zero i end = ok []
  split_loop arr quantity finish (suc left) i end = do
    segment ← segment_at arr quantity finish i end
    segments ← split_loop arr quantity finish left (i + 1) (i * quantity - i)
    ok (segment ∷ segments)

  unfoldable pub split_multiple_slice : List A → ℕ → Result ⊥ (List (List A))
  unfolding divide
  split_multiple_slice arr num =
      let max = length arr in
      if num == 0
      then ok (arr ∷ [])
      else if ltb max num
      then (divide max max >>= λ quantity. split_loop arr quantity max max 1 0)
      else (divide max num >>= λ quantity. split_loop arr quantity num num 1 0)

-- The same code over rows of texts.
unfoldable pub split_multiple_string_slice :
    List (List Text) → ℕ → Result ⊥ (List (List (List Text)))
unfolding split_multiple_slice
split_multiple_string_slice arr num = split_multiple_slice arr num
