-- ===== src/Common/Version/Order.antt =====
-- The order of the texts that stand for versions.
use transferdb.Prelude.{
  List, Bool, sym, if◌then◌else◌, ℕ, suc, ◌+◌, ◌-◌, ◌*◌, ◌%◌, ◌<◌, ◌≤◌, true, false, ◌&&◌, [], ◌∷◌,
  ◌++◌, length, append_assoc, append-nil, All, some, ◌==◌, ==_iff, ltb, ◌≡◌, refl, ap, ◌∙◌, inl,
  inr, Bool-cases, arith,
}
use transferdb.Text.{Text, is_digit}
use transferdb.Common.Version.{
  Group, starts_with_zero, add_digit, ordinal_loop, version_ordinal, text_ltb,
}

-- the number that digits make, behind some that have been read
unfoldable pub value : ℕ → Text → ℕ
value n [] = n
value n (c ∷ s) = value (n * 10 + (c - 48)) s

abbrev pub AreDigits : Text → Type 0
AreDigits = All (λ c. is_digit c ≡ true)

digit_bounds : (c : ℕ) → is_digit c ≡ true → (48 ≤ c) × (c ≤ 57)
digit_bounds c h = (ground arith, ground arith)

value_above : (n : ℕ) (s : Text) → n ≤ value n s
unfolding value
value_above n [] = omega arith
value_above n (c ∷ s) = omega (arith, value_above (n * 10 + (c - 48)) s)

-- a number that is ahead stays ahead of one with no more digits
value_ahead :
    (x y : ℕ) (a b : Text) → AreDigits a → length a ≤ length b → x < y → value x a < value y b
unfolding value
value_ahead x y [] b _ l h = omega (arith, value_above y b)
value_ahead x y (c ∷ a) [] _ l h = absurd (omega arith)
value_ahead x y (c ∷ a) (d ∷ b) (k, ks) l h =
    let (lo, hi) = digit_bounds c k in
    value_ahead (x * 10 + (c - 48)) (y * 10 + (d - 48)) a b ks (omega arith) (omega arith)

-- two numbers with as many digits, and what stands behind them
same_length_order :
    (x : ℕ) (a b t u : Text)
    → AreDigits a
    → AreDigits b
    → length a ≡ length b
    → text_ltb (a ++ t) (b ++ u) ≡ (
        if ltb (value x a) (value x b)
        then true
        else if value x a == value x b
        then text_ltb t u
        else false)
unfolding value text_ltb
same_length_order x [] [] t u _ _ l = ground arith
same_length_order x [] (d ∷ b) t u _ _ l = absurd (omega arith)
same_length_order x (c ∷ a) [] t u _ _ l = absurd (omega arith)
same_length_order x (c ∷ a) (d ∷ b) t u (k, ks) (k', ks') l = elim (Bool-cases (ltb c d)) [
  | inl less ↦
      let (lo, hi) = digit_bounds c k in
      let ahead =
        value_ahead (x * 10 + (c - 48)) (x * 10 + (d - 48)) a b ks (omega (arith, l))
          (ground (arith, lo)) in
      ground (arith, ahead)
  | inr other ↦ elim (Bool-cases (c == d)) [
    | inl e ↦
        let same = (==_iff c d).0 e in
        let rest = same_length_order (x * 10 + (d - 48)) a b t u ks ks' (omega (arith, l)) in
        rw same (ground (arith, rest))
    | inr more ↦
        let (lo, hi) = digit_bounds d k' in
        let behind =
          value_ahead (x * 10 + (d - 48)) (x * 10 + (c - 48)) b a ks' (omega (arith, l))
            (ground (arith, lo)) in
        ground (arith, behind)
  ]
]

-- a number that starts with a zero only if that is its one digit, and with no more digits than a byte
-- can count
abbrev pub IsNumber : Text → Type 0
IsNumber s =
    AreDigits s
    × (starts_with_zero s && ltb 1 (length s) ≡ false)
    × (length s < 256)
    × (0 < length s)

-- the numbers of a version, with points between them
abbrev pub dotted : List Text → Text
dotted [] = []
dotted (a ∷ []) = a
dotted (a ∷ b ∷ ns) = a ++ (b'.' ∷ dotted (b ∷ ns))

-- what stands behind the first number, in the version and in its text
abbrev point : List Text → Text
point [] = []
point (b ∷ ns) = b'.' ∷ dotted (b ∷ ns)

unfoldable pointed : List Text → Text
unfolding version_ordinal
pointed [] = []
pointed (b ∷ ns) = b'.' ∷ version_ordinal (dotted (b ∷ ns))

dotted-point : (a : Text) (ns : List Text) → dotted (a ∷ ns) ≡ a ++ point ns
dotted-point a [] = sym (append-nil a)
dotted-point a (b ∷ ns) = refl

loop-point :
    (g : Group) (ns : List Text) → ordinal_loop (some g) (point ns) ≡ g.0 ∷ (g.1 ++ pointed ns)
unfolding ordinal_loop pointed version_ordinal
loop-point (n, ds) [] = ap (λ t. n ∷ t) (sym (append-nil ds))
loop-point (n, ds) (b ∷ ns) = refl

loop_rest :
    (n d : ℕ) (ds s : Text) (ns : List Text)
    → AreDigits s
    → 0 < n
    → (n == 1 && d == b'0' && ltb 0 (length s)) ≡ false
    → n + length s < 256
    → ordinal_loop (some (n, d ∷ ds)) (s ++ point ns)
      ≡ (n + length s) ∷ d ∷ (ds ++ (s ++ pointed ns))
unfolding ordinal_loop add_digit
loop_rest n d ds [] ns _ p z l = let e : n + 0 ≡ n = omega arith in rw e (loop-point (n, d ∷ ds) ns)
loop_rest n d ds (b ∷ s) ns (h, hs) p z l =
    let small : (n + 1) % 256 ≡ n + 1 = omega arith in
    let more : n + 1 + length s ≡ n + suc (length s) = omega arith in
    let no_zero : (n == 1 && d == b'0') ≡ false = ground (arith, z) in
    rw (h, no_zero, small)
      (loop_rest (n + 1) d (ds ++ b ∷ []) s ns hs (omega arith) (ground (arith, p)) (omega arith)
        ∙ rw (more, append_assoc ds (b ∷ []) (s ++ pointed ns)) refl)

ordinal_dotted :
    (a : Text) (ns : List Text)
    → IsNumber a
    → version_ordinal (dotted (a ∷ ns)) ≡ length a ∷ (a ++ pointed ns)
unfolding version_ordinal ordinal_loop add_digit
ordinal_dotted [] ns (_, _, _, p) = absurd (omega (arith, p))
ordinal_dotted (d ∷ s) ns ((h, hs), z, l, _) =
    let e : 1 + length s ≡ suc (length s) = omega arith in
    ap version_ordinal (dotted-point (d ∷ s) ns)
    ∙ (rw h (
        loop_rest 1 d [] s ns hs (omega arith) (ground (arith, z)) (omega (arith, l))
        ∙ ap (λ n. n ∷ d ∷ (s ++ pointed ns)) e))

length_order :
    (a b : Text)
    → AreDigits a
    → AreDigits b
    → starts_with_zero b && ltb 1 (length b) ≡ false
    → 0 < length a
    → length a < length b
    → value 0 a < value 0 b
unfolding value
length_order a [] _ _ z p l = absurd (omega arith)
length_order a (d ∷ b) ks (k, _) z p l =
    let (lo, hi) = digit_bounds d k in
    value_ahead 0 (0 * 10 + (d - 48)) a b ks (omega arith) (ground (arith, z, p, l, lo))

-- the order of versions, by their numbers from the first on; a version comes behind its beginnings
unfoldable pub numbers_ltb : List Text → List Text → Bool
unfolding value
numbers_ltb _ [] = false
numbers_ltb [] (_ ∷ _) = true
numbers_ltb (a ∷ ns) (b ∷ ms) =
    let rest = numbers_ltb ns ms in
    if ltb (value 0 a) (value 0 b) then true else if value 0 a == value 0 b then rest else false

number_order :
    (a b t u : Text)
    → IsNumber a
    → IsNumber b
    → text_ltb (length a ∷ (a ++ t)) (length b ∷ (b ++ u)) ≡ (
        if ltb (value 0 a) (value 0 b)
        then true
        else if value 0 a == value 0 b
        then text_ltb t u
        else false)
unfolding text_ltb
number_order a b t u (ha, za, la, pa) (hb, zb, lb, pb) =
    elim (Bool-cases (ltb (length a) (length b))) [
      | inl less ↦ let ahead = length_order a b ha hb zb pa (ground arith) in ground (arith, ahead)
      | inr other ↦ elim (Bool-cases (length a == length b)) [
        | inl e ↦
            let same = same_length_order 0 a b t u ha hb ((==_iff (length a) (length b)).0 e) in
            ground (arith, same)
        | inr more ↦
            let behind = length_order b a hb ha za pb (ground arith) in ground (arith, behind)
      ]
    ]

pointed_order :
    (ns ms : List Text)
    → All IsNumber ns
    → All IsNumber ms
    → text_ltb (pointed ns) (pointed ms) ≡ numbers_ltb ns ms
unfolding text_ltb pointed numbers_ltb
pointed_order [] [] _ _ = refl
pointed_order [] (b ∷ ms) _ _ = refl
pointed_order (a ∷ ns) [] _ _ = refl
pointed_order (a ∷ ns) (b ∷ ms) (ha, hs) (hb, ks) =
    rw (ordinal_dotted a ns ha, ordinal_dotted b ms hb)
      (number_order a b (pointed ns) (pointed ms) ha hb ∙ (rw (pointed_order ns ms hs ks) refl))

-- The texts of two versions compare as the versions do, number by number, if a number starts with
-- a zero only where it is 0, and has less than 256 digits.
pub version_ordinal_order :
    (a b : Text) (ns ms : List Text)
    → All IsNumber (a ∷ ns)
    → All IsNumber (b ∷ ms)
    → text_ltb (version_ordinal (dotted (a ∷ ns))) (version_ordinal (dotted (b ∷ ms)))
      ≡ numbers_ltb (a ∷ ns) (b ∷ ms)
unfolding numbers_ltb
version_ordinal_order a b ns ms (ha, hs) (hb, ks) =
    rw (ordinal_dotted a ns ha, ordinal_dotted b ms hb)
      (number_order a b (pointed ns) (pointed ms) ha hb ∙ (rw (pointed_order ns ms hs ks) refl))
