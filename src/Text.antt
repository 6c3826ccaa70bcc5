-- ===== src/Text.antt =====
-- The text functions of Go that the program uses: package strings and strconv, over lists of code
-- points, and the helpers of common/strings.go that wrap them. Case is ASCII case: a letter outside
-- ASCII is left alone. The names that the program compares are the ASCII names of a data dictionary.
pub mod Laws
pub mod Commas
pub mod Spaces
use Prim.Native.Char.{code}
use Prim.Native.String.{String}
use transferdb.Prelude.{
  ℕ, zero, suc, ◌+◌, ◌-◌, ◌*◌, ◌/◌, ◌%◌, ◌^◌, Bool, true, false, ◌&&◌, ◌||◌, not, List, [], ◌∷◌,
  ◌++◌, Option, none, some, ltb, leb, ◌==◌, if◌then◌else◌, length, ℤ, pos, negsuc,
}
use mathlib.Core.List.{reverse}

abbrev pub Text : Type 0
Text = List ℕ

-- the code points of a literal
abbrev pub codes : String → Text
codes String.[] = []
codes (String.◌∷◌ c s) = code c ∷ codes s

unfoldable pub text_eq : Text → Text → Bool
text_eq [] [] = true
text_eq [] (_ ∷ _) = false
text_eq (_ ∷ _) [] = false
text_eq (c ∷ s) (d ∷ t) = c == d && text_eq s t

abbrev pub upper_code : ℕ → ℕ
upper_code c = if leb b'a' c && leb c b'z' then c - 32 else c

-- strings.ToUpper, `common.StringUPPER`
unfoldable pub to_upper : Text → Text
to_upper [] = []
to_upper (c ∷ s) = upper_code c ∷ to_upper s

-- strings.EqualFold
unfoldable pub equal_fold : Text → Text → Bool
unfolding to_upper text_eq
equal_fold s t = text_eq (to_upper s) (to_upper t)

unfoldable pub has_prefix : Text → Text → Bool
has_prefix [] s = true
has_prefix (_ ∷ _) [] = false
has_prefix (p ∷ ps) (c ∷ s) = p == c && has_prefix ps s

-- strings.Contains s sub
unfoldable pub contains : Text → Text → Bool
unfolding has_prefix
contains [] sub = has_prefix sub []
contains (c ∷ s) sub = has_prefix sub (c ∷ s) || contains s sub

-- unicode.IsSpace
unfoldable pub is_space : ℕ → Bool
is_space c =
    leb 9 c && leb c 13
    || c == 32
    || c == 0x85
    || c == 0xa0
    || c == 0x1680
    || leb 0x2000 c && leb c 0x200a
    || c == 0x2028
    || c == 0x2029
    || c == 0x202f
    || c == 0x205f
    || c == 0x3000

unfoldable pub trim_left : Text → Text
unfolding is_space
trim_left [] = []
trim_left (c ∷ s) = if is_space c then trim_left s else c ∷ s

-- strings.TrimSpace
unfoldable pub trim_space : Text → Text
unfolding trim_left
trim_space s = reverse (trim_left (reverse (trim_left s)))

-- strings.Index of a one-character text; `none` is -1
unfoldable pub index : Text → ℕ → Option ℕ
index [] x = none
index (c ∷ s) x =
    let later = index s x in
    if c == x then some 0 else elim later [ none ↦ none | some i ↦ some (suc i) ]

-- strings.LastIndex of a one-character text; `none` is -1
unfoldable pub last_index : Text → ℕ → Option ℕ
last_index [] x = none
last_index (c ∷ s) x = elim (last_index s x) [
  | some i ↦ some (suc i)
  | none ↦ if c == x then some 0 else none
]

-- strings.Split with a separator that is not empty: `skip` characters of it are still to pass
unfoldable pub split_loop : Text → ℕ → Text → Text → List Text
unfolding has_prefix
split_loop sep skip cur [] = cur ∷ []
split_loop sep (suc skip) cur (c ∷ s) = split_loop sep skip cur s
split_loop sep zero cur (c ∷ s) = elim (has_prefix sep (c ∷ s)) [
  | true ↦ cur ∷ split_loop sep (length sep - 1) [] s
  | false ↦ split_loop sep zero (cur ++ c ∷ []) s
]

unfoldable pub split : Text → Text → List Text
unfolding split_loop
split s sep = split_loop sep 0 [] s

-- strings.Join
unfoldable pub join : List Text → Text → Text
join [] sep = []
join (p ∷ []) sep = p
join (p ∷ q ∷ ps) sep = p ++ (sep ++ join (q ∷ ps) sep)

-- strings.Replace with no limit, at a text that is not empty
unfoldable pub replace_all : Text → Text → Text → Text
unfolding split join
replace_all s old new = join (split s old) new

-- `common.StringsBuilder`
unfoldable pub strings_builder : List Text → Text
strings_builder [] = []
strings_builder (s ∷ ss) = s ++ strings_builder ss

-- the digits of `n`, in front of `out`
unfoldable pub digits_loop : ℕ → ℕ → Text → Text
digits_loop zero n out = out
digits_loop (suc fuel) n out =
    let more = digits_loop fuel (n / 10) ((b'0' + n % 10) ∷ out) in
    if ltb n 10 then (b'0' + n) ∷ out else more

-- The verb %d and strconv.Itoa: a number has at most as many digits as its successor counts.
unfoldable pub itoa_ℕ : ℕ → Text
unfolding digits_loop
itoa_ℕ n = digits_loop (suc n) n []

unfoldable pub itoa : ℤ → Text
unfolding itoa_ℕ
itoa (pos n) = itoa_ℕ n
itoa (negsuc n) = b'-' ∷ itoa_ℕ (suc n)

abbrev pub is_digit : ℕ → Bool
is_digit c = leb b'0' c && leb c b'9'

unfoldable pub scan_digits : ℕ → Text → Option ℕ
scan_digits acc [] = some acc
scan_digits acc (c ∷ s) =
    let rest = scan_digits (acc * 10 + (c - b'0')) s in if is_digit c then rest else none

unfoldable pub atoi_unsigned : Text → Option ℕ
unfolding scan_digits
atoi_unsigned [] = none
atoi_unsigned (c ∷ s) = scan_digits 0 (c ∷ s)

abbrev pub atoi_pos : Text → Option ℤ
atoi_pos s = elim (atoi_unsigned s) [
  | none ↦ none
  | some n ↦ if ltb n (2 ^ 63) then some (pos n) else none
]

abbrev pub negate : ℕ → ℤ
negate zero = pos 0
negate (suc n) = negsuc n

abbrev pub atoi_neg : Text → Option ℤ
atoi_neg s = elim (atoi_unsigned s) [
  | none ↦ none
  | some n ↦ if leb n (2 ^ 63) then some (negate n) else none
]

-- strconv.Atoi: an optional sign and one or more digits, in the range of an int64
unfoldable pub atoi : Text → Option ℤ
unfolding atoi_unsigned
atoi [] = none
atoi (c ∷ s) = if c == b'-' then atoi_neg s else if c == b'+' then atoi_pos s else atoi_pos (c ∷ s)

abbrev pub lower_code : ℕ → ℕ
lower_code c = if leb b'A' c && leb c b'Z' then c + 32 else c

-- strings.ToLower
unfoldable pub to_lower : Text → Text
to_lower [] = []
to_lower (c ∷ s) = lower_code c ∷ to_lower s

-- strings.Fields: the words between blanks
unfoldable pub fields_loop : Text → Text → List Text
unfolding is_space
fields_loop [] [] = []
fields_loop (c ∷ cur) [] = (c ∷ cur) ∷ []
fields_loop [] (c ∷ s) = if is_space c then fields_loop [] s else fields_loop (c ∷ []) s
fields_loop (d ∷ cur) (c ∷ s) =
    let rest = fields_loop [] s in
    if is_space c then (d ∷ cur) ∷ rest else fields_loop (d ∷ (cur ++ c ∷ [])) s

unfoldable pub fields : Text → List Text
unfolding fields_loop
fields s = fields_loop [] s
