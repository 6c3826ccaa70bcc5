-- ===== src/Text/Spaces.antt =====
-- Trimming and searching: what strings.TrimSpace, Index and LastIndex do to a text with a known
-- part in it.
use transferdb.Prelude.{
  ℕ, true, false, [], ◌∷◌, ◌++◌, none, some, All, All-append, length, ◌≡◌, ◌≢◌, refl, arith,
}
use mathlib.Core.List.{reverse, reverse-cons}
use transferdb.Text.{Text, is_space, trim_left, trim_space, index, last_index}

abbrev pub IsBlank : Text → Type 0
IsBlank = All (λ c. is_space c ≡ true)

abbrev pub Lacks : ℕ → Text → Type 0
Lacks x = All (λ c. c ≢ x)

pub trim_left-blank : (u v : Text) → IsBlank u → trim_left (u ++ v) ≡ trim_left v
unfolding trim_left
trim_left-blank [] v h = refl
trim_left-blank (c ∷ u) v (h, hs) = ground (arith, trim_left-blank u v hs)

IsBlank-reverse : (u : Text) → IsBlank u → IsBlank (reverse u)
IsBlank-reverse [] h = h
IsBlank-reverse (c ∷ u) (h, hs) =
    rw reverse-cons (All-append _ (reverse u) (c ∷ []) (IsBlank-reverse u hs) (h, tt))

trim_left_stop : (c : ℕ) (s : Text) → is_space c ≡ false → trim_left (c ∷ s) ≡ c ∷ s
unfolding trim_left
trim_left_stop c s h = ground arith

-- Blanks round one character that is none.
pub trim_space-one :
    (u v : Text) (c : ℕ)
    → IsBlank u
    → IsBlank v
    → is_space c ≡ false
    → trim_space (u ++ c ∷ v) ≡ c ∷ []
unfolding trim_space
trim_space-one u v c hu hv hc = rw (
  trim_left-blank u (c ∷ v) hu,
  trim_left_stop c v hc,
  reverse-cons c v,
  trim_left-blank (reverse v) (c ∷ []) (IsBlank-reverse v hv),
  trim_left_stop c [] hc,
)

last_index-Lacks : (w : Text) (x : ℕ) → Lacks x w → last_index w x ≡ none
unfolding last_index
last_index-Lacks [] x h = refl
last_index-Lacks (c ∷ w) x (h, hs) = ground (arith, last_index-Lacks w x hs)

pub last_index-append :
    (s w : Text) (x : ℕ) → Lacks x w → last_index (s ++ x ∷ w) x ≡ some (length s)
unfolding last_index
last_index-append [] w x h = ground (arith, last_index-Lacks w x h)
last_index-append (c ∷ s) w x h = ground (arith, last_index-append s w x h)

pub index-append : (s w : Text) (x : ℕ) → Lacks x s → index (s ++ x ∷ w) x ≡ some (length s)
unfolding index
index-append [] w x h = ground arith
index-append (c ∷ s) w x (h, hs) = ground (arith, index-append s w x hs)
