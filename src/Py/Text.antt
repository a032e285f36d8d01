-- ===== src/Py/Text.antt =====
-- Python's `str` as the list of its code points, with the methods that the program calls.
pub mod Parts
pub mod Lacks
use Prim.Native.Char.{code}
use ospd_openvas.Prelude.{
  ℕ, suc, String, ◌≡◌, refl, Bool, true, false, ◌&&◌, ◌||◌, List, [], ◌∷◌, ◌++◌, Option, none, some,
  arith, ◌==◌, leb, if◌then◌else◌, ◌↔◌,
}
use mathlib.Core.List.{reverse}

abbrev pub Text : Type 0
Text = List ℕ

-- The code points of a literal.
abbrev pub codes : String → Text
codes String.[] = []
codes (String.◌∷◌ c s) = code c ∷ codes s

unfoldable pub text_eq : Text → Text → Bool
text_eq [] [] = true
text_eq [] (d ∷ t) = false
text_eq (c ∷ s) [] = false
text_eq (c ∷ s) (d ∷ t) = (c == d) && text_eq s t

pub text_eq_iff : (s t : Text) → (text_eq s t ≡ true) ↔ (s ≡ t)
unfolding text_eq
text_eq_iff [] [] = ground arith
text_eq_iff [] (d ∷ t) = ground arith
text_eq_iff (c ∷ s) [] = ground arith
text_eq_iff (c ∷ s) (d ∷ t) = ground (arith, text_eq_iff s t)

-- `s.split(sep)` for a separator of one character.
cons_head : ℕ → List Text → List Text
cons_head c [] = (c ∷ []) ∷ []
cons_head c (p ∷ ps) = (c ∷ p) ∷ ps

unfoldable pub split : ℕ → Text → List Text
unfolding cons_head
split sep [] = [] ∷ []
split sep (c ∷ s) = let rest = split sep s in if c == sep then [] ∷ rest else cons_head c rest

-- `sep.join(parts)` for a separator of one character.
unfoldable pub join : ℕ → List Text → Text
join sep [] = []
join sep (p ∷ []) = p
join sep (p ∷ q ∷ ps) = p ++ (sep ∷ join sep (q ∷ ps))

-- `s.find(c)`, with `none` for -1.
unfoldable pub find : ℕ → Text → Option ℕ
find c [] = none
find c (d ∷ s) = elim (c == d) [
  | true ↦ some 0
  | false ↦ elim (find c s) [ none ↦ none | some i ↦ some (suc i) ]
]

-- `c in s` for one character.
unfoldable pub has_char : ℕ → Text → Bool
has_char c [] = false
has_char c (d ∷ s) = (c == d) || has_char c s

-- `s.count(c)` for one character.
unfoldable pub count : ℕ → Text → ℕ
count c [] = 0
count c (d ∷ s) = let rest = count c s in if c == d then suc rest else rest

-- `s.replace(c, '')`
unfoldable pub remove_char : ℕ → Text → Text
remove_char c [] = []
remove_char c (d ∷ s) = let rest = remove_char c s in if c == d then rest else d ∷ rest

-- `s.startswith(p)`
unfoldable pub starts_with : Text → Text → Bool
starts_with s [] = true
starts_with [] (d ∷ p) = false
starts_with (c ∷ s) (d ∷ p) = (c == d) && starts_with s p

-- `s.find(p)`, with `none` for -1.
unfoldable pub find_sub : Text → Text → Option ℕ
unfolding starts_with
find_sub p [] = if starts_with [] p then some 0 else none
find_sub p (c ∷ s) = elim (starts_with (c ∷ s) p) [
  | true ↦ some 0
  | false ↦ elim (find_sub p s) [ none ↦ none | some i ↦ some (suc i) ]
]

-- `p in s`
unfoldable pub has_sub : Text → Text → Bool
unfolding starts_with
has_sub p [] = starts_with [] p
has_sub p (c ∷ s) = starts_with (c ∷ s) p || has_sub p s

-- The ASCII characters that `str.strip` and `int` take for white space.
unfoldable pub is_space : ℕ → Bool
is_space c = (c == 32) || ((leb 9 c && leb c 13) || (leb 28 c && leb c 31))

module _ (p : ℕ → Bool) where
  unfoldable pub drop_while : Text → Text
  drop_while [] = []
  drop_while (c ∷ s) = elim (p c) [ true ↦ drop_while s | false ↦ c ∷ s ]

  -- Removes the characters at both ends that satisfy `p`.
  unfoldable pub strip_by : Text → Text
  unfolding drop_while
  strip_by s = reverse (drop_while (reverse (drop_while s)))

-- `s.strip()`
unfoldable pub strip : Text → Text
unfolding strip_by is_space
strip = strip_by is_space

-- `s.strip(c)`
unfoldable pub strip_char : ℕ → Text → Text
unfolding strip_by
strip_char c = strip_by (λ d. d == c)

tests :
    (split b',' (codes "a,,b") ≡ codes "a" ∷ [] ∷ codes "b" ∷ [])
    × (join b'-' (codes "ab" ∷ codes "c" ∷ []) ≡ codes "ab-c")
    × (find_sub (codes "U:") (codes "T:1U:2") ≡ some 3)
    × (strip (codes " a b  ") ≡ codes "a b")
unfolding split join find_sub strip
tests = (refl, refl, refl, refl)
