-- ===== src/Py/Number.antt =====
-- Python's `int(s)` for ASCII text, and `str(n)` for a number that is not negative.
mod Print
pub mod RoundTrip
pub use Print.{digits_step}
unfoldable pub use Print.{str}
use ospd_openvas.Prelude.{
  ℕ, suc, ◌+◌, ◌-◌, ◌*◌, ◌≡◌, refl, Bool, true, false, not, ◌&&◌, [], ◌∷◌, Option, none, some,
  arith, ◌==◌, leb, ltb, if◌then◌else◌, map,
}
use ospd_openvas.Prelude.Int.{ℤ, pos, negsuc}
use ospd_openvas.Py.Text.{Text, codes, strip}

abbrev pub is_digit : ℕ → Bool
is_digit c = leb b'0' c && leb c b'9'

-- The digits of a number behind `acc`: one underscore may stand between two digits. `fresh` says
-- that a digit must come next.
unfoldable pub scan : Text → ℕ → Bool → Option ℕ
scan [] acc fresh = if fresh then none else some acc
scan (c ∷ s) acc fresh = elim (is_digit c) [
  | true ↦ scan s (acc * 10 + (c - b'0')) false
  | false ↦ elim ((c == b'_') && not fresh) [ true ↦ scan s acc true | false ↦ none ]
]

unfoldable pub neg : ℕ → ℤ
neg n = if n == 0 then pos 0 else negsuc (n - 1)

-- The sign and the digits. `none` is a ValueError.
unfoldable pub int_signed : Text → Option ℤ
unfolding scan neg
int_signed [] = none
int_signed (c ∷ s) =
    if c == b'-'
    then elim (scan s 0 true) [ none ↦ none | some n ↦ some (neg n) ]
    else if c == b'+'
    then elim (scan s 0 true) [ none ↦ none | some n ↦ some (pos n) ]
    else elim (scan (c ∷ s) 0 true) [ none ↦ none | some n ↦ some (pos n) ]

unfoldable pub int : Text → Option ℤ
unfolding int_signed strip
int s = int_signed (strip s)

tests :
    (int (codes " 080") ≡ some (pos 80))
    × (int (codes "-3") ≡ some (negsuc 2))
    × (int (codes "1_0") ≡ some (pos 10))
    × (int (codes "") ≡ none)
    × (int (codes "1-") ≡ none)
unfolding int
tests = (refl, refl, refl, refl, refl)
