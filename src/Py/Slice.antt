-- ===== src/Py/Slice.antt =====
-- Indexing and slicing of a text by Python integers: a negative index counts from the end.
use ospd_openvas.Prelude.{
  ℕ, suc, ◌-◌, ◌≡◌, refl, Option, none, some, get_elem?, take, drop, length, ltb, if◌then◌else◌,
}
use ospd_openvas.Prelude.Int.{ℤ, pos, negsuc}
use ospd_openvas.Py.Text.{Text, codes, find}

-- `s[i]`; `none` is an IndexError.
unfoldable pub at : Text → ℤ → Option ℕ
at s (pos i) = get_elem? s i
at s (negsuc i) = if ltb i (length s) then get_elem? s (length s - suc i) else none

-- The place in `s` that a slice's bound `i` stands for.
unfoldable pub bound : Text → ℤ → ℕ
bound s (pos i) = i
bound s (negsuc i) = length s - suc i

-- `s[:i]`
unfoldable pub upto : Text → ℤ → Text
unfolding bound
upto s i = take (bound s i) s

-- `s[i:]`
unfoldable pub onward : Text → ℤ → Text
unfolding bound
onward s i = drop (bound s i) s

-- `s.find(c)`
unfoldable pub position : ℕ → Text → ℤ
unfolding find
position c s = elim (find c s) [ none ↦ negsuc 0 | some i ↦ pos i ]

tests :
    (at (codes "abc") (negsuc 1) ≡ some b'b')
    × (upto (codes "abc") (negsuc 0) ≡ codes "ab")
    × (onward (codes "abc") (negsuc 4) ≡ codes "abc")
unfolding at upto onward
tests = (refl, refl, refl)
