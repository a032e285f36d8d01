-- ===== src/Py/Order.antt =====
-- `range`, `sorted` and `sorted(set(...))` on numbers.
pub mod Sorted
use ospd_openvas.Prelude.{
  ℕ, zero, suc, ◌-◌, ◌≡◌, refl, List, [], ◌∷◌, arith, ltb, leb, ◌==◌, if◌then◌else◌,
}

-- `n` numbers from `a` on.
unfoldable pub count_up : ℕ → ℕ → List ℕ
count_up a zero = []
count_up a (suc n) = a ∷ count_up (suc a) n

-- `range(a, b)`
unfoldable pub range : ℕ → ℕ → List ℕ
unfolding count_up
range a b = count_up a (b - a)

-- `l.sort()`
unfoldable pub insert : ℕ → List ℕ → List ℕ
insert x [] = x ∷ []
insert x (y ∷ l) = if leb x y then x ∷ y ∷ l else y ∷ insert x l

unfoldable pub sort : List ℕ → List ℕ
unfolding insert
sort [] = []
sort (x ∷ l) = insert x (sort l)

-- `sorted(set(l))`
unfoldable pub insert_new : ℕ → List ℕ → List ℕ
insert_new x [] = x ∷ []
insert_new x (y ∷ l) = if ltb x y then x ∷ y ∷ l else if x == y then y ∷ l else y ∷ insert_new x l

unfoldable pub sort_set : List ℕ → List ℕ
unfolding insert_new
sort_set [] = []
sort_set (x ∷ l) = insert_new x (sort_set l)

tests :
    (sort (3 ∷ 1 ∷ 2 ∷ 1 ∷ []) ≡ 1 ∷ 1 ∷ 2 ∷ 3 ∷ [])
    × (sort_set (3 ∷ 1 ∷ 2 ∷ 1 ∷ []) ≡ 1 ∷ 2 ∷ 3 ∷ [])
unfolding sort sort_set
tests = (refl, refl)
