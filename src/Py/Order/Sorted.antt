-- ===== src/Py/Order/Sorted.antt =====
-- What sorting returns: an ordered list with the same elements.
use ospd_openvas.Prelude.{
  All-Occurs, ◌≢◌, All-of_Occurs, ℕ, ◌≤◌, ◌<◌, ◌≡◌, refl, ap, ◌↔◌, ◌∙◌, inl, inr, List, [], ◌∷◌,
  arith, All, Occurs, leb, ltb, ◌==◌, Bool-cases,
}
use ospd_openvas.Py.Order.{insert, sort, insert_new, sort_set}

abbrev pub IsSorted : List ℕ → Type 0
IsSorted [] = Unit
IsSorted (x ∷ l) = All (λ y. x ≤ y) l × IsSorted l

-- Sorted, each number once.
abbrev pub IsIncreasing : List ℕ → Type 0
IsIncreasing [] = Unit
IsIncreasing (x ∷ l) = All (λ y. x < y) l × IsIncreasing l

module _ (P : ℕ → Type 0) where
  All-insert : (x : ℕ) (l : List ℕ) → P x → All P l → All P (insert x l)
  unfolding insert
  All-insert x [] p h = (p, tt)
  All-insert x (y ∷ l) p (py, h) = elim (Bool-cases (leb x y)) [
    | inl e ↦ rw e (p, (py, h))
    | inr e ↦ rw e (py, All-insert x l p h)
  ]

  pub All-sort : (l : List ℕ) → All P l → All P (sort l)
  unfolding sort
  All-sort [] h = h
  All-sort (x ∷ l) (p, h) = All-insert x (sort l) p (All-sort l h)

  All-insert_new : (x : ℕ) (l : List ℕ) → P x → All P l → All P (insert_new x l)
  unfolding insert_new
  All-insert_new x [] p h = (p, tt)
  All-insert_new x (y ∷ l) p (py, h) = elim (Bool-cases (ltb x y)) [
    | inl e ↦ rw e (p, (py, h))
    | inr e ↦ rw e (elim (Bool-cases (x == y)) [
      | inl f ↦ rw f (py, h)
      | inr f ↦ rw f (py, All-insert_new x l p h)
    ])
  ]

  pub All-sort_set : (l : List ℕ) → All P l → All P (sort_set l)
  unfolding sort_set
  All-sort_set [] h = h
  All-sort_set (x ∷ l) (p, h) = All-insert_new x (sort_set l) p (All-sort_set l h)

All-le_trans : {x y : ℕ} (l : List ℕ) → x ≤ y → All (λ z. y ≤ z) l → All (λ z. x ≤ z) l
All-le_trans [] h _ = tt
All-le_trans (z ∷ l) h (k, r) = (omega arith, All-le_trans l h r)

All-lt_trans : {x y : ℕ} (l : List ℕ) → x < y → All (λ z. y < z) l → All (λ z. x < z) l
All-lt_trans [] h _ = tt
All-lt_trans (z ∷ l) h (k, r) = (omega arith, All-lt_trans l h r)

All-le_of_lt : (x : ℕ) (l : List ℕ) → All (λ z. x < z) l → All (λ z. x ≤ z) l
All-le_of_lt x [] _ = tt
All-le_of_lt x (z ∷ l) (k, r) = (omega arith, All-le_of_lt x l r)

insert-IsSorted : (x : ℕ) (l : List ℕ) → IsSorted l → IsSorted (insert x l)
unfolding insert
insert-IsSorted x [] s = (tt, tt)
insert-IsSorted x (y ∷ l) (h, s) = elim (Bool-cases (leb x y)) [
  | inl e ↦ let le : x ≤ y = ground arith in rw e ((le, All-le_trans l le h), (h, s))
  | inr e ↦ rw e (All-insert (λ z. y ≤ z) x l (ground arith) h, insert-IsSorted x l s)
]

-- `sort` returns an ordered list.
pub sort-IsSorted : (l : List ℕ) → IsSorted (sort l)
unfolding sort
sort-IsSorted [] = tt
sort-IsSorted (x ∷ l) = insert-IsSorted x (sort l) (sort-IsSorted l)

insert_new-IsIncreasing : (x : ℕ) (l : List ℕ) → IsIncreasing l → IsIncreasing (insert_new x l)
unfolding insert_new
insert_new-IsIncreasing x [] s = (tt, tt)
insert_new-IsIncreasing x (y ∷ l) (h, s) = elim (Bool-cases (ltb x y)) [
  | inl e ↦ let lt : x < y = ground arith in rw e ((lt, All-lt_trans l lt h), (h, s))
  | inr e ↦ rw e (elim (Bool-cases (x == y)) [
    | inl f ↦ rw f (h, s)
    | inr f ↦ rw f (All-insert_new (λ z. y < z) x l (ground arith) h, insert_new-IsIncreasing x l s)
  ])
]

pub sort_set-IsIncreasing : (l : List ℕ) → IsIncreasing (sort_set l)
unfolding sort_set
sort_set-IsIncreasing [] = tt
sort_set-IsIncreasing (x ∷ l) = insert_new-IsIncreasing x (sort_set l) (sort_set-IsIncreasing l)

insert_least : (x : ℕ) (l : List ℕ) → All (λ y. x ≤ y) l → insert x l ≡ x ∷ l
unfolding insert
insert_least x [] h = refl
insert_least x (y ∷ l) (h, _) = ground arith

-- Sorting changes nothing in an increasing list.
pub sort_of_IsIncreasing : (l : List ℕ) → IsIncreasing l → sort l ≡ l
unfolding sort
sort_of_IsIncreasing [] h = refl
sort_of_IsIncreasing (x ∷ l) (h, s) =
    ap (insert x) (sort_of_IsIncreasing l s) ∙ insert_least x l (All-le_of_lt x l h)

module _ (a : ℕ) where
  Occurs-insert : (x : ℕ) (l : List ℕ) → Occurs a (insert x l) ↔ (Occurs a (x ∷ l))
  unfolding insert
  Occurs-insert x [] = (λ h. h, λ h. h)
  Occurs-insert x (y ∷ l) = ground (arith, Occurs-insert x l)

  -- Sorting neither loses nor invents an element.
  pub Occurs-sort : (l : List ℕ) → Occurs a (sort l) ↔ Occurs a l
  unfolding sort
  Occurs-sort [] = (λ h. h, λ h. h)
  Occurs-sort (x ∷ l) = ground (arith, Occurs-sort l, Occurs-insert x (sort l))

  Occurs-insert_new : (x : ℕ) (l : List ℕ) → Occurs a (insert_new x l) ↔ (Occurs a (x ∷ l))
  unfolding insert_new
  Occurs-insert_new x [] = (λ h. h, λ h. h)
  Occurs-insert_new x (y ∷ l) = ground (arith, Occurs-insert_new x l)

  pub Occurs-sort_set : (l : List ℕ) → Occurs a (sort_set l) ↔ Occurs a l
  unfolding sort_set
  Occurs-sort_set [] = (λ h. h, λ h. h)
  Occurs-sort_set (x ∷ l) = ground (arith, Occurs-sort_set l, Occurs-insert_new x (sort_set l))

pub All-sort_set_iff : (P : ℕ → Type 0) (l : List ℕ) → All P (sort_set l) ↔ All P l
All-sort_set_iff P l = (
  λ h. All-of_Occurs P l (λ a o. All-Occurs P (sort_set l) a h ((Occurs-sort_set a l).1 o)),
  All-sort_set P l,
)

insert_new-ne-nil : (x : ℕ) (l : List ℕ) → insert_new x l ≢ []
unfolding insert_new
insert_new-ne-nil x [] e = cc
insert_new-ne-nil x (y ∷ l) e = ground arith

pub sort_set-ne-nil : (x : ℕ) (l : List ℕ) → sort_set (x ∷ l) ≢ []
unfolding sort_set
sort_set-ne-nil x l = insert_new-ne-nil x (sort_set l)
