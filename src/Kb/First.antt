-- ===== src/Kb/First.antt =====
-- The first number of a range that passes a test: what the loops over the databases look for
-- (ospd_openvas/db.py).
use ospd_openvas.Prelude.{
  ◌∙◌, zero, sym, ap, inr, true, refl, inl, Bool-cases, suc, some, if◌then◌else◌, [], arith, ◌-◌,
  ◌<◌, none, ◌∷◌, ◌⊎◌, false, ◌≡◌, Option, subst, List, ◌+◌, ◌≤◌, Bool, ℕ,
}
use ospd_openvas.Py.Order.{range, count_up}

abbrev pub first_in : (ℕ → Bool) → List ℕ → Option ℕ
first_in p [] = none
first_in p (i ∷ indexes) = let rest = first_in p indexes in if p i then some i else rest

-- The least number from `a` to below `b` that passes, or none where no number passes.
abbrev pub IsLeast : (ℕ → Bool) → ℕ → ℕ → Option ℕ → Type 0
IsLeast p a b none = (i : ℕ) → a ≤ i → i < b → p i ≡ false
IsLeast p a b (some i) = (a ≤ i) × (i < b) × (p i ≡ true) × ((j : ℕ) → a ≤ j → j < i → p j ≡ false)

pub first_in_cong :
    (p q : ℕ → Bool) (l : List ℕ) → ((i : ℕ) → p i ≡ q i) → first_in p l ≡ first_in q l
first_in_cong p q [] h = refl
first_in_cong p q (i ∷ l) h = rw (h i) (rw (first_in_cong p q l h) refl)

same_or_above : (a i : ℕ) → a ≤ i → (a ≡ i) ⊎ (suc a ≤ i)
same_or_above a i h = omega (arith, h)

IsLeast-step :
    (p : ℕ → Bool) (a b : ℕ) (found : Option ℕ)
    → p a ≡ false
    → IsLeast p (suc a) b found
    → IsLeast p a b found
IsLeast-step p a b none e h = λ i le lt. elim (same_or_above a i le) [
  | inl same ↦ ap p (sym same) ∙ e
  | inr above ↦ h i above lt
]
IsLeast-step p a b (some i) e (le, lt, t, h) = (
  omega (arith, le),
  lt,
  t,
  λ j le' lt'. elim (same_or_above a j le') [
    | inl same ↦ ap p (sym same) ∙ e
    | inr above ↦ h j above lt'
  ],
)

first_in-count_up : (p : ℕ → Bool) (a n : ℕ) → IsLeast p a (a + n) (first_in p (count_up a n))
unfolding count_up
first_in-count_up p a zero = λ i le lt. absurd (omega (arith, le, lt))
first_in-count_up p a (suc n) = elim (Bool-cases (p a)) [
  | inl e ↦ rw e (omega arith, omega arith, e, λ j le lt. absurd (omega (arith, le, lt)))
  | inr e ↦ rw e (
      IsLeast-step p a (a + suc n) _ e (
        subst (λ b. IsLeast p (suc a) b (first_in p (count_up (suc a) n))) (omega arith)
          (first_in-count_up p (suc a) n)))
]

pub first_in-range : (p : ℕ → Bool) (b : ℕ) → 1 ≤ b → IsLeast p 1 b (first_in p (range 1 b))
unfolding range
first_in-range p b h =
    subst (λ c. IsLeast p 1 c (first_in p (count_up 1 (b - 1)))) (omega (arith, h))
      (first_in-count_up p 1 (b - 1))
