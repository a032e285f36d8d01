-- ===== src/Scan/Counts/Bounds.antt =====
-- The bounds of the progress that `calculate_target_progress` (ospd/scan.py) computes.
use ospd_openvas.Prelude.{
  sym, subst, inr, inl, ◌⊎◌, ◌∙◌, ap, ◌-◌, none, some, ◌+◌, arith, length, ◌/◌, ◌*◌, ◌≤◌, ◌≡◌, ◌<◌,
  ℕ, [], ◌∷◌,
}
use ospd_openvas.Scan.Counts.{
  progress_or_done, target_progress_of, signed_quotient, int_quotient, sum_values,
}
use ospd_openvas.Prelude.Int.{negsuc, neg_part, pos_part, ◌-ℤ◌, ◌+ℤ◌, int_laws, ◌≤ℤ◌, pos, ℤ}
use ospd_openvas.Py.Number.{neg}
use native.Mathlib.Nat.{div-lt_iff_lt-mul, le-div_iff_mul-le}
use ospd_openvas.Py.Dict.{Dict}

-- No host has a progress above 100.
abbrev pub AtMostDone : Dict ℤ → Type 0
AtMostDone [] = Unit
AtMostDone ((_, progress) ∷ d) = (progress ≤ℤ pos 100) × AtMostDone d

abbrev pub AllDone : Dict ℤ → Type 0
AllDone [] = Unit
AllDone ((_, progress) ∷ d) = (progress ≡ pos 100) × AllDone d

sum_values-bound : (d : Dict ℤ) → AtMostDone d → sum_values d ≤ℤ pos (100 * length d)
sum_values-bound [] h = omega arith
sum_values-bound ((_, p) ∷ d) (h, hs) = omega (int_laws, sum_values-bound d hs)

sum_values-AllDone : (d : Dict ℤ) → AtMostDone d → pos (100 * length d) ≤ℤ sum_values d → AllDone d
sum_values-AllDone [] h k = tt
sum_values-AllDone ((_, p) ∷ d) (h, hs) k =
    let bound = sum_values-bound d hs in
    (omega (int_laws, bound, k), sum_values-AllDone d hs (omega (int_laws, bound, k)))

quotient_bound : (a b : ℕ) → 0 < b → a ≤ 100 * b → a / b ≤ 100
quotient_bound a b hb h =
    omega (arith, (div-lt_iff_lt-mul {k = b} {x = a} {y = 101} hb).1 (omega arith))

quotient_full : (a b : ℕ) → 0 < b → 100 ≤ a / b → 100 * b ≤ a
quotient_full a b hb h = omega (arith, (le-div_iff_mul-le {k = b} {x = 100} {y = a} hb).0 h)

-- What the quotient by a positive divisor is.
int_quotient_pos :
    (a : ℤ) (b : ℕ)
    → 0 < b
    → int_quotient a (pos b) ≡ some (signed_quotient (pos_part a) (neg_part a) b 0)
unfolding int_quotient
int_quotient_pos a b h = ground (arith, h)

int_quotient_zero : (a : ℤ) → int_quotient a (pos 0) ≡ none
unfolding int_quotient
int_quotient_zero a = ground arith

divisor : (n f dead : ℕ) → dead ≤ n + f → pos n +ℤ pos f -ℤ pos dead ≡ pos (n + f - dead)
divisor n f dead h = omega int_laws

-- The quotient of a number of at most 100 per host is at most 100, and 100 only if it is that.
signed_quotient-bound :
    (a : ℤ) (b : ℕ)
    → 0 < b
    → a ≤ℤ pos (100 * b)
    → (signed_quotient (pos_part a) (neg_part a) b 0 ≤ℤ pos 100)
      × (signed_quotient (pos_part a) (neg_part a) b 0 ≡ pos 100 → pos (100 * b) ≤ℤ a)
unfolding neg
signed_quotient-bound (pos n) b hb h =
    let same : (n + 0) / (b + 0) ≡ n / b =
      ap (λ x. x / (b + 0)) {x = n + 0} {y = n} (omega arith)
      ∙ ap (λ y. n / y) {x = b + 0} {y = b} (omega arith) in
    let bound : (n + 0) / (b + 0) ≤ 100 =
      omega (arith, same, quotient_bound n b hb (omega (arith, h))) in
    (
      omega (arith, bound),
      λ e.
          let full : (n + 0) / (b + 0) ≡ 100 = ap pos_part e in
          omega (arith, quotient_full n b hb (omega (arith, same, full))),
    )
signed_quotient-bound (negsuc n) b hb h = ground arith

-- The hosts with a progress, the alive and the dead ones are no more than there are.
abbrev pub AreCounted : Dict ℤ → ℕ → ℕ → ℕ → ℕ → Type 0
AreCounted d alive dead total finished = length d + alive + dead ≤ total + finished

numerator_bound :
    (d : Dict ℤ) (alive dead total finished : ℕ)
    → AtMostDone d
    → AreCounted d alive dead total finished
    → sum_values d +ℤ pos (100 * alive) ≤ℤ pos (100 * (total + finished - dead))
numerator_bound d alive dead total finished h k = omega (int_laws, sum_values-bound d h, k)

-- If the numerator is as large as it can be, nothing is left to do.
all_done :
    (d : Dict ℤ) (alive dead total finished : ℕ)
    → AtMostDone d
    → AreCounted d alive dead total finished
    → pos (100 * (total + finished - dead)) ≤ℤ sum_values d +ℤ pos (100 * alive)
    → AllDone d × (length d + alive + dead ≡ total + finished)
all_done d alive dead total finished h k full =
    let bound = sum_values-bound d h in
    (sum_values-AllDone d h (omega (int_laws, bound, k, full)), omega (int_laws, bound, k, full))

empty-AllDone : (d : Dict ℤ) → length d ≡ 0 → AllDone d
empty-AllDone [] h = tt
empty-AllDone (x ∷ d) h = absurd (omega (arith, h))

-- What is stated of a computed progress.
abbrev IsBounded : Dict ℤ → ℕ → ℕ → ℕ → ℕ → ℤ → Type 0
IsBounded d alive dead total finished t_prog =
    (t_prog ≤ℤ pos 100)
    × (t_prog ≡ pos 100 → AllDone d × (length d + alive + dead ≡ total + finished))

-- The progress of a scan is at most 100. It is 100 only if every host with a progress is done, and
-- these, the alive and the dead hosts are all the hosts that there are.
pub target_progress_of-done :
    (d : Dict ℤ) (alive dead total finished : ℕ)
    → AtMostDone d
    → AreCounted d alive dead total finished
    → (target_progress_of (pos total) alive (pos dead) d finished ≤ℤ pos 100)
      × (target_progress_of (pos total) alive (pos dead) d finished ≡ pos 100
          → AllDone d × (length d + alive + dead ≡ total + finished))
unfolding target_progress_of
target_progress_of-done d alive dead total finished h k =
    let b : ℕ = total + finished - dead in
    let a : ℤ = sum_values d +ℤ pos (100 * alive) in
    let same : pos total +ℤ pos finished -ℤ pos dead ≡ pos b =
      divisor total finished dead (omega (arith, k)) in
    let cases : (b ≡ 0) ⊎ (0 < b) = omega arith in
    elim cases [
      | inl e ↦
          let value : int_quotient a (pos total +ℤ pos finished -ℤ pos dead) ≡ none =
            ap (int_quotient a) (same ∙ ap pos e) ∙ int_quotient_zero a in
          subst (λ q. IsBounded d alive dead total finished (progress_or_done q)) (sym value)
            (omega arith, λ _. (empty-AllDone d (omega (arith, k, e)), omega (arith, k, e)))
      | inr p ↦
          let value : int_quotient a (pos total +ℤ pos finished -ℤ pos dead)
              ≡ some (signed_quotient (pos_part a) (neg_part a) b 0) =
            ap (int_quotient a) same ∙ int_quotient_pos a b p in
          let (bound, full) =
            signed_quotient-bound a b p (numerator_bound d alive dead total finished h k) in
          subst (λ q. IsBounded d alive dead total finished (progress_or_done q)) (sym value)
            (bound, λ e. all_done d alive dead total finished h k (full e))
    ]
