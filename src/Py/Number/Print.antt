-- ===== src/Py/Number/Print.antt =====
-- `str(n)`: the decimal digits, by recursion on a proof that the division ends.
use mathlib.Core.Logic.{ite, dite}
use mathlib.Core.WellFounded.{Acc, Acc-prop}
use native.Mathlib.Decide.{dec_lt}
use ospd_openvas.Prelude.{ℕ, ◌+◌, ◌/◌, ◌%◌, ◌<◌, ◌≡◌, refl, [], ◌∷◌, arith, ◌==◌, if◌then◌else◌}
use ospd_openvas.Prelude.Order.{lt_wf}
use ospd_openvas.Py.Text.{Text, codes}

-- The text of the last digit of `n`, in front of `rest`.
abbrev pub last_digit : ℕ → Text → Text
last_digit n rest = (b'0' + n % 10) ∷ rest

print : (n : ℕ) (rest : Text) → Acc ◌<◌ n → Text
print n rest (Acc.intro _ below) =
    dite (dec_lt 0 n)
      (λ positive. print (n / 10) (last_digit n rest) (below (n / 10) (omega arith))) (λ _. rest)

pub digits : ℕ → Text → Text
digits n rest = print n rest (lt_wf.apply n)

unfoldable pub str : ℕ → Text
unfolding digits print lt_wf dec_lt
str n = if n == 0 then b'0' ∷ [] else digits n []

-- The proof that the division ends does not matter.
print_any :
    (n : ℕ) (rest : Text) (ends : Acc ◌<◌ n) (then_ends : Acc ◌<◌ (n / 10))
    → print n rest ends ≡ ite (dec_lt 0 n) (print (n / 10) (last_digit n rest) then_ends) rest
unfolding print
print_any n rest (Acc.intro _ below) then_ends = λ i.
    dite (dec_lt 0 n)
      (λ positive.
        print (n / 10) (last_digit n rest) (Acc-prop (below (n / 10) (omega arith)) then_ends i))
      (λ _. rest)

-- One round of the division.
pub digits_step :
    (n : ℕ) (rest : Text)
    → digits n rest ≡ ite (dec_lt 0 n) (digits (n / 10) (last_digit n rest)) rest
unfolding digits
digits_step n rest = print_any n rest (lt_wf.apply n) (lt_wf.apply (n / 10))

pub str-eq-digits : (n : ℕ) → 0 < n → str n ≡ digits n []
unfolding str
str-eq-digits n h = ground arith

str_test : str 1024 ≡ codes "1024"
unfolding str
str_test = refl
