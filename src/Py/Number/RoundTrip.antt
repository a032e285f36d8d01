-- ===== src/Py/Number/RoundTrip.antt =====
-- `int` reads back what `str` prints, and the text of a number is digits.
use ospd_openvas.Py.Number.Print.{last_digit, digits, digits_step, str-eq-digits}
use ospd_openvas.Prelude.{
  ◌*◌, ◌++◌, ◌-◌, ℕ, zero, suc, ◌+◌, ◌/◌, ◌%◌, ◌≤◌, ◌<◌, ◌≡◌, ◌≢◌, ap, refl, true, false, [], ◌∷◌,
  some, arith, All, ◌∙◌, Bool,
}
use ospd_openvas.Prelude.Int.{pos}
use ospd_openvas.Prelude.Order.{lt_wf}
use ospd_openvas.Py.Text.{Text, strip, is_space}
use ospd_openvas.Py.Text.Parts.{Lacks, strip_id}
use ospd_openvas.Py.Number.{str, scan, int, int_signed}
use mathlib.Core.WellFounded

abbrev pub IsDigit : ℕ → Type 0
IsDigit c = (b'0' ≤ c) × (c ≤ b'9')

digits-IsDigit : (n : ℕ) (out : Text) → All IsDigit out → All IsDigit (digits n out)
digits-IsDigit n =
    WellFounded.induction lt_wf
      {C = λ m. (out : Text) → All IsDigit out → All IsDigit (digits m out)} n
      λ m ih out h. grind (arith, digits_step m out, ih (m / 10))

pub str-IsDigit : (n : ℕ) → All IsDigit (str n)
str-IsDigit zero = unfold str in omega arith
str-IsDigit (suc n) = rw (str-eq-digits (suc n) (omega arith)) (digits-IsDigit (suc n) [] tt)

scan_last :
    (n : ℕ) (rest : Text) (fresh : Bool)
    → scan (last_digit n rest) (n / 10) fresh ≡ scan rest n false
unfolding scan
scan_last n rest fresh = ground arith

pub scan_one : (c : ℕ) → IsDigit c → scan (c ∷ []) 0 true ≡ some (c - b'0')
unfolding scan
scan_one c h = ground arith

-- The digits of `n`, read behind 0, and then the rest.
scan-digits : (n : ℕ) (out : Text) → 0 < n → scan (digits n out) 0 true ≡ scan out n false
scan-digits n =
    WellFounded.induction lt_wf
      {C = λ m. (rest : Text) → 0 < m → scan (digits m rest) 0 true ≡ scan rest m false} n
      λ m earlier rest h.
        grind (arith, digits_step m rest, digits_step 0, scan_last m rest, earlier (m / 10))

-- Reading the print of `n` in front of a text goes on with the text behind `n`.
pub scan-str : (n : ℕ) → scan (str n) 0 true ≡ some n
unfolding scan
scan-str zero = unfold str in refl
scan-str (suc n) = rw (str-eq-digits (suc n) (omega arith)) (scan-digits (suc n) [] (omega arith))

scan-int_signed :
    (s : Text) {n : ℕ} → All IsDigit s → scan s 0 true ≡ some n → int_signed s ≡ some (pos n)
unfolding int_signed
scan-int_signed [] h e = cc
scan-int_signed (c ∷ s) h e = ground arith

All-is_space : (s : Text) → All IsDigit s → All (λ c. is_space c ≡ false) s
unfolding is_space
All-is_space [] h = tt
All-is_space (c ∷ s) (h, hs) = (ground arith, All-is_space s hs)

int_step : (s : Text) → int s ≡ int_signed (strip s)
unfolding int
int_step s = refl

-- Digits that spell `n` are read as `n`.
pub int-scan : (s : Text) {n : ℕ} → All IsDigit s → scan s 0 true ≡ some n → int s ≡ some (pos n)
int-scan s h e = int_step s ∙ ap int_signed (strip_id s (All-is_space s h)) ∙ scan-int_signed s h e

-- Python reads back the number that it printed.
pub int-str : (n : ℕ) → int (str n) ≡ some (pos n)
int-str n = int-scan (str n) (str-IsDigit n) (scan-str n)

-- A digit is no other character.
pub Lacks-of_IsDigit : (c : ℕ) (s : Text) → ¬ IsDigit c → All IsDigit s → Lacks c s
Lacks-of_IsDigit c [] h _ = tt
Lacks-of_IsDigit c (d ∷ s) h (hd, hs) = ((λ e. h (rw (← e) hd)), Lacks-of_IsDigit c s h hs)

digits-ne-nil : (n : ℕ) (out : Text) → out ≢ [] → digits n out ≢ []
digits-ne-nil n =
    WellFounded.induction lt_wf {C = λ m. (out : Text) → out ≢ [] → digits m out ≢ []} n
      λ m ih out h. grind (arith, digits_step m out, ih (m / 10))

pub str-ne-nil : (n : ℕ) → str n ≢ []
str-ne-nil zero e = unfold str in cc e
str-ne-nil (suc n) e =
    digits-ne-nil (suc n / 10) ((b'0' + suc n % 10) ∷ []) (λ f. cc)
      (grind (arith, digits_step (suc n) [], str-eq-digits (suc n)))

-- Digits behind digits go on with the number read so far.
pub scan-append :
    (p q : Text) (acc n : ℕ)
    → All IsDigit p
    → scan p acc false ≡ some n
    → scan (p ++ q) acc false ≡ scan q n false
unfolding scan
scan-append [] q acc n h e = ground arith
scan-append (c ∷ p) q acc n (hc, h) e = ground (arith, scan-append p q (acc * 10 + (c - b'0')) n h)

pub scan-str-append :
    (n d : ℕ) → d ≤ 9 → scan (str n ++ ((b'0' + d) ∷ [])) 0 true ≡ some (n * 10 + d)
scan-str-append n d h = scan_digits (str n) (str-ne-nil n) (str-IsDigit n) (scan-str n)
  where
    scan_digits :
        (p : Text)
        → p ≢ []
        → All IsDigit p
        → scan p 0 true ≡ some n
        → scan (p ++ ((b'0' + d) ∷ [])) 0 true ≡ some (n * 10 + d)
    scan_digits [] k _ _ = absurd (k refl)
    scan_digits (c ∷ p) k (hc, hs) e =
        unfold scan in ground (arith, scan-append p ((b'0' + d) ∷ []) (c - b'0') n hs)

-- A number below ten is one digit.
pub str_digit : (d : ℕ) → d ≤ 9 → str d ≡ (b'0' + d) ∷ []
str_digit zero h = unfold str in refl
str_digit (suc d) h =
    str-eq-digits (suc d) (omega arith)
    ∙ grind (arith, digits_step (suc d) [], digits_step 0 ((b'0' + suc d) ∷ []))
